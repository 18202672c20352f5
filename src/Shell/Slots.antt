-- ===== src/Shell/Slots.antt =====
-- layout.tsx: the sockets and timers of the shell, over any run of events.
use concordia_chat_app.Prelude.{◌&&◌, min, ℕ, ◌+◌, ◌≡◌, List, [], ◌∷◌, arith, inl, inr}
use concordia_chat_app.Prelude.Tests.{Bool-cases, if◌then◌else◌}
use concordia_chat_app.Shell.{
  Shell, Event, mounted, entered, left, closed, fired, framed, navigated, on_navigate, connects,
  connect, enter, leave, on_close, fire, on_message, step, run,
}

-- What is open or will be opened again.
abbrev pub slots : Shell → ℕ
slots s = s.sockets + s.timers

-- One socket more: the effect gets past its guards, and the constructor returns.
abbrev pub entry : Event → Shell → ℕ
entry (entered pathname token opens) s = if connects pathname token s && opens then 1 else 0
entry mounted s = 0
entry left s = 0
entry closed s = 0
entry (fired opens) s = 0
entry (framed electron type m) s = 0
entry (navigated url) s = 0

-- What an event takes away: a timer, where the constructor throws, or everything.
abbrev pub loss : Event → Shell → ℕ
loss (entered pathname token opens) s = 0
loss mounted s = 0
loss left s = 0
loss closed s = 0
loss (fired opens) s = if opens then 0 else min 1 s.timers
loss (framed electron type m) s = 0
loss (navigated url) s = slots s

-- What a run adds, and what it takes away.
abbrev pub entries : List Event → Shell → ℕ
entries [] s = 0
entries (e ∷ es) s = entry e s + entries es (step e s)

abbrev pub losses : List Event → Shell → ℕ
losses [] s = 0
losses (e ∷ es) s = loss e s + losses es (step e s)

step-slots : (e : Event) (s : Shell) → slots (step e s) + loss e s ≡ slots s + entry e s
unfolding step enter leave on_close fire on_message on_navigate connect
step-slots mounted s = omega arith
step-slots (entered pathname token opens) s = elim (Bool-cases (connects pathname token s)) [
  | inl e ↦ rw (e, enter) (ground arith)
  | inr e ↦ rw (e, enter) (omega arith)
]
step-slots left s = ground arith
step-slots closed s = ground arith
step-slots (fired opens) s = ground arith
step-slots (framed electron type m) s = ground arith
step-slots (navigated url) s = omega arith

-- In any run the number of sockets and timers grows by one each time that the effect connects and
-- the constructor returns, falls by one each time that the constructor throws when a timer runs
-- out, falls to zero when the document is loaded anew, and does not change otherwise: leaving a
-- page and the close of a socket take nothing away.
pub run-slots :
    (es : List Event) (s : Shell) → slots (run es s) + losses es s ≡ slots s + entries es s
unfolding run
run-slots [] s = omega arith
run-slots (e ∷ es) s = omega (arith, run-slots es (step e s), step-slots e s)
