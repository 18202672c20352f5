-- ===== src/Chat/Socket/Quiet.antt =====
-- ChannelView.tsx: the connection after the clean-up of the effect.
use concordia_chat_app.Prelude.{
  inr, inl, ℕ, ◌≤◌, ◌≡◌, refl, not, false, Option, none, some, List, [], ◌∷◌, arith,
}
use concordia_chat_app.Prelude.Lists.{find?, length, length-filter-le}
use concordia_chat_app.Prelude.Tests.{Option-cases, eqb}
use concordia_chat_app.Chat.Socket.{
  Conn, Socket, Timer, on_open, on_close, fire, cleanup, clear_timer, Event, opened, closed, fired,
  step, run,
}

-- Nothing new since `c`: still dead, no id given out, no more sockets and no more timers.
pub record IsQuiet (c d : Conn) : Type 0 where
  pub dead : d.alive ≡ false
  pub no_new : d.next ≡ c.next
  pub sockets : length d.sockets ≤ length c.sockets
  pub timers : length d.timers ≤ length c.timers

step-IsQuiet : (e : Event) (c d : Conn) → IsQuiet c d → IsQuiet c (step e d)
unfolding step on_open on_close fire
step-IsQuiet (opened s sends) c d q = ground arith
step-IsQuiet (closed s) c d q =
    ground (arith, length-filter-le (λ (t : Socket). not (eqb t.id s.id)) d.sockets)
step-IsQuiet (fired id token opens) c d q =
    elim (Option-cases (find? (λ (u : Timer). eqb u.id id) d.timers)) [
      | inl e ↦ rw (e, fire) q
      | inr (t, e) ↦
          rw (e, fire)
            (ground (arith, length-filter-le (λ (u : Timer). not (eqb u.id id)) d.timers))
    ]

run-IsQuiet : (es : List Event) (c d : Conn) → IsQuiet c d → IsQuiet c (run es d)
unfolding run
run-IsQuiet [] c d q = q
run-IsQuiet (e ∷ es) c d q = run-IsQuiet es c (step e d) (step-IsQuiet e c d q)

clear_timer-le : (o : Option ℕ) (ts : List Timer) → length (clear_timer o ts) ≤ length ts
clear_timer-le none ts = omega arith
clear_timer-le (some k) ts = length-filter-le (λ (u : Timer). not (eqb u.id k)) ts

-- After the clean-up, whatever sockets open or close and whatever timers still run out, the
-- component stays dead, makes no socket and no timer (no id is given out), and holds no more of
-- either than before.
pub cleanup-IsQuiet : (es : List Event) (c : Conn) → IsQuiet c (run es (cleanup c))
unfolding cleanup
cleanup-IsQuiet es c = run-IsQuiet es c _ (record {
  dead = refl;
  no_new = refl;
  sockets = omega arith;
  timers = clear_timer-le c.timer c.timers;
})
