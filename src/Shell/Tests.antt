-- ===== src/Shell/Tests.antt =====
-- layout.tsx: its theorem for a user who logs out and in again.
use concordia_chat_app.Prelude.{◌≡◌, ◌+◌, true, false, none, some, List, [], ◌∷◌}
use concordia_chat_app.Shell.{
  Shell, Event, mounted, entered, left, closed, fired, run, step, fire, leave, on_close, enter,
  connects, is_auth_page, strip_slash,
}
use concordia_chat_app.Shell.Slots.{slots, run-slots}

abbrev fresh : Shell
fresh = record {
  mounted = false;
  sockets = 0;
  timers = 0;
  has_ws = false;
  close_calls = 0;
  shown = [];
  location = none;
}

abbrev events : List Event
events =
    mounted
    ∷ entered (some "/servers/s1/") (some "token") true
    ∷ left
    ∷ entered (some "/login/") none true
    ∷ closed
    ∷ entered (some "/") (some "token") true
    ∷ fired true
    ∷ closed
    ∷ fired false
    ∷ []

run-slots_example : slots (run events fresh) + 1 ≡ 2
unfolding step fire leave on_close enter connects is_auth_page strip_slash
run-slots_example = run-slots events fresh
