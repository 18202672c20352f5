-- ===== src/Composer/Tests.antt =====
-- MessageInput.tsx: its theorems at a concrete field.
use concordia_chat_app.Prelude.{◌≡◌, refl, false, List, [], ◌∷◌}
use concordia_chat_app.Prelude.Lists.{All}
use concordia_chat_app.Prelude.Tests.{if◌then◌else◌}
use concordia_chat_app.Composer.{Composer, Event, typed, key, clicked, ended, run}
use concordia_chat_app.Composer.Sending.{IsContent, run_sends_one}

abbrev blank : Composer
blank = record { text = ""; sending = false; uploading = false; calls = []; open_calls = 0 }

abbrev events : List Event
events = typed "hello " ∷ key "Enter" false ∷ typed "again" ∷ clicked ∷ ended ∷ clicked ∷ []

run_sends_one_example :
    ((run events blank).open_calls ≡ (if (run events blank).sending then 1 else 0))
    × All IsContent (run events blank).calls
run_sends_one_example = run_sends_one events blank refl refl refl
