-- ===== src/Desktop/Tests.antt =====
-- main.js: its theorems at a window of three flags.
use concordia_chat_app.Prelude.{
  ℕ, ◌≤◌, ◌≡◌, refl, Bool, true, false, not, ◌&&◌, none, some, List, [], ◌∷◌, ◌++◌, arith,
}
use concordia_chat_app.Prelude.Lists.{length}
use concordia_chat_app.Prelude.Tests.{if◌then◌else◌}
use concordia_chat_app.Prelude.Text.{code_units}
use concordia_chat_app.Shell.{Shell, Mention, notification}
use concordia_chat_app.Desktop.Window.{Windows, IsWindow}
use concordia_chat_app.Desktop.{
  Main, Notice, show_notification, click_notification, on_close, get_preference, is_focused, Event,
  instance_started, close_asked, tray_clicked, preference_set, run, step,
}
use concordia_chat_app.Desktop.Life.{IsRunning, InFront, run_stays, step-InFront}
use concordia_chat_app.Desktop.Switch.{opened, ask, receive, toggles, switch_decides}
use concordia_chat_app.Desktop.Notices.{
  deliver, path_of, show_notification_lem, mention_opens_channel,
}

pub record Flags : Type 0 where
  pub visible : Bool
  pub minimized : Bool
  pub focused : Bool

instance abbrev flags_window : Windows Flags
flags_window = record {
  create = record { visible = true; minimized = false; focused = true };
  show = λ w. record w { visible = true };
  hide = λ w. record w { visible = false; focused = false };
  focus = λ w. record w { focused = w.visible && not w.minimized };
  restore = λ w. record w { minimized = false };
  is_visible = λ w. w.visible;
  is_minimized = λ w. w.minimized;
  is_focused = λ w. w.focused;
}

Flags-IsWindow : IsWindow Flags
Flags-IsWindow = record {
  show_visible = λ w. refl;
  show_minimized = λ w h. h;
  hide_visible = λ w. refl;
  hide_focused = λ w. refl;
  focus_visible = λ w h. h;
  focus_focused = λ w h large. ground (arith, h, large);
  focus_minimized = λ w h. h;
  restore_minimized = λ w. refl;
}

-- Hidden in the tray.
abbrev hidden : Flags
hidden = record { visible = false; minimized = true; focused = false }

abbrev main : Main Flags
main = record {
  main_window = some hidden;
  tray = true;
  is_quitting = false;
  preference = none;
  shown = [];
  quits = 0;
  sent = [];
}

abbrev events : List Event
events = instance_started ∷ close_asked ∷ tray_clicked ∷ preference_set false ∷ []

main-IsRunning : IsRunning main
main-IsRunning = record { window = refl; staying = refl; asked = refl }

run_stays_example : IsRunning (run events main) × ((on_close (run events main)).0 ≡ true)
run_stays_example = run_stays events main refl main-IsRunning

step-InFront_example : InFront (step instance_started main)
step-InFront_example = step-InFront Flags-IsWindow instance_started main hidden refl refl

abbrev mention : Mention
mention = record {
  channel_name = some "general";
  content = some "hello @ada";
  server_id = some "s1";
  channel_id = some "c1";
}

mention_is_shown :
    (note : Notice) × ((show_notification true (notification mention) main).shown ≡ note ∷ [])
    × (note.title ≡ (notification mention).title)
    × (note.channel_url ≡ (notification mention).channel_url)
    × (length note.body ≤ 100)
    × ((rest : List ℕ) × (note.body ++ rest ≡ code_units (notification mention).body))
unfolding get_preference
mention_is_shown = show_notification_lem true (notification mention) main

abbrev page : Shell
page = record {
  mounted = true;
  sockets = 1;
  timers = 0;
  has_ws = true;
  close_calls = 0;
  shown = [];
  location = none;
}

mention_opens_channel_example :
    let t = show_notification true (notification mention) main in
    (note : Notice) × (t.shown ≡ note ∷ [])
    × InFront (click_notification note t)
    × ((click_notification note t).sent ≡ path_of mention ∷ [])
    × ((deliver (click_notification note t).sent page).location ≡ some (path_of mention))
unfolding get_preference
mention_opens_channel_example =
    mention_opens_channel Flags-IsWindow mention main page hidden refl refl

switch_decides_example :
    let s = toggles 1 (receive (ask (opened main))) in
    (s.enabled ≡ false)
    × (s.enabled ≡ get_preference s.main)
    × ((note : Notice) × ((show_notification true (notification mention) s.main).shown ≡ (
          if s.enabled && not (is_focused s.main) && true
          then note ∷ s.main.shown
          else s.main.shown)))
unfolding get_preference
switch_decides_example = switch_decides 1 true (notification mention) main
