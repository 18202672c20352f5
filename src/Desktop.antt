-- ===== src/Desktop.antt =====
-- apps/desktop-app/main.js and preload.js: the main process of the desktop application. The window
-- is Electron's: `Windows` has the calls that the code makes of it. A body is its UTF-16 units.
pub mod Window
pub mod Menus
pub mod Life
pub mod Notices
pub mod Switch
mod Tests
use concordia_chat_app.Prelude.{
  ℕ, zero, suc, ◌+◌, Bool, true, false, not, ◌&&◌, ◌||◌, Option, none, some, List, [], ◌∷◌, ◌++◌,
  String,
}
use concordia_chat_app.Prelude.Lists.{take}
use concordia_chat_app.Prelude.Tests.{eqb, or_else, truthy, if◌then◌else◌}
use concordia_chat_app.Prelude.Text.{code_units}
use concordia_chat_app.Shell.{Notification}
use concordia_chat_app.Desktop.Window.{Windows}

-- A notification shown, with the address that a click leads to.
pub record Notice : Type 0 where
  pub title : String
  pub body : List ℕ
  pub channel_url : String

-- `mainWindow`, `tray`, `isQuitting`, the stored preference, the notifications shown, the last
-- first, how often `app.quit()` was called, and the addresses sent to the page, the last first.
pub record Main (W : Type 0) : Type 0 where
  pub main_window : Option W
  pub tray : Bool
  pub is_quitting : Bool
  pub preference : Option Bool
  pub shown : List Notice
  pub quits : ℕ
  pub sent : List String

-- `store.get('notificationsEnabled', true)`
unfoldable pub get_preference : {W : Type 0} → Main W → Bool
get_preference s = or_else s.preference true

unfoldable pub set_preference : {W : Type 0} → Bool → Main W → Main W
set_preference enabled s = record s { preference = some enabled }

-- The handler of a click on a "Quit".
unfoldable pub quit : {W : Type 0} → Main W → Main W
quit s = record s { is_quitting = true; quits = suc s.quits }

unfoldable pub before_quit : {W : Type 0} → Main W → Main W
before_quit s = record s { is_quitting = true }

pub data Event : Type 0 where
  instance_started : Event
  close_asked : Event
  quit_clicked : Event
  quit_begun : Event
  tray_clicked : Event
  tray_opened : Event
  tray_created : Event
  preference_set : Bool → Event
  notified : Bool → Notification → Event
  notification_clicked : Notice → Event
  activated : ℕ → Event
  all_closed : Event

module _ {W : Type 0} ⦃e : Windows W⦄ where
  -- `createWindow`, less its menu.
  unfoldable pub create_window : Main W → Main W
  create_window s = record s { main_window = some e.create }

  abbrev pub with_window : (W → W) → Main W → Main W
  with_window f s = record s {
    main_window = elim s.main_window [ none ↦ none | some w ↦ some (f w) ];
  }

  -- `show()` and `focus()`.
  abbrev pub present : W → W
  present w = e.focus (e.show w)

  abbrev pub restored : W → W
  restored w = if e.is_minimized w then e.restore w else w

  abbrev pub made_visible : W → W
  made_visible w = if not (e.is_visible w) then e.show w else w

  -- The body of `second-instance`, which is also that of a click on a notification.
  unfoldable pub raise : W → W
  raise w = e.focus (made_visible (restored w))

  unfoldable pub second_instance : Main W → Main W
  unfolding raise
  second_instance s = with_window raise s

  -- The handler of `close`: whether the default is prevented, and the state.
  unfoldable pub on_close : Main W → Bool × Main W
  on_close s = if not s.is_quitting then (true, with_window e.hide s) else (false, s)

  -- "Open" in the menu of the tray, and a double click on the tray.
  unfoldable pub open_from_tray : Main W → Main W
  unfolding create_window
  open_from_tray s = elim s.main_window [
    | none ↦ create_window s
    | some w ↦ record s { main_window = some (present w) }
  ]

  -- A click on the tray.
  unfoldable pub click_tray : Main W → Main W
  click_tray s = with_window (λ w. if e.is_visible w then e.hide w else present w) s

  abbrev pub is_focused : Main W → Bool
  is_focused s = elim s.main_window [ none ↦ false | some w ↦ e.is_focused w ]

  -- `show-notification`; `supported` is `Notification.isSupported()`.
  unfoldable pub show_notification : Bool → Notification → Main W → Main W
  unfolding get_preference take code_units
  show_notification supported n s =
      if get_preference s && not (is_focused s)
      then (if supported
          then record s {
            shown =
                (record {
                  title = n.title;
                  body = take 100 (code_units n.body);
                  channel_url = n.channel_url;
                })
                ∷ s.shown;
          }
          else s)
      else s

  -- A click on a notification.
  unfoldable pub click_notification : Notice → Main W → Main W
  unfolding raise
  click_notification n s = elim s.main_window [
    | none ↦ s
    | some w ↦ record s {
      main_window = some (raise w);
      sent = if truthy (some n.channel_url) then n.channel_url ∷ s.sent else s.sent;
    }
  ]

  -- `activate`; `windows` is the number of open windows.
  unfoldable pub activate : ℕ → Main W → Main W
  unfolding create_window
  activate windows s = if eqb windows 0 then create_window s else with_window present s

  -- `createTray`, less its icon and menu, after the timer of `whenReady`.
  unfoldable pub create_tray : Main W → Main W
  create_tray s = record s { tray = true }

  unfoldable pub step : Event → Main W → Main W
  step instance_started s = second_instance s
  step close_asked s = (on_close s).1
  step quit_clicked s = quit s
  step quit_begun s = before_quit s
  step tray_clicked s = click_tray s
  step tray_opened s = open_from_tray s
  step tray_created s = create_tray s
  step (preference_set b) s = set_preference b s
  step (notified supported n) s = show_notification supported n s
  step (notification_clicked n) s = click_notification n s
  step (activated windows) s = activate windows s
  step all_closed s = s

  unfoldable pub run : List Event → Main W → Main W
  run [] s = s
  run (v ∷ vs) s = run vs (step v s)
