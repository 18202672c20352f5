-- ===== src/Desktop/Switch.antt =====
-- apps/web-app/app/components/ChannelSidebar.tsx with main.js: the switch for notifications, which
-- the page keeps and the main process stores. A reply of `getNotificationPreference` is computed when
-- the main process gets the request, and comes later.
use concordia_chat_app.Prelude.{
  ℕ, zero, suc, ◌≡◌, refl, Bool, true, false, not, ◌&&◌, List, [], ◌∷◌, ◌++◌,
}
use concordia_chat_app.Prelude.Tests.{if◌then◌else◌}
use concordia_chat_app.Shell.{Notification}
use concordia_chat_app.Desktop.{
  Main, Notice, get_preference, set_preference, show_notification, is_focused,
}
use concordia_chat_app.Desktop.Window.{Windows}
use concordia_chat_app.Desktop.Notices.{show_notification_lem}

-- The state of the switch, the replies that are on their way, and the main process.
pub record Switch (W : Type 0) : Type 0 where
  pub enabled : Bool
  pub replies : List Bool
  pub main : Main W

-- `useState(true)`
unfoldable pub opened : {W : Type 0} → Main W → Switch W
opened m = record { enabled = true; replies = []; main = m }

-- The effect of the first rendering, up to its reply.
unfoldable pub ask : {W : Type 0} → Switch W → Switch W
unfolding get_preference
ask s = record s { replies = s.replies ++ get_preference s.main ∷ [] }

unfoldable pub receive : {W : Type 0} → Switch W → Switch W
receive s = elim s.replies [ [] ↦ s | pref ∷ rest ↦ record s { enabled = pref; replies = rest } ]

-- `toggleNotifications`
unfoldable pub toggle : {W : Type 0} → Switch W → Switch W
unfolding set_preference
toggle s = record s { enabled = not s.enabled; main = set_preference (not s.enabled) s.main }

unfoldable pub toggles : {W : Type 0} → ℕ → Switch W → Switch W
unfolding toggle
toggles zero s = s
toggles (suc n) s = toggles n (toggle s)

abbrev pub flips : ℕ → Bool → Bool
flips zero b = b
flips (suc n) b = flips n (not b)

module _ {W : Type 0} where
  toggles-agree :
      (n : ℕ) (s : Switch W)
      → s.enabled ≡ get_preference s.main
      → ((toggles n s).enabled ≡ get_preference (toggles n s).main)
        × ((toggles n s).enabled ≡ flips n s.enabled)
  unfolding toggles toggle get_preference set_preference
  toggles-agree zero s h = (h, refl)
  toggles-agree (suc n) s h = toggles-agree n (toggle s) refl

  -- A reply that comes after a click turns the switch back, and the main process keeps what the click
  -- has stored.
  stale_reply :
      (m : Main W)
      → let s = receive (toggle (ask (opened m))) in
        (s.enabled ≡ get_preference m) × (get_preference s.main ≡ false)
  unfolding receive toggle ask opened get_preference set_preference
  stale_reply m = (refl, refl)

module _ {W : Type 0} ⦃e : Windows W⦄ where
  -- Once the switch has the stored preference, it shows after each click what the main process has
  -- stored, which each click turns round; and a notification that the page asks for is shown
  -- exactly if the switch is on, the window does not have the focus and the system supports
  -- notifications.
  pub switch_decides :
      (n : ℕ) (supported : Bool) (asked : Notification) (m : Main W)
      → let s = toggles n (receive (ask (opened m))) in
        (s.enabled ≡ flips n (get_preference m))
        × (s.enabled ≡ get_preference s.main)
        × ((note : Notice) × ((show_notification supported asked s.main).shown ≡ (
              if s.enabled && not (is_focused s.main) && supported
              then note ∷ s.main.shown
              else s.main.shown)))
  unfolding receive ask opened
  switch_decides n supported asked m =
      let start : Switch W = record { enabled = get_preference m; replies = []; main = m } in
      let (same, count) = toggles-agree n start refl in
      let shows = show_notification_lem supported asked (toggles n start).main in
      (count, same, (shows.0, rw same (shows.1)))
