-- ===== src/Desktop/Notices.antt =====
-- main.js and preload.js, with layout.tsx: what becomes of a mention on the desktop.
use concordia_chat_app.Prelude.{
  ℕ, ◌≤◌, ◌≡◌, refl, ap, ◌∙◌, Bool, true, false, not, ◌&&◌, some, List, [], ◌∷◌, ◌++◌, String,
  arith,
}
use concordia_chat_app.Prelude.Lists.{length, take, length-take-le, take-prefix}
use concordia_chat_app.Prelude.Tests.{truthy, if_true, if◌then◌else◌}
use concordia_chat_app.Prelude.Text.{◌&◌, code_units, truthy_append}
use concordia_chat_app.Shell.{Shell, on_navigate, Notification, Mention, notification, or_default}
use concordia_chat_app.Desktop.Window.{Windows, IsWindow}
use concordia_chat_app.Desktop.Life.{InFront, raise-IsFront}
use concordia_chat_app.Desktop.{
  raise, Main, Notice, show_notification, click_notification, get_preference, is_focused,
}

-- The address of the channel of a mention, with its defaults.
abbrev pub path_of : Mention → String
path_of m =
    "/servers/"
    & or_default m.server_id "default"
    & "/channels/"
    & or_default m.channel_id "general"

module _ {W : Type 0} ⦃e : Windows W⦄ where
  abbrev pub is_wanted : Bool → Main W → Bool
  is_wanted supported s = get_preference s && not (is_focused s) && supported

  show_notification-shown :
      (supported : Bool) (n : Notification) (s : Main W)
      → show_notification supported n s ≡ (
          if is_wanted supported s
          then record s {
            shown =
                (record {
                  title = n.title;
                  body = take 100 (code_units n.body);
                  channel_url = n.channel_url;
                })
                ∷ s.shown;
          }
          else s)
  unfolding show_notification
  show_notification-shown supported n s = ground arith

  -- A notification is shown exactly if the user allows notifications, the window does not have the
  -- focus and the system supports them; it has the title and the address asked for, and its body is
  -- the beginning of the one asked for, at most 100 units long.
  pub show_notification_lem :
      (supported : Bool) (n : Notification) (s : Main W)
      → (note : Notice) × ((show_notification supported n s).shown
          ≡ (if is_wanted supported s then note ∷ s.shown else s.shown))
        × (note.title ≡ n.title)
        × (note.channel_url ≡ n.channel_url)
        × (length note.body ≤ 100)
        × ((rest : List ℕ) × (note.body ++ rest ≡ code_units n.body))
  unfolding take code_units
  show_notification_lem supported n s = (
    record { title = n.title; body = take 100 (code_units n.body); channel_url = n.channel_url },
    ap (λ (t : Main W). t.shown) (show_notification-shown supported n s)
        ∙ moved (is_wanted supported s),
    refl,
    refl,
    length-take-le 100 (code_units n.body),
    take-prefix 100 (code_units n.body),
  )
    where
      moved :
          (b : Bool)
          → (if b
              then record s {
                shown =
                    (record {
                      title = n.title;
                      body = take 100 (code_units n.body);
                      channel_url = n.channel_url;
                    })
                    ∷ s.shown;
              }
              else s).shown
            ≡ (if b
                then (record {
                  title = n.title;
                  body = take 100 (code_units n.body);
                  channel_url = n.channel_url;
                })
                  ∷ s.shown
                else s.shown)
      moved true = refl
      moved false = refl

-- The page gets the address that was sent last.
abbrev pub deliver : List String → Shell → Shell
deliver [] page = page
deliver (url ∷ urls) page = on_navigate url page

module _ {W : Type 0} ⦃e : Windows W⦄ (laws : IsWindow W) where
  -- A mention finds its way: where it is shown, a click on it brings the window to the front and
  -- sends the page the address of the channel in which the user was mentioned, and the page goes
  -- there. Notifications are allowed and supported, and there is a window, which lacks the focus.
  pub mention_opens_channel :
      (m : Mention) (s : Main W) (page : Shell) (w : W)
      → s.main_window ≡ some w
      → is_wanted true s ≡ true
      → let t = show_notification true (notification m) s in
        (note : Notice) × (t.shown ≡ note ∷ s.shown)
        × InFront (click_notification note t)
        × ((click_notification note t).sent ≡ path_of m ∷ s.sent)
        × ((deliver (click_notification note t).sent page).location ≡ some (path_of m))
  unfolding show_notification click_notification notification on_navigate
  mention_opens_channel m s page w h wanted =
      let note : Notice = record {
        title = (notification m).title;
        body = take 100 (code_units (notification m).body);
        channel_url = path_of m;
      } in
      let t : Main W = record s { shown = note ∷ s.shown } in
      let is_t : show_notification true (notification m) s ≡ t =
        show_notification-shown true (notification m) s ∙ if_true (is_wanted true s) _ _ wanted in
      let full : truthy (some (path_of m)) ≡ true =
        truthy_append "/servers/"
          (or_default m.server_id "default" & "/channels/" & or_default m.channel_id "general")
          refl in
      (
        note,
        ap (λ (x : Main W). x.shown) is_t,
        rw is_t (raise w, rw h refl, raise-IsFront laws w),
        rw is_t (rw (h, full) refl),
        rw is_t (rw (h, full) refl),
      )
