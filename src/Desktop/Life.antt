-- ===== src/Desktop/Life.antt =====
-- main.js: when the application ends, and how its window comes back.
use concordia_chat_app.Prelude.{
  ◌≡◌, refl, Bool, true, false, not, ◌&&◌, some, List, [], ◌∷◌, arith, inl, inr,
}
use concordia_chat_app.Prelude.Lists.{every}
use concordia_chat_app.Prelude.Tests.{eqb, Bool-cases, is_some}
use concordia_chat_app.Desktop.Window.{Windows, IsWindow}
use concordia_chat_app.Desktop.{
  Main, create_window, raise, present, made_visible, restored, second_instance, on_close,
  open_from_tray, click_tray, click_notification, activate, create_tray, show_notification,
  set_preference, Event, instance_started, close_asked, quit_clicked, quit_begun, tray_clicked,
  tray_opened, tray_created, preference_set, notified, notification_clicked, activated, all_closed,
  step, run,
}

-- Not an event by which the user or the system quits.
abbrev pub is_calm : Event → Bool
is_calm instance_started = true
is_calm close_asked = true
is_calm quit_clicked = false
is_calm quit_begun = false
is_calm tray_clicked = true
is_calm tray_opened = true
is_calm tray_created = true
is_calm (preference_set b) = true
is_calm (notified supported n) = true
is_calm (notification_clicked n) = true
is_calm (activated windows) = true
is_calm all_closed = true

module _ {W : Type 0} ⦃e : Windows W⦄ where
  -- The window is there, the application is not quitting and has not been told to.
  pub record IsRunning (s : Main W) : Type 0 where
    pub window : is_some s.main_window ≡ true
    pub staying : s.is_quitting ≡ false
    pub asked : s.quits ≡ 0

  step-IsRunning : (v : Event) (s : Main W) → is_calm v ≡ true → IsRunning s → IsRunning (step v s)
  unfolding step second_instance on_close open_from_tray click_tray set_preference show_notification
      click_notification activate create_window create_tray
  step-IsRunning instance_started s c i = record {
    window = ground (arith, i.window);
    staying = i.staying;
    asked = i.asked;
  }
  step-IsRunning close_asked s c i = record {
    window = ground (arith, i.window, i.staying);
    staying = ground (arith, i.staying);
    asked = ground (arith, i.asked);
  }
  step-IsRunning quit_clicked s c i = absurd (cc c)
  step-IsRunning quit_begun s c i = absurd (cc c)
  step-IsRunning tray_clicked s c i = record {
    window = ground (arith, i.window);
    staying = i.staying;
    asked = i.asked;
  }
  step-IsRunning tray_opened s c i = record {
    window = ground (arith, i.window);
    staying = ground (arith, i.staying);
    asked = ground (arith, i.asked);
  }
  step-IsRunning tray_created s c i = record {
    window = i.window;
    staying = i.staying;
    asked = i.asked;
  }
  step-IsRunning (preference_set b) s c i = record {
    window = i.window;
    staying = i.staying;
    asked = i.asked;
  }
  step-IsRunning (notified supported n) s c i = record {
    window = ground (arith, i.window);
    staying = ground (arith, i.staying);
    asked = ground (arith, i.asked);
  }
  step-IsRunning (notification_clicked n) s c i = record {
    window = ground (arith, i.window);
    staying = ground (arith, i.staying);
    asked = ground (arith, i.asked);
  }
  step-IsRunning (activated windows) s c i = record {
    window = ground (arith, i.window);
    staying = ground (arith, i.staying);
    asked = ground (arith, i.asked);
  }
  step-IsRunning all_closed s c i = i

  run-IsRunning :
      (vs : List Event) (s : Main W) → every is_calm vs ≡ true → IsRunning s → IsRunning (run vs s)
  unfolding run
  run-IsRunning [] s c i = i
  run-IsRunning (v ∷ vs) s c i =
      run-IsRunning vs (step v s) (ground arith) (step-IsRunning v s (ground arith) i)

  -- As long as nobody quits, through the menu, the tray or the system, the application never ends:
  -- it keeps its window, does not call `app.quit()`, and prevents the next close. At the start it has
  -- a window and is not quitting.
  pub run_stays :
      (vs : List Event) (s : Main W)
      → every is_calm vs ≡ true
      → IsRunning s
      → IsRunning (run vs s) × ((on_close (run vs s)).0 ≡ true)
  unfolding on_close
  run_stays vs s c i = let kept = run-IsRunning vs s c i in (kept, rw (kept.staying) refl)

  -- The window can be seen: it is visible, not minimized, and has the focus.
  pub record IsFront (w : W) : Type 0 where
    pub visible : e.is_visible w ≡ true
    pub unfolded : e.is_minimized w ≡ false
    pub focused : e.is_focused w ≡ true

  -- The state has a window, which can be seen.
  abbrev pub InFront : Main W → Type 0
  InFront s = (w : W) × (s.main_window ≡ some w) × IsFront w

module _ {W : Type 0} ⦃e : Windows W⦄ (laws : IsWindow W) where
  focus-IsFront : (w : W) → e.is_visible w ≡ true → e.is_minimized w ≡ false → IsFront (e.focus w)
  focus-IsFront w shown large = record {
    visible = laws.focus_visible w shown;
    unfolded = laws.focus_minimized w large;
    focused = laws.focus_focused w shown large;
  }

  present-IsFront : (w : W) → e.is_minimized w ≡ false → IsFront (present w)
  present-IsFront w large =
      focus-IsFront (e.show w) (laws.show_visible w) (laws.show_minimized w large)

  restored-minimized : (w : W) → e.is_minimized (restored w) ≡ false
  restored-minimized w = elim (Bool-cases (e.is_minimized w)) [
    | inl small ↦ rw small (laws.restore_minimized w)
    | inr large ↦ rw large large
  ]

  made_visible-front :
      (w : W)
      → e.is_minimized w ≡ false
      → (e.is_visible (made_visible w) ≡ true) × (e.is_minimized (made_visible w) ≡ false)
  made_visible-front w large = elim (Bool-cases (e.is_visible w)) [
    | inl shown ↦ rw shown (shown, large)
    | inr hidden ↦ rw hidden (laws.show_visible w, laws.show_minimized w large)
  ]

  pub raise-IsFront : (w : W) → IsFront (raise w)
  unfolding raise
  raise-IsFront w =
      let (shown, large) = made_visible-front (restored w) (restored-minimized w) in
      focus-IsFront (made_visible (restored w)) shown large

  -- The events that bring the window `w` back: two restore a minimized window, and two only show
  -- and focus it.
  abbrev pub reveals : Event → W → Bool
  reveals instance_started w = true
  reveals tray_opened w = not (e.is_minimized w)
  reveals (notification_clicked n) w = true
  reveals (activated windows) w = not (eqb windows 0) && not (e.is_minimized w)
  reveals close_asked w = false
  reveals quit_clicked w = false
  reveals quit_begun w = false
  reveals tray_clicked w = false
  reveals tray_created w = false
  reveals (preference_set b) w = false
  reveals (notified supported n) w = false
  reveals all_closed w = false

  -- However the window was hidden, minimized or covered, a second start of the application and a
  -- click on a notification bring it to the front: it is visible, not minimized, and has the
  -- focus. "Open" in the tray and the activation of the application (while it has a window open)
  -- do so for a window that is not minimized. There is a window.
  pub step-InFront :
      (v : Event) (s : Main W) (w : W)
      → s.main_window ≡ some w
      → reveals v w ≡ true
      → InFront (step v s)
  unfolding step second_instance open_from_tray click_notification activate
  step-InFront instance_started s w h r = (raise w, rw h refl, raise-IsFront w)
  step-InFront tray_opened s w h r = (present w, rw h refl, present-IsFront w (ground arith))
  step-InFront (notification_clicked n) s w h r = (raise w, rw h refl, raise-IsFront w)
  step-InFront (activated windows) s w h r =
      let some_open : eqb windows 0 ≡ false = ground arith in
      (present w, rw (h, some_open) refl, present-IsFront w (ground arith))
  step-InFront close_asked s w h r = absurd (cc r)
  step-InFront quit_clicked s w h r = absurd (cc r)
  step-InFront quit_begun s w h r = absurd (cc r)
  step-InFront tray_clicked s w h r = absurd (cc r)
  step-InFront tray_created s w h r = absurd (cc r)
  step-InFront (preference_set b) s w h r = absurd (cc r)
  step-InFront (notified supported n) s w h r = absurd (cc r)
  step-InFront all_closed s w h r = absurd (cc r)
