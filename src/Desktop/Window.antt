-- ===== src/Desktop/Window.antt =====
-- What main.js uses of Electron's `BrowserWindow`, and what it relies on. The laws are those that
-- Electron documents for a window which is not destroyed.
use concordia_chat_app.Prelude.{◌≡◌, Bool, true, false}

pub record Windows (W : Type 0) : Type 0 where
  pub create : W
  pub show : W → W
  pub hide : W → W
  pub focus : W → W
  pub restore : W → W
  pub is_visible : W → Bool
  pub is_minimized : W → Bool
  pub is_focused : W → Bool

-- A shown window is visible; focusing keeps it visible, and gives the focus to a visible window that
-- is not minimized; a restored window is not minimized, and showing and focusing do not minimize it.
pub record IsWindow (W : Type 0) ⦃e : Windows W⦄ : Type 0 where
  pub show_visible : (w : W) → e.is_visible (e.show w) ≡ true
  pub show_minimized : (w : W) → e.is_minimized w ≡ false → e.is_minimized (e.show w) ≡ false
  pub hide_visible : (w : W) → e.is_visible (e.hide w) ≡ false
  pub hide_focused : (w : W) → e.is_focused (e.hide w) ≡ false
  pub focus_visible : (w : W) → e.is_visible w ≡ true → e.is_visible (e.focus w) ≡ true
  pub focus_focused :
      (w : W) → e.is_visible w ≡ true → e.is_minimized w ≡ false → e.is_focused (e.focus w) ≡ true
  pub focus_minimized : (w : W) → e.is_minimized w ≡ false → e.is_minimized (e.focus w) ≡ false
  pub restore_minimized : (w : W) → e.is_minimized (e.restore w) ≡ false
