-- ===== src/Timeline/Scroll.antt =====
-- MessageList.tsx: the scroll position of the list, by the heights that the browser reports.
use concordia_chat_app.Prelude.{ℕ, ◌+◌, ◌-◌, ◌≤◌, ◌≡◌, Bool, true, not, ◌&&◌, arith}
use concordia_chat_app.Prelude.Tests.{ltb, leb, if◌then◌else◌}

-- The container, and the refs of the effects that scroll it.
pub record Scroll : Type 0 where
  pub scroll_height : ℕ
  pub scroll_top : ℕ
  pub client_height : ℕ
  pub initial_scrolled : Bool
  pub prev_extra_len : ℕ

-- "Scroll to bottom after initial load".
unfoldable pub scroll_initial : Bool → Scroll → Scroll
scroll_initial loading c =
    if not loading && not c.initial_scrolled
    then record c { scroll_top = c.scroll_height; initial_scrolled = true }
    else c

-- `el.scrollHeight - el.scrollTop - el.clientHeight < 150`, a difference that may be negative.
unfoldable pub near_bottom : Scroll → Bool
near_bottom c = ltb c.scroll_height (c.scroll_top + c.client_height + 150)

-- "Auto-scroll to bottom when new extra messages arrive".
unfoldable pub scroll_extra : ℕ → Scroll → Scroll
unfolding near_bottom
scroll_extra len c =
    if leb len c.prev_extra_len
    then record c { prev_extra_len = len }
    else if near_bottom c
    then record c { prev_extra_len = len; scroll_top = c.scroll_height }
    else record c { prev_extra_len = len }

-- The frame after an older page was put on top: `container.scrollTop += container.scrollHeight -
-- prevHeight`, with the new height in the container.
unfoldable pub restore : ℕ → Scroll → Scroll
restore prev_height c = record c { scroll_top = c.scroll_top + c.scroll_height - prev_height }

-- When an older page makes the list taller, the distance from the bottom stays what it was. The
-- list is not lower than before, and the position lies within its old height.
pub restore-distance :
    (prev_height : ℕ) (c : Scroll)
    → prev_height ≤ c.scroll_height
    → c.scroll_top ≤ prev_height
    → c.scroll_height - (restore prev_height c).scroll_top ≡ prev_height - c.scroll_top
unfolding restore
restore-distance prev_height c grown inside = omega arith
