-- ===== src/Chat/Socket/Backoff.antt =====
-- ChannelView.tsx: the delays between attempts to reconnect.
use concordia_chat_app.Prelude.{ℕ, suc, ◌+◌, ◌*◌, ◌^◌, ◌≤◌, ◌≡◌, arith, min}
use native.Mathlib.Nat.{pow-suc, pow-le-pow_right}
use concordia_chat_app.Chat.Socket.{backoff}

-- Every delay lies between one second and thirty; each is twice the one before until the limit of
-- thirty seconds is met, which holds from the sixth attempt on.
pub backoff_bounds :
    (n : ℕ)
    → (1000 ≤ backoff n)
      × (backoff n ≤ 30000)
      × (backoff (suc n) ≡ min (2 * backoff n) 30000)
      × (backoff (5 + n) ≡ 30000)
unfolding backoff
backoff_bounds n =
    let big : 2 ^ 5 ≤ 2 ^ (5 + n) =
      pow-le-pow_right {n = 2} (omega arith) {i = 5} {j = 5 + n} (omega arith) in
    let one : 1 ≤ 2 ^ n = pow-le-pow_right {n = 2} (omega arith) {i = 0} {j = n} (omega arith) in
    (omega arith, omega arith, omega (arith, pow-suc 2 n), omega arith)
