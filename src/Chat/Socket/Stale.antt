-- ===== src/Chat/Socket/Stale.antt =====
-- ChannelView.tsx: the ref `alive`, which the effects of two channels share, and the close event of
-- the old socket.
use concordia_chat_app.Prelude.{
  ◌∙◌, ap, ℕ, suc, ◌≡◌, refl, true, Option, none, some, [], ◌∷◌, ◌++◌, String, arith,
}
use concordia_chat_app.Prelude.Lists.{filter, find?}
use concordia_chat_app.Prelude.Tests.{eqb, truthy}
use concordia_chat_app.Chat.Socket.{
  backoff, Conn, Socket, Timer, on_close, fire, switch, clear_timer,
}

clear_timer-nil : (o : Option ℕ) → clear_timer o [] ≡ []
unfolding filter
clear_timer-nil none = refl
clear_timer-nil (some id) = refl

-- After a move from the channel of the socket `old` to `ch`, the close event of `old` starts the
-- one timer that then runs, which is for the old channel; and when that runs out the component's
-- socket is a new one to the old channel, though the component shows `ch`, to which it has a
-- socket too. No timer runs before the move, a token is stored and the constructor returns.
pub stale_reconnect :
    (old : Socket) (ch : String) (token : Option String) (c : Conn)
    → truthy token ≡ true
    → c.timers ≡ []
    → let moved = switch ch token true c in
      let closing = on_close old moved in
      (moved.ws ≡ some c.next)
      × (moved.sockets ≡ c.sockets ++ (record { id = c.next; channel_id = ch }) ∷ [])
      × ((t : Timer) × (closing.timers ≡ t ∷ [])
          × (t.channel_id ≡ old.channel_id)
          × ((fire t.id token true closing).ws ≡ some (suc (suc c.next)))
          × ((fire t.id token true closing).sockets
              ≡ closing.sockets
                ++ (record { id = suc (suc c.next); channel_id = old.channel_id }) ∷ []))
unfolding switch on_close fire find?
stale_reconnect old ch token c has_token no_timer =
    let none_left : clear_timer c.timer c.timers ≡ [] =
      ap (clear_timer c.timer) no_timer ∙ clear_timer-nil c.timer in
    let same : eqb (suc c.next) (suc c.next) ≡ true = ground arith in
    rw has_token (
      refl,
      refl,
      rw none_left (
        record { id = suc c.next; delay = backoff c.attempts; channel_id = old.channel_id },
        refl,
        refl,
        rw (same, fire) (rw has_token refl),
        rw (same, fire) (rw has_token refl),
      ),
    )
