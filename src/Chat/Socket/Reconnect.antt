-- ===== src/Chat/Socket/Reconnect.antt =====
-- ChannelView.tsx: a connection that fails again and again, and one that opens at last.
use concordia_chat_app.Prelude.{
  ℕ, zero, suc, ◌+◌, ◌≤◌, ◌≡◌, refl, ◌∙◌, true, Option, none, some, List, [], ◌∷◌, String, arith,
}
use concordia_chat_app.Prelude.Lists.{filter, find?, length, All}
use concordia_chat_app.Prelude.Tests.{truthy}
use concordia_chat_app.Chat.Socket.{Conn, Socket, Timer, backoff, on_close, fire}
use concordia_chat_app.Chat.Socket.Backoff.{backoff_bounds}

-- A live component with one socket, which is for the channel `ch`, and no timer.
pub record HasSocket (ch : String) (c : Conn) : Type 0 where
  pub live : c.alive ≡ true
  pub socket : Socket
  pub one_socket : c.sockets ≡ socket ∷ []
  pub current : c.ws ≡ some socket.id
  pub same : socket.channel_id ≡ ch
  pub no_timer : c.timers ≡ []

-- The first of the timers runs out; with its delay.
unfoldable pub wait : Option String → Conn → Option (ℕ × Conn)
wait token c = elim c.timers [ [] ↦ none | t ∷ ts ↦ some (t.delay, fire t.id token true c) ]

-- The first of the sockets closes, and then the first of the timers that run then runs out.
unfoldable pub round : Option String → Conn → Option (ℕ × Conn)
unfolding wait
round token c = elim c.sockets [ [] ↦ none | s ∷ ss ↦ wait token (on_close s c) ]

-- At most `n` such rounds, with their delays: as many as there are a socket and a timer for.
unfoldable pub rounds : ℕ → Option String → Conn → Conn × List ℕ
unfolding round
rounds zero token c = (c, [])
rounds (suc n) token c = elim (round token c) [
  | none ↦ (c, [])
  | some (delay, after) ↦ let (last, delays) = rounds n token after in (last, delay ∷ delays)
]

wait-timers :
    (token : Option String) (c : Conn) (t : Timer)
    → c.timers ≡ t ∷ []
    → wait token c ≡ some (t.delay, fire t.id token true c)
unfolding wait
wait-timers token c t h = go c.timers h
  where
    go :
        (l : List Timer)
        → l ≡ t ∷ []
        → ◌≡◌ {A = Option (ℕ × Conn)}
            (elim l [ [] ↦ none | u ∷ us ↦ some (u.delay, fire u.id token true c) ])
            (some (t.delay, fire t.id token true c))
    go l e = rw e refl

round-sockets :
    (token : Option String) (c : Conn) (s : Socket)
    → c.sockets ≡ s ∷ []
    → round token c ≡ wait token (on_close s c)
unfolding round
round-sockets token c s h = go c.sockets h
  where
    go :
        (l : List Socket)
        → l ≡ s ∷ []
        → elim l [ [] ↦ none | u ∷ us ↦ wait token (on_close u c) ] ≡ wait token (on_close s c)
    go l e = rw e refl

-- The timer that the close of the socket starts.
on_close-timers :
    (ch : String) (c : Conn) (h : HasSocket ch c)
    → (on_close h.socket c).timers
      ≡ (record { id = c.next; delay = backoff c.attempts; channel_id = ch }) ∷ []
unfolding on_close
on_close-timers ch c h = ground (arith, h.live, h.no_timer, h.same)

fire-HasSocket :
    (ch : String) (token : Option String) (c : Conn) (h : HasSocket ch c)
    → truthy token ≡ true
    → HasSocket ch (fire c.next token true (on_close h.socket c))
unfolding on_close fire filter find?
fire-HasSocket ch token c h has_token = record {
  live = ground (arith, h.live, h.no_timer);
  socket = record { id = suc c.next; channel_id = h.socket.channel_id };
  one_socket = ground (arith, h.live, h.one_socket, h.no_timer);
  current = ground (arith, h.live, h.no_timer);
  same = h.same;
  no_timer = ground (arith, h.live, h.no_timer);
}

fire-attempts :
    (ch : String) (token : Option String) (c : Conn) (h : HasSocket ch c)
    → truthy token ≡ true
    → (fire c.next token true (on_close h.socket c)).attempts ≡ c.attempts + 1
unfolding on_close fire filter find?
fire-attempts ch token c h has_token = ground (arith, h.live, h.no_timer)

-- However often the connection of a live component fails, `n` times in a row, each close starts a
-- timer, and when the last one has run out the component has again one socket, to the same
-- channel, and no timer; the count of attempts has grown by `n`, and each of the `n` waits has
-- lasted between one second and thirty. A token is stored and the constructor returns, and before
-- it the component has one socket, to that channel, and no timer.
pub reconnects :
    (n : ℕ) (ch : String) (token : Option String) (c : Conn)
    → truthy token ≡ true
    → HasSocket ch c
    → let (last, delays) = rounds n token c in
      HasSocket ch last
      × (last.attempts ≡ c.attempts + n)
      × (length delays ≡ n)
      × All (λ d. (1000 ≤ d) × (d ≤ 30000)) delays
unfolding rounds
reconnects zero ch token c has_token h = (h, omega arith, refl, tt)
reconnects (suc n) ch token c has_token h =
    let (held, count, waits, bounds) =
      reconnects n ch token (fire c.next token true (on_close h.socket c)) has_token
        (fire-HasSocket ch token c h has_token) in
    let (least, most, twice, limit) = backoff_bounds c.attempts in
    let turns =
      round-sockets token c h.socket h.one_socket
      ∙ wait-timers token (on_close h.socket c) _ (on_close-timers ch c h) in
    rw (turns, rounds)
      (
        held,
        omega (arith, count, fire-attempts ch token c h has_token),
        omega (arith, waits),
        ((least, most), bounds),
      )
