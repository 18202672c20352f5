-- ===== src/Chat/Socket.antt =====
-- ChannelView.tsx: the WebSocket of a channel, its reconnection with growing delays, and the
-- clean-up of the effect. A socket and a timer remember the channel of the closure that made them;
-- closing a socket takes effect when its close event arrives, as an event of its own.
pub mod Backoff
pub mod Quiet
pub mod Stale
pub mod Reconnect
use concordia_chat_app.Prelude.{
  ℕ, suc, ◌+◌, ◌*◌, ◌^◌, Bool, true, false, not, Option, none, some, List, [], ◌∷◌, ◌++◌, String,
  min,
}
use concordia_chat_app.Prelude.Lists.{filter, find?}
use concordia_chat_app.Prelude.Tests.{eqb, truthy, if◌then◌else◌}

pub record Socket : Type 0 where
  pub id : ℕ
  pub channel_id : String

pub record Timer : Type 0 where
  pub id : ℕ
  pub delay : ℕ
  pub channel_id : String

-- The refs of the component, and what the browser holds for it: the sockets that are not closed,
-- the timers that run, and the frames sent, as socket and subscribed channel.
pub record Conn : Type 0 where
  pub alive : Bool
  pub attempts : ℕ
  pub ws : Option ℕ
  pub timer : Option ℕ
  pub sockets : List Socket
  pub timers : List Timer
  pub sent : List (ℕ × String)
  pub next : ℕ

-- Math.min(1000 * 2 ** reconnectAttempts.current, 30_000)
unfoldable pub backoff : ℕ → ℕ
backoff attempts = min (1000 * 2 ^ attempts) 30000

-- `reconnectTimer.current = setTimeout(connectWs, delay)`
unfoldable pub schedule : String → ℕ → Conn → Conn
schedule ch delay c = record c {
  timer = some c.next;
  timers = c.timers ++ (record { id = c.next; delay = delay; channel_id = ch }) ∷ [];
  next = suc c.next;
}

-- `connectWs` of the channel `ch`; `opens` tells whether `new WebSocket` returns, or throws.
unfoldable pub connect : String → Option String → Bool → Conn → Conn
unfolding schedule
connect ch token opens c =
    if not c.alive
    then c
    else if not (truthy token)
    then schedule ch 2000 c
    else if opens
    then record c {
      ws = some c.next;
      sockets = c.sockets ++ (record { id = c.next; channel_id = ch }) ∷ [];
      next = suc c.next;
    }
    else c

-- `ws.onopen`; `sends` tells whether `ws.send` returns, or throws.
unfoldable pub on_open : Socket → Bool → Conn → Conn
on_open s sends c = record c {
  attempts = 0;
  sent = if sends then c.sent ++ (s.id, s.channel_id) ∷ [] else c.sent;
}

-- `ws.onclose`, once the browser has closed the socket.
unfoldable pub on_close : Socket → Conn → Conn
unfolding schedule
on_close s c =
    let closed : Conn = record c { sockets = filter (λ t. not (eqb t.id s.id)) c.sockets } in
    if not c.alive
    then closed
    else record (schedule s.channel_id (backoff c.attempts) closed) { attempts = c.attempts + 1 }

-- One of the timers runs out: it leaves the list and calls the `connectWs` that made it.
unfoldable pub fire : ℕ → Option String → Bool → Conn → Conn
unfolding connect find?
fire id token opens c = elim (find? (λ u. eqb u.id id) c.timers) [
  | none ↦ c
  | some t ↦
      connect t.channel_id token opens
        (record c { timers = filter (λ u. not (eqb u.id id)) c.timers })
]

-- The effect: mark alive and connect.
unfoldable pub mount : String → Option String → Bool → Conn → Conn
unfolding connect
mount ch token opens c = connect ch token opens (record c { alive = true })

abbrev pub clear_timer : Option ℕ → List Timer → List Timer
clear_timer none ts = ts
clear_timer (some k) ts = filter (λ u. not (eqb u.id k)) ts

-- Its clean-up: mark dead, `clearTimeout`, `close()`. The close event of the socket comes later.
unfoldable pub cleanup : Conn → Conn
cleanup c = record c { alive = false; timers = clear_timer c.timer c.timers }

-- A change of `channelId`: the clean-up of the old effect, then the new effect.
unfoldable pub switch : String → Option String → Bool → Conn → Conn
unfolding cleanup mount
switch ch token opens c = mount ch token opens (cleanup c)

pub data Event : Type 0 where
  opened : Socket → Bool → Event
  closed : Socket → Event
  fired : ℕ → Option String → Bool → Event

unfoldable pub step : Event → Conn → Conn
step (opened s sends) c = on_open s sends c
step (closed s) c = on_close s c
step (fired id token opens) c = fire id token opens c

unfoldable pub run : List Event → Conn → Conn
run [] c = c
run (e ∷ es) c = run es (step e c)
