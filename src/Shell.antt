-- ===== src/Shell.antt =====
-- apps/web-app/app/layout.tsx: the WebSocket that the shell of the application keeps for mentions,
-- and the notifications of the desktop application. A socket is closed in two turns: `close()`, and
-- later its close event. All sockets of the shell do the same, so the state counts them.
pub mod Slots
mod Tests
use Prim.Native.Char.{code}
use concordia_chat_app.Prelude.{
  ℕ, zero, suc, ◌+◌, Bool, true, false, not, ◌&&◌, ◌||◌, Option, none, some, List, [], ◌∷◌, ◌++◌,
  String, ◌==◌,
}
use concordia_chat_app.Prelude.Tests.{eqb, truthy, is_empty, or_else, if◌then◌else◌}
use concordia_chat_app.Prelude.Text.{◌&◌}

-- `pathname.replace(/\/$/, '')`
unfoldable pub strip_slash : String → String
strip_slash String.[] = String.[]
strip_slash (String.◌∷◌ c s) =
    let rest = strip_slash s in
    if is_empty s && eqb (code c) b'/' then String.[] else String.◌∷◌ c rest

unfoldable pub is_auth_page : Option String → Bool
unfolding strip_slash
is_auth_page pathname =
    let normalized : String = strip_slash (or_else pathname "") in
    normalized == "/login" || normalized == "/register"

-- A notification of the desktop application.
pub record Notification : Type 0 where
  pub title : String
  pub body : String
  pub channel_url : String

-- What `data.payload` may hold.
pub record Mention : Type 0 where
  pub channel_name : Option String
  pub content : Option String
  pub server_id : Option String
  pub channel_id : Option String

-- `v || d`
abbrev pub or_default : Option String → String → String
or_default v d = if truthy v then or_else v "" else d

-- `showNotification` of a mention.
unfoldable pub notification : Mention → Notification
notification m = record {
  title = "Mentioned in #" & or_default m.channel_name "channel";
  body = or_default m.content "You have a new mention.";
  channel_url =
      "/servers/"
      & or_default m.server_id "default"
      & "/channels/"
      & or_default m.channel_id "general";
}

-- The sockets that are not closed, the timers of `setTimeout(connectWs, 5000)`, whether `wsRef` holds
-- a socket, how often `close()` was called, the notifications shown, the
-- last first, and the address last assigned to `window.location.href`.
pub record Shell : Type 0 where
  pub mounted : Bool
  pub sockets : ℕ
  pub timers : ℕ
  pub has_ws : Bool
  pub close_calls : ℕ
  pub shown : List Notification
  pub location : Option String

-- `connectWs`; `opens` tells whether `new WebSocket` returns, or throws.
unfoldable pub connect : Bool → Shell → Shell
connect opens s = if opens then record s { sockets = suc s.sockets; has_ws = true } else s

-- Whether the effect gets past its guards.
unfoldable pub connects : Option String → Option String → Shell → Bool
unfolding is_auth_page
connects pathname token s = not (is_auth_page pathname) && s.mounted && truthy token

-- The effect, for the address and the stored token.
unfoldable pub enter : Option String → Option String → Bool → Shell → Shell
unfolding connect connects
enter pathname token opens s = if connects pathname token s then connect opens s else s

-- Its clean-up: `close()` of the socket that `wsRef` holds; its close event comes later.
unfoldable pub leave : Shell → Shell
leave s = if s.has_ws then record s { close_calls = suc s.close_calls } else s

-- `ws.onclose` of one of the sockets.
unfoldable pub on_close : Shell → Shell
on_close s = elim s.sockets [ zero ↦ s | suc n ↦ record s { sockets = n; timers = suc s.timers } ]

-- One of the timers runs out.
unfoldable pub fire : Bool → Shell → Shell
unfolding connect
fire opens s = elim s.timers [ zero ↦ s | suc n ↦ connect opens (record s { timers = n }) ]

-- `ws.onmessage`, for the type and the payload of the frame; `electron` is `window.electronAPI`.
unfoldable pub on_message : Bool → String → Mention → Shell → Shell
unfolding notification
on_message electron type m s =
    if type == "mention" && electron then record s { shown = notification m ∷ s.shown } else s

-- The callback of `onNavigateToChannel`: `window.location.href = url` loads the document anew, with
-- no sockets and no timers, and a shell that is not mounted yet. What was shown and how often a
-- socket was closed are records of the past.
unfoldable pub on_navigate : String → Shell → Shell
on_navigate url s = record s {
  mounted = false;
  sockets = 0;
  timers = 0;
  has_ws = false;
  location = some url;
}

pub data Event : Type 0 where
  mounted : Event
  entered : Option String → Option String → Bool → Event
  left : Event
  closed : Event
  fired : Bool → Event
  framed : Bool → String → Mention → Event
  navigated : String → Event

unfoldable pub step : Event → Shell → Shell
step mounted s = record s { mounted = true }
step (entered pathname token opens) s = enter pathname token opens s
step left s = leave s
step closed s = on_close s
step (fired opens) s = fire opens s
step (framed electron type m) s = on_message electron type m s
step (navigated url) s = on_navigate url s

unfoldable pub run : List Event → Shell → Shell
run [] s = s
run (e ∷ es) s = run es (step e s)
