-- ===== src/Timeline.antt =====
-- apps/web-app/app/components/MessageList.tsx: the fetched part of a channel's messages, oldest
-- first; its pages, its merge with the extra messages, deletion, grouping and scrolling.
-- A request ends a step; its reply is an argument of the next one.
pub mod Merge
pub mod Scroll
pub mod Pages
pub mod Deletion
pub mod Board
mod Tests
use concordia_chat_app.Prelude.{
  ℕ, ◌+◌, ◌*◌, ◌<◌, Bool, true, false, not, ◌&&◌, ◌||◌, Option, none, some, List, [], ◌∷◌, ◌++◌,
  String, ◌==◌, reverse,
}
use concordia_chat_app.Prelude.Keyed.{has, without}
use concordia_chat_app.Prelude.Lists.{filter, any}
use concordia_chat_app.Prelude.Tests.{eqb, ltb, is_empty, if◌then◌else◌}
use concordia_chat_app.Http.{Response, Reply, is_ok}
use concordia_chat_app.Chat.{Message, id_of}

pub record MessagesResponse : Type 0 where
  pub messages : List Message
  pub next_cursor : Option String
  pub has_more : Bool

pub record Timeline : Type 0 where
  pub messages : List Message
  pub has_more : Bool
  pub loading : Bool
  pub loading_more : Bool
  pub deleting_ids : List String

-- What `fetchMessages` resolves to; `none` is a throw.
unfoldable pub fetch_messages : Reply MessagesResponse → Option MessagesResponse
fetch_messages none = none
fetch_messages (some r) = if is_ok r then r.json else none

-- The initial load, up to the request.
unfoldable pub start_load : Timeline → Timeline
start_load s = record s { loading = true; messages = []; has_more = false }

-- The initial load from the reply on; `cancelled` is set when the channel has changed meanwhile.
unfoldable pub finish_load : Bool → Reply MessagesResponse → Timeline → Timeline
unfolding fetch_messages
finish_load true r s = s
finish_load false r s = elim (fetch_messages r) [
  | none ↦ record s { loading = false }
  | some page ↦ record s {
    messages = reverse page.messages;
    has_more = page.has_more;
    loading = false;
  }
]

-- `allMessages`
unfoldable pub all_messages : List Message → List Message → List Message
all_messages messages extras =
    messages ++ filter (λ m. not (has id_of m.message_id messages)) extras

-- The id of the oldest message, where it is truthy.
unfoldable pub oldest : List Message → Option String
oldest [] = none
oldest (m ∷ ms) = if is_empty m.message_id then none else some m.message_id

-- The observer's callback when the sentinel comes into view: the page to ask for, if any.
unfoldable pub cursor : Timeline → Option String
unfolding oldest
cursor s = if not s.has_more || s.loading_more || s.loading then none else oldest s.messages

-- The callback up to its request for an older page, if it makes one.
unfoldable pub start_more : Timeline → Timeline
unfolding cursor
start_more s = elim (cursor s) [ none ↦ s | some id ↦ record s { loading_more = true } ]

-- The callback from the reply on.
unfoldable pub finish_more : Reply MessagesResponse → Timeline → Timeline
unfolding fetch_messages
finish_more r s = elim (fetch_messages r) [
  | none ↦ record s { loading_more = false }
  | some page ↦ record s {
    messages = reverse page.messages ++ s.messages;
    has_more = page.has_more;
    loading_more = false;
  }
]

-- The reply to the request for an older page that is under way: there is one exactly while
-- `loadingMore` is set, which a new request waits for.
unfoldable pub end_more : Reply MessagesResponse → Timeline → Timeline
unfolding finish_more
end_more r s = if s.loading_more then finish_more r s else s

-- `handleDelete` up to the request; `deletingIds` is a set.
unfoldable pub start_delete : String → Timeline → Timeline
start_delete id s =
    if any (λ d. d == id) s.deleting_ids
    then s
    else record s { deleting_ids = s.deleting_ids ++ id ∷ [] }

-- `handleDelete` from the reply on, the `finally` block included.
unfoldable pub finish_delete : String → Reply (Unit {0}) → Timeline → Timeline
finish_delete id r s = record s {
  messages = elim r [
    | none ↦ s.messages
    | some res ↦ if is_ok res || eqb res.status 204 then without id_of id s.messages else s.messages
  ];
  deleting_ids = filter (λ d. not (d == id)) s.deleting_ids;
}

-- `grouped`: the same author within five minutes; `time_of` is `new Date(iso).getTime()`, with
-- `none` for NaN.
unfoldable pub grouped : (String → Option ℕ) → Option Message → Message → Bool
grouped time_of none msg = false
grouped time_of (some prev) msg =
    prev.author_id == msg.author_id && (elim (time_of msg.created_at) [
      | none ↦ false
      | some t ↦ elim (time_of prev.created_at) [
        | none ↦ false
        | some u ↦ ltb t (u + 5 * 60 * 1000)
      ]
    ])

-- The rows of the list: each message with its `grouped` flag.
unfoldable pub rows : (String → Option ℕ) → Option Message → List Message → List (Message × Bool)
rows time_of prev [] = []
rows time_of prev (m ∷ ms) = (m, grouped time_of prev m) ∷ rows time_of (some m) ms
