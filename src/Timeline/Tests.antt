-- ===== src/Timeline/Tests.antt =====
-- MessageList.tsx: its theorems at concrete messages.
use concordia_chat_app.Prelude.{
  reverse, ◌&&◌, zero, suc, ℕ, Bool, ◌≡◌, refl, true, false, not, none, some, List, [], ◌∷◌, ◌++◌,
  String, ◌==◌, arith,
}
use concordia_chat_app.Prelude.Keyed.{has, IsUnique}
use concordia_chat_app.Prelude.Lists.{every, All, any, filter, length}
use concordia_chat_app.Prelude.Tests.{is_empty}
use concordia_chat_app.Http.{Response, Reply}
use concordia_chat_app.Chat.{Message, id_of}
use concordia_chat_app.Timeline.{
  cursor, MessagesResponse, Timeline, fetch_messages, start_load, finish_load, all_messages,
  finish_delete,
}
use concordia_chat_app.Timeline.Pages.{null, Answers, AnswersAll, scroll, load_and_scroll}
use concordia_chat_app.Timeline.Merge.{all_messages_lem}
use concordia_chat_app.Timeline.Deletion.{finish_delete_shown}
use concordia_chat_app.Timeline.Scroll.{Scroll}
use concordia_chat_app.Timeline.Board.{
  Props, Board, Event, delete_clicked, deleted, tip_clicked, run,
}
use concordia_chat_app.Timeline.Board.Acts.{last_tip, IsFor, IsAllowed, same, run_acts}
use concordia_chat_app.Prelude.Text.{decimal}

abbrev text_of : String → Message
text_of id = record {
  message_id = id;
  channel_id = "c1";
  author_id = "u1";
  content = "hi";
  created_at = "t";
  username = none;
}

abbrev history : List Message
history = text_of "a" ∷ text_of "b" ∷ []

abbrev empty : Timeline
empty = record {
  messages = [];
  has_more = false;
  loading = true;
  loading_more = false;
  deleting_ids = [];
}

abbrev page_of : List Message → Bool → Reply MessagesResponse
page_of messages has_more = some (record {
  status = 200;
  json = some (record { messages = messages; next_cursor = none; has_more = has_more });
})

-- A history of one message more than a page holds, oldest first.
abbrev texts : ℕ → List Message
texts zero = []
texts (suc n) = text_of (decimal n) ∷ texts n

abbrev first_page : Reply MessagesResponse
first_page = page_of (reverse (texts 50)) true

abbrev second_page : Reply MessagesResponse
second_page = page_of (text_of (decimal 50) ∷ []) false

first-Answers : Answers (texts 51) first_page
unfolding fetch_messages
first-Answers = record {
  page = record { messages = reverse (texts 50); next_cursor = none; has_more = true };
  fetched = refl;
  is_page = record { rest = text_of (decimal 50) ∷ []; split = refl; size = refl; more = refl };
}

second-AnswersAll :
    AnswersAll (second_page ∷ []) (texts 51) (finish_load false first_page (start_load empty))
unfolding finish_load fetch_messages decimal cursor start_load
second-AnswersAll = (
  record {
    older = text_of (decimal 50) ∷ [];
    point = text_of (decimal 49);
    later = texts 49;
    split = refl;
    named = refl;
    answers = record {
      page = record { messages = text_of (decimal 50) ∷ []; next_cursor = none; has_more = false };
      fetched = refl;
      is_page = record { rest = []; split = refl; size = refl; more = refl };
    };
  },
  tt,
)

abbrev is_unique : List Message → Bool
is_unique [] = true
is_unique (m ∷ ms) = not (has id_of m.message_id ms) && is_unique ms

is_unique-IsUnique : (ms : List Message) → is_unique ms ≡ true → IsUnique id_of ms
is_unique-IsUnique [] h = tt
is_unique-IsUnique (m ∷ ms) h = (ground (arith, h), is_unique-IsUnique ms (ground (arith, h)))

named-All :
    (ms : List Message)
    → every (λ m. not (is_empty m.message_id)) ms ≡ true
    → All (λ m. is_empty m.message_id ≡ false) ms
named-All [] h = tt
named-All (m ∷ ms) h = (ground (arith, h), named-All ms (ground (arith, h)))

texts-named : All (λ m. is_empty m.message_id ≡ false) (texts 51)
unfolding decimal
texts-named = named-All (texts 51) refl

texts-IsUnique : IsUnique id_of (texts 51)
unfolding decimal
texts-IsUnique = is_unique-IsUnique (texts 51) refl

load_and_scroll_example :
    let t = scroll (second_page ∷ []) (finish_load false first_page (start_load empty)) in
    (length t.messages ≡ 51)
    × ((rest : List Message) × (rest ++ t.messages ≡ texts 51) × (t.has_more ≡ not (null rest)))
load_and_scroll_example =
    load_and_scroll (texts 51) first_page (second_page ∷ []) empty texts-named texts-IsUnique refl
      first-Answers second-AnswersAll

all_messages_lem_example :
    IsUnique id_of (all_messages history (text_of "b" ∷ []))
    × (has id_of "b" (all_messages history (text_of "b" ∷ [])) ≡ true)
    × ((more : List Message) × (all_messages history (text_of "b" ∷ []) ≡ history ++ more))
all_messages_lem_example =
    all_messages_lem history (text_of "b" ∷ []) "b" (refl, (refl, tt)) (refl, tt)

abbrev gone : Response (Unit {0})
gone = record { status = 204; json = none }

abbrev deleting : Timeline
deleting = record empty { messages = history; deleting_ids = "a" ∷ [] }

-- The message "a" is deleted, and is among the extra messages too: it is still shown.
finish_delete_shown_example :
    let after = finish_delete "a" (some gone) deleting in
    (has id_of "a" (all_messages after.messages (text_of "a" ∷ [])) ≡ true)
    × (any (λ d. d == "a") after.deleting_ids ≡ false)
finish_delete_shown_example = finish_delete_shown "a" gone deleting (text_of "a" ∷ []) "a" refl

abbrev grown : Scroll
grown = record {
  scroll_height = 3000;
  scroll_top = 20;
  client_height = 600;
  initial_scrolled = true;
  prev_extra_len = 0;
}

abbrev board : Board
board = record {
  timeline = record {
    messages = history;
    has_more = false;
    loading = false;
    loading_more = false;
    deleting_ids = [];
  };
  tipping_user = none;
  tip_toast = none;
  deletes = [];
  acts = [];
}

abbrev props : Props
props = record {
  current_user_id = some "u1";
  extra_messages = record (text_of "c") { author_id = "u2" } ∷ [];
}

-- Two clicks on one bin, a click on another, a tip, and a reply.
abbrev clicks : List (Props × Event)
clicks =
    (props, delete_clicked 0)
    ∷ (props, delete_clicked 0)
    ∷ (props, delete_clicked 1)
    ∷ (props, tip_clicked 2)
    ∷ (props, deleted "a" (some (record { status = 204; json = none })))
    ∷ []

clicks_start : (run (λ iso. none) clicks board).deletes ≡ "b" ∷ []
unfolding run filter
clicks_start = refl

run_acts_example :
    let t = run (λ iso. none) clicks board in
    All IsAllowed t.acts
    × IsFor (last_tip t.acts) t.tipping_user
    × IsUnique same t.deletes
    × (t.deletes ≡ t.timeline.deleting_ids)
run_acts_example = run_acts (λ iso. none) clicks board refl refl refl refl
