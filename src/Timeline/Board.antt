-- ===== src/Timeline/Board.antt =====
-- MessageList.tsx: what the list draws, the buttons of its rows, and what they start: deletions, the
-- tip dialogue and its toast. A button can be clicked only where a row has it.
pub mod Acts
use concordia_chat_app.Prelude.{
  ℕ, zero, suc, Bool, true, false, not, ◌&&◌, Option, none, some, List, [], ◌∷◌, ◌++◌, map, String,
  ◌==◌,
}
use concordia_chat_app.Prelude.Lists.{any, get_elem?}
use concordia_chat_app.Prelude.Tests.{is_some, or_else, if◌then◌else◌}
use concordia_chat_app.Prelude.Text.{slice}
use concordia_chat_app.Http.{Reply}
use concordia_chat_app.Chat.{Message}
use concordia_chat_app.Timeline
use concordia_chat_app.Timeline.{Timeline, MessagesResponse, all_messages}

-- The properties that the channel view gives the list.
pub record Props : Type 0 where
  pub current_user_id : Option String
  pub extra_messages : List Message

pub record Recipient : Type 0 where
  pub id : String
  pub name : String

-- A request to delete, or the dialogue for a tip, with the user at that time.
pub data Act : Type 0 where
  deletion : Option String → Message → Act
  tip : Option String → Message → Act

-- The state of the list; `deletes` has the ids of the DELETE requests under way, and `acts` what
-- the buttons have started, the latest first.
pub record Board : Type 0 where
  pub timeline : Timeline
  pub tipping_user : Option Recipient
  pub tip_toast : Option String
  pub deletes : List String
  pub acts : List Act

unfoldable pub display_name : Message → String
unfolding slice
display_name m = or_else m.username (slice 8 m.author_id)

-- `isOwn`
unfoldable pub is_own : Option String → Message → Bool
is_own none m = false
is_own (some user) m = user == m.author_id

pub record Row : Type 0 where
  pub message : Message
  pub grouped : Bool
  pub is_own : Bool
  pub is_deleting : Bool

unfoldable pub row : Props → List String → Message × Bool → Row
unfolding is_own
row props deleting (m, g) = record {
  message = m;
  grouped = g;
  is_own = is_own props.current_user_id m;
  is_deleting = any (λ d. d == m.message_id) deleting;
}

-- What the list draws: a spinner alone, or the rows or the text for a channel without messages,
-- under a spinner where an older page is on its way.
pub record Screen : Type 0 where
  pub spinner : Bool
  pub more_spinner : Bool
  pub beginning : Bool
  pub rows : List Row

-- A click on the bin of a row: `handleDelete` up to the request.
unfoldable pub delete_row : Props → Row → Board → Board
unfolding Timeline.start_delete
delete_row props r s =
    if r.is_own && not r.is_deleting
    then record s {
      timeline = Timeline.start_delete r.message.message_id s.timeline;
      deletes = s.deletes ++ r.message.message_id ∷ [];
      acts = deletion props.current_user_id r.message ∷ s.acts;
    }
    else s

-- A click on the other button of a row.
unfoldable pub tip_row : Props → Row → Board → Board
unfolding display_name
tip_row props r s =
    if not r.is_own
    then record s {
      tipping_user = some (record { id = r.message.author_id; name = display_name r.message });
      acts = tip props.current_user_id r.message ∷ s.acts;
    }
    else s

-- One request for the id is over.
unfoldable pub remove_first : String → List String → List String
remove_first id [] = []
remove_first id (d ∷ ds) = let rest = remove_first id ds in if d == id then ds else d ∷ rest

-- `handleDelete` from the reply on, where a request is under way.
unfoldable pub end_delete : String → Reply (Unit {0}) → Board → Board
unfolding remove_first Timeline.finish_delete
end_delete id r s =
    if any (λ d. d == id) s.deletes
    then record s {
      timeline = Timeline.finish_delete id r s.timeline;
      deletes = remove_first id s.deletes;
    }
    else s

-- The events; the rows are counted from the top.
pub data Event : Type 0 where
  delete_clicked : ℕ → Event
  deleted : String → Reply (Unit {0}) → Event
  tip_clicked : ℕ → Event
  tip_closed : Event
  tip_succeeded : String → Event
  toast_over : Event
  moved : Event
  opened : Bool → Reply MessagesResponse → Event
  scrolled : Event
  older : Reply MessagesResponse → Event

module _ (time_of : String → Option ℕ) where
  unfoldable pub screen : Props → Board → Screen
  unfolding row Timeline.rows Timeline.grouped all_messages
  screen props s =
      let all = all_messages s.timeline.messages props.extra_messages in
      if s.timeline.loading
      then record { spinner = true; more_spinner = false; beginning = false; rows = [] }
      else record {
        spinner = false;
        more_spinner = s.timeline.loading_more;
        beginning = elim all [ [] ↦ true | m ∷ ms ↦ false ];
        rows = map (row props s.timeline.deleting_ids) (Timeline.rows time_of none all);
      }

  unfoldable pub on_row : (Props → Row → Board → Board) → ℕ → Props → Board → Board
  unfolding screen get_elem?
  on_row act i props s = elim (get_elem? (screen props s).rows i) [
    | none ↦ s
    | some r ↦ act props r s
  ]

  unfoldable pub step : Props → Event → Board → Board
  unfolding on_row delete_row tip_row end_delete Timeline.start_load Timeline.finish_load
      Timeline.start_more Timeline.end_more
  step props (delete_clicked i) s = on_row delete_row i props s
  step props (deleted id r) s = end_delete id r s
  step props (tip_clicked i) s = on_row tip_row i props s
  step props tip_closed s = record s { tipping_user = none }
  step props (tip_succeeded text) s =
      if is_some s.tipping_user then record s { tipping_user = none; tip_toast = some text } else s
  step props toast_over s = record s { tip_toast = none }
  step props moved s = record s { timeline = Timeline.start_load s.timeline }
  step props (opened cancelled r) s = record s {
    timeline = Timeline.finish_load cancelled r s.timeline;
  }
  step props scrolled s = record s { timeline = Timeline.start_more s.timeline }
  step props (older r) s = record s { timeline = Timeline.end_more r s.timeline }

  -- A run, with the properties of the list at each event.
  unfoldable pub run : List (Props × Event) → Board → Board
  unfolding step
  run [] s = s
  run ((props, e) ∷ es) s = run es (step props e s)
