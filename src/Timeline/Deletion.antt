-- ===== src/Timeline/Deletion.antt =====
-- MessageList.tsx, `handleDelete`: what a deletion takes away, and what it leaves on the screen.
use concordia_chat_app.Prelude.{
  ◌≡◌, refl, not, ◌||◌, some, List, [], ◌∷◌, String, arith, ◌==◌, true, false,
}
use concordia_chat_app.Prelude.Keyed.{has, without, has-append, has-without}
use concordia_chat_app.Prelude.Lists.{filter, any}
use concordia_chat_app.Prelude.Tests.{if◌then◌else◌}
use concordia_chat_app.Http.{Response, is_ok}
use concordia_chat_app.Chat.{Message, id_of}
use concordia_chat_app.Timeline.{Timeline, all_messages, finish_delete}
use concordia_chat_app.Timeline.Merge.{has-absent}

any-filter_self :
    (id : String) (ds : List String) → any (λ d. d == id) (filter (λ d. not (d == id)) ds) ≡ false
unfolding filter
any-filter_self id [] = refl
any-filter_self id (d ∷ ds) = ground (arith, any-filter_self id ds)

has-all_messages :
    (ms es : List Message) (k : String)
    → has id_of k (all_messages ms es) ≡ (has id_of k ms || has id_of k es)
unfolding all_messages
has-all_messages ms es k = ground (
  arith,
  has-append id_of k ms (filter (λ m. not (has id_of m.message_id ms)) es),
  has-absent ms es k,
)

-- After a good reply to the deletion of the message `id`, the list shows it no more, unless it is
-- one of the extra messages: then it stays. Any other message `k` is shown exactly if it was
-- before, and `id` is no longer marked as being deleted.
pub finish_delete_shown :
    (id : String) (r : Response (Unit {0})) (s : Timeline) (extras : List Message) (k : String)
    → is_ok r ≡ true
    → let after = finish_delete id (some r) s in
      (has id_of k (all_messages after.messages extras)
        ≡ (if k == id then has id_of k extras else has id_of k (all_messages s.messages extras)))
      × (any (λ d. d == id) after.deleting_ids ≡ false)
unfolding finish_delete
finish_delete_shown id r s extras k good = rw good (
  ground (
    arith,
    has-all_messages (without id_of id s.messages) extras k,
    has-all_messages s.messages extras k,
    has-without id_of k id s.messages,
  ),
  any-filter_self id s.deleting_ids,
)
