-- ===== src/Timeline/Merge.antt =====
-- MessageList.tsx, `allMessages`: the merge of the fetched messages and the extra ones.
use concordia_chat_app.Prelude.{
  ◌≡◌, refl, not, ◌||◌, ◌&&◌, ap, eq_refl, List, [], ◌∷◌, ◌++◌, String, arith, ◌==◌, eq_iff, true,
  inl, inr,
}
use concordia_chat_app.Prelude.Keyed.{
  has, IsUnique, IsApart, has-append, IsUnique-filter, IsUnique-append,
}
use concordia_chat_app.Prelude.Lists.{filter}
use concordia_chat_app.Prelude.Tests.{Bool-cases}
use concordia_chat_app.Chat.{Message, id_of}
use concordia_chat_app.Timeline.{all_messages}

-- What the filter keeps of the extras.
pub has-absent :
    (ms es : List Message) (k : String)
    → has id_of k (filter (λ m. not (has id_of m.message_id ms)) es)
      ≡ (has id_of k es && not (has id_of k ms))
unfolding filter
has-absent ms [] k = refl
has-absent ms (e ∷ es) k = elim (Bool-cases (e.message_id == k)) [
  | inl same ↦
      let agree : has id_of e.message_id ms ≡ has id_of k ms =
        ap (λ j. has id_of j ms) ((eq_iff e.message_id k).0 same) in
      ground (arith, has-absent ms es k)
  | inr other ↦ ground (arith, has-absent ms es k)
]

IsApart-absent :
    (xs ms es : List Message)
    → ((k : String) → has id_of k xs ≡ true → has id_of k ms ≡ true)
    → IsApart id_of xs (filter (λ m. not (has id_of m.message_id ms)) es)
IsApart-absent [] ms es sub = tt
IsApart-absent (x ∷ xs) ms es sub = (
  ground (arith, has-absent ms es x.message_id, sub x.message_id, eq_refl x.message_id),
  IsApart-absent xs ms es (λ k h. sub k (ground arith)),
)

-- Of fetched messages and extra ones, each without a repeated id, the list shows an id `k` exactly
-- if it is one of either, no id twice, and the fetched messages first and in their order.
pub all_messages_lem :
    (ms es : List Message) (k : String)
    → IsUnique id_of ms
    → IsUnique id_of es
    → IsUnique id_of (all_messages ms es)
      × (has id_of k (all_messages ms es) ≡ (has id_of k ms || has id_of k es))
      × ((more : List Message) × (all_messages ms es ≡ ms ++ more))
unfolding all_messages
all_messages_lem ms es k u v =
    let kept : List Message = filter (λ m. not (has id_of m.message_id ms)) es in
    (
      IsUnique-append id_of ms kept u (IsUnique-filter id_of _ es v)
          (IsApart-absent ms ms es (λ k h. h)),
      ground (arith, has-append id_of k ms kept, has-absent ms es k),
      (kept, refl),
    )
