-- ===== src/Room/Fetched.antt =====
-- MessageList.tsx: the fetched messages stay those of the server, none twice.
use concordia_chat_app.Prelude.{
  ◌≡◌, inl, inr, Bool, true, false, not, ◌||◌, none, some, String, ◌==◌, reverse,
}
use concordia_chat_app.Prelude.Keyed.{
  IsUnique, IsApart, IsUnique-filter, IsUnique-append, IsUnique-reverse,
}
use concordia_chat_app.Prelude.Lists.{filter, any, All, All-append, All-filter}
use concordia_chat_app.Prelude.Tests.{eqb, if_both, Option-cases}
use concordia_chat_app.Http.{Reply, is_ok}
use concordia_chat_app.Chat.{id_of}
use concordia_chat_app.Timeline.{
  Timeline, MessagesResponse, fetch_messages, finish_load, finish_more, start_more, end_more,
  cursor, finish_delete, start_delete,
}

module _ (real : String → Bool) where
  -- A page of the service: no id twice, and each the server's.
  pub record IsPage (page : MessagesResponse) : Type 0 where
    pub unique : IsUnique id_of page.messages
    pub real_ids : All (λ m. real m.message_id ≡ true) (reverse page.messages)

  pub record Fetched (t : Timeline) : Type 0 where
    pub unique : IsUnique id_of t.messages
    pub real_ids : All (λ m. real m.message_id ≡ true) t.messages

  pub finish_load-Fetched :
      (reply : Reply MessagesResponse) (t : Timeline)
      → ((page : MessagesResponse) → fetch_messages reply ≡ some page → IsPage page)
      → Fetched t
      → Fetched (finish_load false reply t)
  unfolding finish_load
  finish_load-Fetched reply t h i = elim (Option-cases (fetch_messages reply)) [
    | inl e ↦ rw (e, finish_load) (record { unique = i.unique; real_ids = i.real_ids })
    | inr (page, e) ↦
        let is_page = h page e in
        rw (e, finish_load)
          (record {
            unique = IsUnique-reverse id_of page.messages is_page.unique;
            real_ids = is_page.real_ids;
          })
  ]

  finish_more-Fetched :
      (reply : Reply MessagesResponse) (t : Timeline)
      → ((page : MessagesResponse)
          → fetch_messages reply ≡ some page
          → IsPage page × IsApart id_of (reverse page.messages) t.messages)
      → Fetched t
      → Fetched (finish_more reply t)
  unfolding finish_more
  finish_more-Fetched reply t h i = elim (Option-cases (fetch_messages reply)) [
    | inl e ↦ rw (e, finish_more) (record { unique = i.unique; real_ids = i.real_ids })
    | inr (page, e) ↦
        let is_page = (h page e).0 in
        rw (e, finish_more)
          (record {
            unique =
                IsUnique-append id_of _ _ (IsUnique-reverse id_of page.messages is_page.unique)
                  i.unique ((h page e).1);
            real_ids = All-append _ (reverse page.messages) _ is_page.real_ids i.real_ids;
          })
  ]

  pub start_more-Fetched : (t : Timeline) → Fetched t → Fetched (start_more t)
  unfolding start_more
  start_more-Fetched t i = elim (Option-cases (cursor t)) [
    | inl e ↦ rw (e, start_more) i
    | inr (id, e) ↦ rw (e, start_more) (record { unique = i.unique; real_ids = i.real_ids })
  ]

  pub end_more-Fetched :
      (reply : Reply MessagesResponse) (t : Timeline)
      → ((page : MessagesResponse)
          → fetch_messages reply ≡ some page
          → IsPage page × IsApart id_of (reverse page.messages) t.messages)
      → Fetched t
      → Fetched (end_more reply t)
  unfolding end_more
  end_more-Fetched reply t h i = if_both Fetched t.loading_more (finish_more-Fetched reply t h i) i

  pub finish_delete-Fetched :
      (id : String) (reply : Reply (Unit {0})) (t : Timeline)
      → Fetched t
      → Fetched (finish_delete id reply t)
  unfolding finish_delete
  finish_delete-Fetched id none t i = record { unique = i.unique; real_ids = i.real_ids }
  finish_delete-Fetched id (some r) t i =
      if_both
        (λ l.
          Fetched
            (record t { messages = l; deleting_ids = filter (λ d. not (d == id)) t.deleting_ids }))
        (is_ok r || eqb r.status 204)
        (record {
          unique = IsUnique-filter id_of _ t.messages i.unique;
          real_ids = All-filter _ _ t.messages i.real_ids;
        })
        (record { unique = i.unique; real_ids = i.real_ids })

  pub start_delete-Fetched : (id : String) (t : Timeline) → Fetched t → Fetched (start_delete id t)
  unfolding start_delete
  start_delete-Fetched id t i =
      if_both Fetched (any (λ d. d == id) t.deleting_ids) i
        (record { unique = i.unique; real_ids = i.real_ids })
