-- ===== src/Chat/Delivery.antt =====
-- ChannelView.tsx: the ids of the messages of a channel, over any run of events.
use concordia_chat_app.Prelude.{
  ℕ, ◌≡◌, refl, inl, inr, Bool, true, false, ◌||◌, Option, none, some, List, [], ◌∷◌, ◌++◌, String,
  arith, eq_iff, eq_refl, ◌==◌,
}
use concordia_chat_app.Prelude.Keyed.{
  has, without, replace, IsUnique, has-append, has-without, IsUnique-filter, IsUnique-concat,
  IsUnique-replace,
}
use concordia_chat_app.Prelude.Lists.{filter, All, All-append}
use concordia_chat_app.Prelude.Tests.{eqb, if_both, Bool-cases, Option-cases}
use concordia_chat_app.Http.{Reply, is_ok}
use concordia_chat_app.Chat.{
  Message, View, Channel, CurrentUser, Event, frame, submit, reply, move, info, Sending, Frame,
  id_of, temp_of, append_new, on_message, send, optimistic, temp_id_at, confirm, settle_messages,
  settle, navigate, load, step, run,
}

-- `real` tells the ids that the server issues from those of the placeholders.
module _ (real : String → Bool) where
  abbrev pub IsRealFrame : Option Frame → Type 0
  IsRealFrame none = Unit
  IsRealFrame (some f) = (m : Message) → f.payload ≡ some m → real m.message_id ≡ true

  abbrev pub IsRealReply : Reply Message → Type 0
  IsRealReply none = Unit
  IsRealReply (some r) = (m : Message) → r.json ≡ some m → real m.message_id ≡ true

  -- What an event may bring: ids from the server are real, and a new placeholder's id is not and is
  -- not in use.
  abbrev pub Fits : Event → View → Type 0
  Fits (frame ch f) v = IsRealFrame f
  Fits (submit content now iso) v =
      (real (temp_id_at now) ≡ false) × (has temp_of (temp_id_at now) v.sending ≡ false)
  Fits (reply p r) v = IsRealReply r
  Fits (move ch) v = Unit
  Fits (info ch c u) v = Unit

  abbrev pub FitsAll : List Event → View → Type 0
  FitsAll [] v = Unit
  FitsAll (e ∷ es) v = Fits e v × FitsAll es (step e v)

  -- An entry is the server's, or the placeholder of a POST under way.
  abbrev pub IsAccounted : List Sending → Message → Type 0
  IsAccounted ps m = (real m.message_id || has temp_of m.message_id ps) ≡ true

  pub record Inv (v : View) : Type 0 where
    pub unique : IsUnique id_of v.extra_messages
    pub accounted : All (IsAccounted v.sending) v.extra_messages

  fresh :
      (k : String) (ps : List Sending) (xs : List Message)
      → real k ≡ false
      → has temp_of k ps ≡ false
      → All (IsAccounted ps) xs
      → has id_of k xs ≡ false
  fresh k ps [] r h a = refl
  fresh k ps (m ∷ xs) r h a = elim (Bool-cases (m.message_id == k)) [
    | inl e ↦
        let same : m.message_id ≡ k = (eq_iff m.message_id k).0 e in
        let bad : (real k || has temp_of k ps) ≡ true = rw same at (a.0) in ground arith
    | inr e ↦ ground (arith, fresh k ps xs r h a.1)
  ]

  IsAccounted-concat :
      (p : Sending) (ps : List Sending) (xs : List Message)
      → All (IsAccounted ps) xs
      → All (IsAccounted (ps ++ p ∷ [])) xs
  IsAccounted-concat p ps [] a = tt
  IsAccounted-concat p ps (m ∷ xs) a =
      (ground (arith, has-append temp_of m.message_id ps (p ∷ [])), IsAccounted-concat p ps xs a.1)

  IsAccounted-without :
      (k : String) (ps : List Sending) (xs : List Message)
      → All (IsAccounted ps) xs
      → All (IsAccounted (without temp_of k ps)) (without id_of k xs)
  unfolding filter
  IsAccounted-without k ps [] a = tt
  IsAccounted-without k ps (m ∷ xs) a =
      ground (arith, has-without temp_of m.message_id k ps, IsAccounted-without k ps xs a.1)

  IsAccounted-replace :
      (k : String) (y : Message) (ps : List Sending) (xs : List Message)
      → real y.message_id ≡ true
      → All (IsAccounted ps) xs
      → All (IsAccounted (without temp_of k ps)) (replace id_of k y xs)
  IsAccounted-replace k y ps [] r a = tt
  IsAccounted-replace k y ps (m ∷ xs) r a = (
    ground (arith, has-without temp_of m.message_id k ps, eq_iff m.message_id k),
    IsAccounted-replace k y ps xs r a.1,
  )

  append_new-Inv :
      (m : Message) (v : View)
      → real m.message_id ≡ true
      → Inv v
      → Inv (record v { extra_messages = append_new m v.extra_messages })
  unfolding append_new
  append_new-Inv m v r i = elim (Bool-cases (has id_of m.message_id v.extra_messages)) [
    | inl e ↦ rw e i
    | inr e ↦ rw e (record {
      unique = IsUnique-concat id_of v.extra_messages m i.unique e;
      accounted = All-append _ v.extra_messages _ i.accounted (rw r, tt);
    })
  ]

  pub on_message-Inv :
      (ch : String) (f : Option Frame) (v : View) → IsRealFrame f → Inv v → Inv (on_message ch f v)
  unfolding on_message
  on_message-Inv ch none v r i = i
  on_message-Inv ch (some f) v r i = elim (Option-cases f.payload) [
    | inl e ↦ rw (e, on_message) (if_both Inv (f.type == "new_message") i i)
    | inr (m, e) ↦
        rw (e, on_message)
          (if_both Inv (f.type == "new_message")
            (if_both Inv (m.channel_id == ch) (append_new-Inv m v (r m e) i) i) i)
  ]

  pub send-Inv :
      (content : String) (now : ℕ) (iso : String) (v : View)
      → Fits (submit content now iso) v
      → Inv v
      → Inv (send content now iso v)
  unfolding send optimistic
  send-Inv content now iso v f i = elim (Option-cases v.current_user) [
    | inl e ↦ rw (e, send) i
    | inr (u, e) ↦
        rw (e, send)
          (record {
            unique = IsUnique-concat id_of _ _ i.unique (fresh _ _ _ f.0 f.1 i.accounted);
            accounted = All-append _ v.extra_messages _ (IsAccounted-concat _ _ _ i.accounted) (
              ground (
                arith,
                has-append temp_of (temp_id_at now) v.sending
                    (record { temp_id = temp_id_at now; user = u } ∷ []),
                eq_refl (temp_id_at now),
              ),
              tt,
            );
          })
  ]

  discard-Inv :
      (p : Sending) (v : View)
      → Inv v
      → Inv (record v {
        extra_messages = without id_of p.temp_id v.extra_messages;
        sending = without temp_of p.temp_id v.sending;
      })
  discard-Inv p v i = record {
    unique = IsUnique-filter id_of _ _ i.unique;
    accounted = IsAccounted-without _ _ _ i.accounted;
  }

  confirm-Inv :
      (p : Sending) (m : Message) (v : View)
      → real m.message_id ≡ true
      → Inv v
      → Inv (record v {
        extra_messages = confirm p m v.extra_messages;
        sending = without temp_of p.temp_id v.sending;
      })
  unfolding confirm
  confirm-Inv p m v r i = elim (Bool-cases (has id_of m.message_id v.extra_messages)) [
    | inl e ↦ rw e (discard-Inv p v i)
    | inr e ↦ rw e (record {
      unique = IsUnique-replace id_of _ _ _ i.unique e;
      accounted = IsAccounted-replace _ _ _ _ r i.accounted;
    })
  ]

  pub settle-Inv :
      (p : Sending) (r : Reply Message) (v : View) → IsRealReply r → Inv v → Inv (settle p r v)
  unfolding settle settle_messages
  settle-Inv p none v f i = discard-Inv p v i
  settle-Inv p (some r) v f i = elim (Option-cases r.json) [
    | inl e ↦ rw e (
        if_both
          (λ l.
            Inv (record v { extra_messages = l; sending = without temp_of p.temp_id v.sending }))
          (is_ok r || eqb r.status 201) (discard-Inv p v i) (discard-Inv p v i))
    | inr (m, e) ↦ rw e (
        if_both
          (λ l.
            Inv (record v { extra_messages = l; sending = without temp_of p.temp_id v.sending }))
          (is_ok r || eqb r.status 201) (confirm-Inv p m v (f m e) i) (discard-Inv p v i))
  ]

  pub load-Inv :
      (ch : String) (c : Reply (List Channel)) (u : Reply CurrentUser) (v : View)
      → Inv v
      → Inv (load ch c u v)
  unfolding load
  load-Inv ch none u v i = i
  load-Inv ch (some c) none v i = i
  load-Inv ch (some c) (some u) v i = record {
    unique = ground (arith, i.unique);
    accounted = ground (arith, i.accounted);
  }

  step-Inv : (e : Event) (v : View) → Fits e v → Inv v → Inv (step e v)
  unfolding step navigate
  step-Inv (frame ch f) v h i = on_message-Inv ch f v h i
  step-Inv (submit content now iso) v h i = send-Inv content now iso v h i
  step-Inv (reply p r) v h i = settle-Inv p r v h i
  step-Inv (move ch) v h i = record { unique = tt; accounted = tt }
  step-Inv (info ch c u) v h i = load-Inv ch c u v i

  run-Inv : (es : List Event) (v : View) → FitsAll es v → Inv v → Inv (run es v)
  unfolding run
  run-Inv [] v h i = i
  run-Inv (e ∷ es) v h i = run-Inv es (step e v) h.1 (step-Inv e v h.0 i)

  pub start : (v : View) → v.extra_messages ≡ [] → Inv v
  start v e = record { unique = rw e tt; accounted = rw e tt }

  -- Whatever frames, sends, replies and moves come, in whatever order, no two messages of the view
  -- have one id. The view starts with no extra message, the ids that the server issues (`real`) are
  -- not those of placeholders, and no two POSTs under way have one placeholder id.
  pub run-IsUnique :
      (es : List Event) (v : View)
      → v.extra_messages ≡ []
      → FitsAll es v
      → IsUnique id_of (run es v).extra_messages
  run-IsUnique es v e f = (run-Inv es v f (start v e)).unique

  pub All-real :
      (xs : List Message) → All (IsAccounted []) xs → All (λ m. real m.message_id ≡ true) xs
  All-real [] a = tt
  All-real (m ∷ xs) a = (ground (arith, a.0), All-real xs a.1)

  -- After any events, in any order, once no POST is under way, every message shown bears an id of
  -- the server's: no placeholder outlives its POST. The view starts with no extra message, the ids
  -- that the server issues (`real`) are not those of placeholders, and no two POSTs under way have
  -- one placeholder id.
  pub run_settled :
      (es : List Event) (v : View)
      → v.extra_messages ≡ []
      → FitsAll es v
      → (run es v).sending ≡ []
      → All (λ m. real m.message_id ≡ true) (run es v).extra_messages
  run_settled es v e f done =
      All-real (run es v).extra_messages (rw done at (run-Inv es v f (start v e)).accounted)
