-- ===== src/Chat/Order.antt =====
-- ChannelView.tsx: the race between the reply to a POST and the echo of the message over the
-- WebSocket, and what a failed or a late reply does.
use concordia_chat_app.Prelude.{
  ℕ, ◌≡◌, refl, ◌⊎◌, inl, inr, true, false, none, some, List, [], ◌∷◌, ◌++◌, String, arith, eq_iff,
  eq_refl, ◌||◌, ◌≢◌,
}
use concordia_chat_app.Prelude.Keyed.{
  has, without, replace, has-append, without-fresh, without-append, replace-fresh,
}
use concordia_chat_app.Prelude.Lists.{filter}
use concordia_chat_app.Prelude.Tests.{eqb, if_both, Option-cases, ==-false}
use concordia_chat_app.Http.{Response, Reply, is_ok}
use concordia_chat_app.Chat.{
  Message, View, CurrentUser, Sending, Frame, id_of, temp_of, append_new, on_message, send,
  optimistic, temp_id_at, confirm, settle_messages, settle,
}

-- A reply that confirms the message `m`.
abbrev pub Confirms : Response Message → Message → Type 0
Confirms r m = (is_ok r ≡ true) × (r.json ≡ some m)

-- A reply that does not confirm any: no answer, an error status, or a body that is no JSON.
abbrev pub IsFailure : Reply Message → Type 0
IsFailure none = Unit
IsFailure (some r) = (r.json ≡ none) ⊎ ((is_ok r || eqb r.status 201) ≡ false)

abbrev pub sending_of : ℕ → CurrentUser → Sending
sending_of now user = record { temp_id = temp_id_at now; user = user }

abbrev pub echo_of : Message → Frame
echo_of m = record { type = "new_message"; payload = some m }

abbrev pub named : CurrentUser → Message → Message
named user m = record m { username = some user.username }

without-last :
    (k : String) (xs : List Message) (m : Message)
    → has id_of k xs ≡ false
    → m.message_id ≡ k
    → without id_of k (xs ++ m ∷ []) ≡ xs
unfolding filter
without-last k [] m h e = ground (arith, eq_iff m.message_id k)
without-last k (x ∷ xs) m h e = ground (arith, without-last k xs m)

replace-last :
    (k : String) (y : Message) (xs : List Message) (m : Message)
    → has id_of k xs ≡ false
    → m.message_id ≡ k
    → replace id_of k y (xs ++ m ∷ []) ≡ xs ++ y ∷ []
replace-last k y [] m h e = ground (arith, eq_iff m.message_id k)
replace-last k y (x ∷ xs) m h e = ground (arith, replace-last k y xs m)

module _ (p : Sending) (m : Message) (opt : Message) (xs : List Message)
    (held : opt.message_id ≡ p.temp_id) (no_temp : has id_of p.temp_id xs ≡ false)
    (no_real : has id_of m.message_id xs ≡ false) (distinct : m.message_id ≢ p.temp_id) where
  has-placed : has id_of m.message_id (xs ++ opt ∷ []) ≡ false
  has-placed =
      ground (
        arith,
        has-append id_of m.message_id xs (opt ∷ []),
        eq_iff opt.message_id m.message_id,
        held,
      )

  -- The echo comes first.
  confirm-append_new : confirm p m (append_new m (xs ++ opt ∷ [])) ≡ xs ++ m ∷ []
  unfolding confirm append_new
  confirm-append_new = rw has-placed (
      rw (has-append id_of m.message_id (xs ++ opt ∷ []) (m ∷ []), has-placed, eq_refl m.message_id)
        (rw
          (
            without-append id_of p.temp_id (xs ++ opt ∷ []) (m ∷ []),
            without-last p.temp_id xs opt no_temp held,
          )
          (rw (
            without-fresh id_of p.temp_id (m ∷ [])
              (rw (==-false m.message_id p.temp_id distinct))))))

  -- The reply comes first.
  append_new-confirm : append_new m (confirm p m (xs ++ opt ∷ [])) ≡ xs ++ named p.user m ∷ []
  unfolding confirm append_new
  append_new-confirm = rw has-placed (
      rw (replace-last p.temp_id (named p.user m) xs opt no_temp held) (
        rw (has-append id_of m.message_id xs (named p.user m ∷ []), no_real, eq_refl m.message_id)))

-- The reply's three ways in terms of what it does to the list.
settle_messages-Confirms :
    (p : Sending) (r : Response Message) (m : Message) (xs : List Message)
    → Confirms r m
    → settle_messages p (some r) xs ≡ confirm p m xs
unfolding settle_messages
settle_messages-Confirms p r m xs c = rw (c.0, c.1)

settle_messages-IsFailure :
    (p : Sending) (r : Reply Message) (xs : List Message)
    → IsFailure r
    → settle_messages p r xs ≡ without id_of p.temp_id xs
unfolding settle_messages
settle_messages-IsFailure p none xs f = refl
settle_messages-IsFailure p (some r) xs (inl e) =
    rw e (if_both (λ l. l ≡ without id_of p.temp_id xs) (is_ok r || eqb r.status 201) refl refl)
settle_messages-IsFailure p (some r) xs (inr e) = rw e

abbrev pub with_optimistic : View → CurrentUser → String → ℕ → String → View
with_optimistic v user content now iso = record v {
  extra_messages = v.extra_messages ++ optimistic v.channel_id user content now iso ∷ [];
  sending = v.sending ++ sending_of now user ∷ [];
}

send-known :
    (v : View) (user : CurrentUser) (content : String) (now : ℕ) (iso : String)
    → v.current_user ≡ some user
    → send content now iso v ≡ with_optimistic v user content now iso
unfolding send
send-known v user content now iso e = ground arith

on_message-echo :
    (m : Message) (v : View)
    → m.channel_id ≡ v.channel_id
    → on_message v.channel_id (some (echo_of m)) v
      ≡ record v { extra_messages = append_new m v.extra_messages }
unfolding on_message
on_message-echo m v e = rw ((eq_iff m.channel_id v.channel_id).1 e)

without_temp-last :
    (p : Sending) (ps : List Sending)
    → has temp_of p.temp_id ps ≡ false
    → without temp_of p.temp_id (ps ++ p ∷ []) ≡ ps
unfolding filter
without_temp-last p [] h = ground (arith, eq_refl p.temp_id)
without_temp-last p (x ∷ ps) h = ground (arith, without_temp-last p ps)

-- Whichever comes first, the echo of the sent message or the reply to the POST, the placeholder
-- gives way to exactly one entry with the real id, at the end of the list; only its user name
-- differs. The user is known, the placeholder's id and the message's are new and differ, the
-- message is of the view's channel, and the reply has a good status and the message as its body.
pub send_race :
    (v : View) (user : CurrentUser) (content iso : String) (now : ℕ) (m : Message)
    (r : Response Message)
    → v.current_user ≡ some user
    → has id_of (temp_id_at now) v.extra_messages ≡ false
    → has id_of m.message_id v.extra_messages ≡ false
    → m.message_id ≢ temp_id_at now
    → m.channel_id ≡ v.channel_id
    → Confirms r m
    → let sent = send content now iso v in
      ((settle
          (sending_of now user)
          (some r)
          (on_message v.channel_id (some (echo_of m)) sent)).extra_messages
        ≡ v.extra_messages ++ m ∷ [])
      × ((on_message v.channel_id
            (some (echo_of m))
            (settle (sending_of now user) (some r) sent)).extra_messages
          ≡ v.extra_messages ++ named user m ∷ [])
unfolding settle optimistic
send_race v user content iso now m r known no_temp no_real distinct here c =
    let p : Sending = sending_of now user in
    let opt : Message = optimistic v.channel_id user content now iso in
    let w : View = with_optimistic v user content now iso in
    let first = confirm-append_new p m opt v.extra_messages refl no_temp no_real distinct in
    let second = append_new-confirm p m opt v.extra_messages refl no_temp no_real distinct in
    rw (send-known v user content now iso known) (
      rw (on_message-echo m w here)
          (rw (settle_messages-Confirms p r m (append_new m w.extra_messages) c) first),
      rw (on_message-echo m (settle p (some r) w) here)
          (rw (settle_messages-Confirms p r m w.extra_messages c) second),
    )

-- A send that fails, by no answer, a bad status or a body that is no JSON, leaves the view as it
-- was before it. The user is known, and the placeholder's id is new among the messages and the
-- POSTs under way.
pub settle_failure :
    (v : View) (user : CurrentUser) (content iso : String) (now : ℕ) (r : Reply Message)
    → v.current_user ≡ some user
    → has id_of (temp_id_at now) v.extra_messages ≡ false
    → has temp_of (temp_id_at now) v.sending ≡ false
    → IsFailure r
    → settle (sending_of now user) r (send content now iso v) ≡ v
unfolding settle optimistic
settle_failure v user content iso now r known new_id new_temp f =
    let p : Sending = sending_of now user in
    let opt : Message = optimistic v.channel_id user content now iso in
    rw (send-known v user content now iso known) (
      rw (settle_messages-IsFailure p r (v.extra_messages ++ opt ∷ []) f) (
        rw (
          without-last p.temp_id v.extra_messages opt new_id refl,
          without_temp-last p v.sending new_temp,
        )))

confirm-fresh :
    (p : Sending) (m : Message) (xs : List Message)
    → has id_of p.temp_id xs ≡ false
    → confirm p m xs ≡ xs
unfolding confirm
confirm-fresh p m xs h =
    if_both (λ l. l ≡ xs) (has id_of m.message_id xs) (without-fresh id_of p.temp_id xs h)
      (replace-fresh id_of p.temp_id (named p.user m) xs h)

settle_messages-fresh :
    (p : Sending) (r : Reply Message) (xs : List Message)
    → has id_of p.temp_id xs ≡ false
    → settle_messages p r xs ≡ xs
unfolding settle_messages
settle_messages-fresh p none xs h = without-fresh id_of p.temp_id xs h
settle_messages-fresh p (some r) xs h = elim (Option-cases r.json) [
  | inl e ↦ rw e (if_both (λ l. l ≡ xs) (is_ok r || eqb r.status 201) gone gone)
  | inr (m, e) ↦
      rw e (if_both (λ l. l ≡ xs) (is_ok r || eqb r.status 201) (confirm-fresh p m xs h) gone)
]
  where
    gone : without id_of p.temp_id xs ≡ xs
    gone = without-fresh id_of p.temp_id xs h

-- A reply that comes when its placeholder is gone, as after a move to another channel, changes no
-- message.
pub settle_late :
    (p : Sending) (r : Reply Message) (v : View)
    → has id_of p.temp_id v.extra_messages ≡ false
    → (settle p r v).extra_messages ≡ v.extra_messages
unfolding settle
settle_late p r v h = settle_messages-fresh p r v.extra_messages h
