-- ===== src/Chat/Spec.antt =====
-- ChannelView.tsx against a specification that forgets order and content: which ids are shown.
use concordia_chat_app.Prelude.{
  ℕ, ◌≡◌, refl, Bool, true, false, not, ◌||◌, ◌&&◌, Option, none, some, List, [], ◌∷◌, String, ◌==◌,
  arith, inl, inr,
}
use mathlib.Core.Path.{fun_ext}
use concordia_chat_app.Prelude.Keyed.{has, has-append, has-without, has-replace}
use concordia_chat_app.Prelude.Tests.{eqb, Bool-cases, Option-cases, if◌then◌else◌}
use concordia_chat_app.Http.{Response, Reply, is_ok}
use concordia_chat_app.Chat.{
  Message, View, Channel, CurrentUser, Event, frame, submit, reply, move, info, Sending, Frame,
  id_of, append_new, on_message, send, optimistic, temp_id_at, confirm, settle_messages, settle,
  navigate, load, load_channel, load_user, step, run,
}

-- The ids shown.
abbrev pub Ids : Type 0
Ids = String → Bool

abbrev pub none_shown : Ids
none_shown k = false

abbrev is_none {ℓ} : {A : Type ℓ} → Option A → Bool
is_none none = true
is_none (some x) = false

abbrev pub add : String → Ids → Ids
add id ids k = ids k || id == k

abbrev pub remove : String → Ids → Ids
remove id ids k = ids k && not (k == id)

-- A placeholder becomes a message, unless that is shown already.
abbrev pub resolve : String → String → Ids → Ids
resolve temp id ids k = remove temp ids k || (not (ids id) && ids temp && id == k)

-- What a reply to a POST tells: the message that the server has made, if any.
abbrev pub confirmed : Reply Message → Option Message
confirmed none = none
confirmed (some r) = if is_ok r || eqb r.status 201 then r.json else none

-- What a frame tells to the view of a channel.
abbrev pub announced : String → Option Frame → Option Message
announced ch none = none
announced ch (some f) =
    if f.type == "new_message"
    then elim f.payload [ none ↦ none | some m ↦ if m.channel_id == ch then some m else none ]
    else none

-- The specification: an announced message is shown; a message sent by a known user is shown by a
-- placeholder, which the reply resolves or takes back; a move shows nothing.
abbrev pub spec : Event → Option CurrentUser → Ids → Ids
spec (frame ch f) who ids = elim (announced ch f) [
  | none ↦ ids
  | some m ↦ (if ids m.message_id then ids else add m.message_id ids)
]
spec (submit content now iso) who ids = elim who [
  | none ↦ ids
  | some user ↦ add (temp_id_at now) ids
]
spec (reply p r) who ids = elim (confirmed r) [
  | none ↦ remove p.temp_id ids
  | some m ↦ resolve p.temp_id m.message_id ids
]
spec (move ch) who ids = none_shown
spec (info ch c u) who ids = ids

-- Who the user is, as the replies to the two first requests tell.
abbrev pub told : Response (List Channel) → Response CurrentUser → Option CurrentUser
told c u = if is_ok c && is_none c.json then none else if is_ok u then u.json else none

abbrev pub learn : Event → Option CurrentUser → Option CurrentUser
learn (frame ch f) who = who
learn (submit content now iso) who = who
learn (reply p r) who = who
learn (move ch) who = who
learn (info ch none u) who = who
learn (info ch (some c) none) who = who
learn (info ch (some c) (some u)) who = elim (told c u) [ none ↦ who | some user ↦ some user ]

abbrev pub shown : View → Ids
shown v k = has id_of k v.extra_messages

append_new-shown :
    (m : Message) (xs : List Message) (k : String)
    → has id_of k (append_new m xs)
      ≡ (if has id_of m.message_id xs
            then (λ j. has id_of j xs)
            else add m.message_id (λ j. has id_of j xs))
          k
unfolding append_new
append_new-shown m xs k = elim (Bool-cases (has id_of m.message_id xs)) [
  | inl e ↦ rw e refl
  | inr e ↦ rw e (ground (arith, has-append id_of k xs (m ∷ [])))
]

confirm-shown :
    (p : Sending) (m : Message) (xs : List Message) (k : String)
    → has id_of k (confirm p m xs) ≡ resolve p.temp_id m.message_id (λ j. has id_of j xs) k
unfolding confirm
confirm-shown p m xs k = elim (Bool-cases (has id_of m.message_id xs)) [
  | inl e ↦ rw e (ground (arith, has-without id_of k p.temp_id xs))
  | inr e ↦ rw e (
      ground (
        arith,
        has-replace id_of k p.temp_id (record m { username = some p.user.username }) xs,
        has-without id_of k p.temp_id xs,
      ))
]

on_message-shown :
    (ch : String) (f : Option Frame) (v : View) (k : String)
    → shown (on_message ch f v) k ≡ spec (frame ch f) v.current_user (shown v) k
unfolding on_message
on_message-shown ch none v k = refl
on_message-shown ch (some f) v k = elim (Option-cases f.payload) [
  | inl e ↦ elim (Bool-cases (f.type == "new_message")) [
    | inl t ↦ rw (spec, announced, t, e) refl
    | inr t ↦ rw (spec, announced, t) refl
  ]
  | inr (m, e) ↦ elim (Bool-cases (f.type == "new_message")) [
    | inr t ↦ rw (spec, announced, t) refl
    | inl t ↦ elim (Bool-cases (m.channel_id == ch)) [
      | inl c ↦ rw (spec, announced, t, e, c) (append_new-shown m v.extra_messages k)
      | inr c ↦ rw (spec, announced, t, e, c) refl
    ]
  ]
]

send-shown :
    (content : String) (now : ℕ) (iso : String) (v : View) (k : String)
    → shown (send content now iso v) k ≡ spec (submit content now iso) v.current_user (shown v) k
unfolding send optimistic
send-shown content now iso v k = elim (Option-cases v.current_user) [
  | inl e ↦ rw e refl
  | inr (u, e) ↦ rw e (
      ground (
        arith,
        has-append id_of k v.extra_messages (optimistic v.channel_id u content now iso ∷ []),
      ))
]

settle-shown :
    (p : Sending) (r : Reply Message) (v : View) (k : String)
    → shown (settle p r v) k ≡ spec (reply p r) v.current_user (shown v) k
unfolding settle settle_messages
settle-shown p none v k = has-without id_of k p.temp_id v.extra_messages
settle-shown p (some r) v k = elim (Bool-cases (is_ok r || eqb r.status 201)) [
  | inr s ↦ rw (spec, confirmed, s) (has-without id_of k p.temp_id v.extra_messages)
  | inl s ↦ elim (Option-cases r.json) [
    | inl e ↦ rw (spec, confirmed, s, e) (has-without id_of k p.temp_id v.extra_messages)
    | inr (m, e) ↦ rw (spec, confirmed, s, e) (confirm-shown p m v.extra_messages k)
  ]
]

load-shown :
    (ch : String) (c : Reply (List Channel)) (u : Reply CurrentUser) (v : View) (k : String)
    → shown (load ch c u v) k ≡ shown v k
unfolding load load_channel load_user
load-shown ch none u v k = refl
load-shown ch (some c) none v k = refl
load-shown ch (some c) (some u) v k = ground arith

step-shown : (e : Event) (v : View) → shown (step e v) ≡ spec e v.current_user (shown v)
unfolding step navigate
step-shown (frame ch f) v = fun_ext (on_message-shown ch f v)
step-shown (submit content now iso) v = fun_ext (send-shown content now iso v)
step-shown (reply p r) v = fun_ext (settle-shown p r v)
step-shown (move ch) v = refl
step-shown (info ch c u) v = fun_ext (load-shown ch c u v)

load_channel-learn :
    (ch : String) (c : Response (List Channel)) (u : Response CurrentUser) (v : View)
    → (load_channel ch c u v).current_user ≡ learn (info ch (some c) (some u)) v.current_user
unfolding load_channel load_user
load_channel-learn ch c u v = ground arith

step-learn : (e : Event) (v : View) → (step e v).current_user ≡ learn e v.current_user
unfolding step navigate settle load on_message send
step-learn (frame ch none) v = refl
step-learn (frame ch (some f)) v = ground arith
step-learn (submit content now iso) v = ground arith
step-learn (reply p r) v = refl
step-learn (move ch) v = refl
step-learn (info ch none u) v = refl
step-learn (info ch (some c) none) v = refl
step-learn (info ch (some c) (some u)) v = load_channel-learn ch c u v

-- The specification along a run, from who the user is and which ids are shown.
unfoldable pub spec_run : List Event → Option CurrentUser → Ids → Ids
spec_run [] who ids = ids
spec_run (e ∷ es) who ids = spec_run es (learn e who) (spec e who ids)

-- After any events, in any order, the ids of the messages that the channel view holds beyond those
-- fetched are the ids that the specification tells: an announced message is shown, a message sent
-- by a known user is shown by a placeholder, which the reply resolves or takes back, and a move
-- shows nothing. The specification knows the user and which ids are shown, and neither the order
-- nor the content of the messages.
pub run-shown :
    (es : List Event) (v : View) → shown (run es v) ≡ spec_run es v.current_user (shown v)
unfolding run spec_run
run-shown [] v = refl
run-shown (e ∷ es) v = rw⁻¹ (step-learn e v, step-shown e v) (run-shown es (step e v))
