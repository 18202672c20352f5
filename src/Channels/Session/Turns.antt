-- ===== src/Channels/Session/Turns.antt =====
-- ChannelSidebar.tsx: what each event of the sidebar keeps.
use concordia_chat_app.Prelude.{
  ℕ, ◌≡◌, ◌⊎◌, refl, sym, ap, ◌∙◌, subst, inl, inr, Bool, true, false, not, ◌&&◌, ◌||◌, Option,
  none, some, List, [], ◌∷◌, ◌++◌, String, arith,
}
use concordia_chat_app.Prelude.Lists.{All, All-append, length, length-append, get_elem?, remove_at}
use concordia_chat_app.Servers.Active.{channel_path}
use concordia_chat_app.Prelude.Tests.{
  is_empty, truthy, or_else, if_both, if_known, Option-cases, if◌then◌else◌,
}
use concordia_chat_app.Prelude.Text.{trim}
use concordia_chat_app.Http.{Reply}
use concordia_chat_app.Chat.{ChannelType, text, voice}
use concordia_chat_app.Channels.{
  Channel, Channels, visit, start_data, open_modal, start_create, finish_data, finish_create,
}
use concordia_chat_app.Channels.Panel.{panel}
use concordia_chat_app.Channels.Session.{
  Session, Load, Event, same_id, asked, move, on_loaded, retry, click_plus, submit, on_created,
  click_channel, moved, loaded, created, step,
}
use concordia_chat_app.Channels.Session.Ends.{
  IsServer, IsList, IsCreated, ShowsServer, finish_data-LoadOver, finish_create-CreateOver,
}
use concordia_chat_app.Channels.Session.Awaits.{
  Awaits, Awaits-concat, Awaits-change, Awaits-tail, IsLike, IsLike-Awaits, like,
}

-- The replies are those to the oldest request under way, and speak of its server.
abbrev pub ForFirst : (String → Type 0) → List String → Type 0
ForFirst P [] = Unit
ForFirst P (id ∷ rest) = P id

abbrev pub Fits : Event → Session → Type 0
Fits (moved id) s = s.creates ≡ []
Fits (loaded i l) s = (i ≡ 0) × ForFirst (λ id. IsList id l.channels × IsServer id l.server) s.loads
Fits (created r) s = ForFirst (λ id. IsCreated id r) s.creates
Fits e s = Unit

abbrev pub FitsAll : List Event → Session → Type 0
FitsAll [] s = Unit
FitsAll (e ∷ es) s = Fits e s × FitsAll es (step e s)

abbrev pub one_if : Bool → ℕ
one_if b = if b then 1 else 0

pub record Inv (s : Session) : Type 0 where
  pub one_create : length s.creates ≡ one_if s.channels.creating
  pub awaits : (id : String) → s.channels.server_id ≡ some id → Awaits id s.loads s.channels
  pub here : (id : String) → s.channels.server_id ≡ some id → All (λ x. x ≡ id) s.creates

pub like-Inv :
    (s : Session) (d : Channels)
    → IsLike s.channels d
    → d.creating ≡ s.channels.creating
    → Inv s
    → Inv (record s { channels = d })
like-Inv s d k c i = record {
  one_create = i.one_create ∙ ap one_if (sym c);
  awaits = λ id a. IsLike-Awaits s.channels d id s.loads k (i.awaits id (sym k.server_id ∙ a));
  here = λ id a. i.here id (sym k.server_id ∙ a);
}

-- A load that is asked for.
ask-Inv :
    (s : Session) (d : Channels) (next : Option String)
    → d.server_id ≡ next
    → d.creating ≡ s.channels.creating
    → ((id : String) → next ≡ some id → All (λ x. x ≡ id) s.creates)
    → ((next ≡ none) ⊎ ((id : String) × (next ≡ some id)))
    → Inv s
    → Inv (record s { channels = d; loads = s.loads ++ asked next })
ask-Inv s d next a c here known i = record {
  one_create = i.one_create ∙ ap one_if (sym c);
  awaits = λ id b. elim known [
    | inl e ↦ absurd (cc (a, b, e))
    | inr (j, e) ↦ let j_id : j ≡ id = cc (a, b, e) in rw (e, j_id) (Awaits-concat id s.loads d)
  ];
  here = λ id b. here id (sym a ∙ b);
}

pub move-Inv : (next : Option String) (s : Session) → s.creates ≡ [] → Inv s → Inv (move next s)
unfolding move visit start_data
move-Inv next s quiet i = if_both Inv (same_id next s.channels.server_id) i (go next)
  where
    nothing : (id : String) → All (λ x. x ≡ id) s.creates
    nothing id = rw quiet tt

    go :
        (n : Option String)
        → Inv (record s { channels = visit n s.channels; loads = s.loads ++ asked n })
    go none = ask-Inv s (visit none s.channels) none refl refl (λ id e. nothing id) (inl refl) i
    go (some id) =
        ask-Inv s (visit (some id) s.channels) (some id) refl refl (λ id e. nothing id)
          (inr (id, refl)) i

pub on_loaded-Inv :
    (l : Load) (s : Session)
    → ForFirst (λ id. IsList id l.channels × IsServer id l.server) s.loads
    → Inv s
    → Inv (on_loaded 0 l s)
unfolding on_loaded get_elem? remove_at
on_loaded-Inv l s f i = go s.loads f i.awaits
  where
    go :
        (loads : List String)
        → ForFirst (λ id. IsList id l.channels × IsServer id l.server) loads
        → ((id : String) → s.channels.server_id ≡ some id → Awaits id loads s.channels)
        → Inv (elim (get_elem? loads 0) [
          | none ↦ s
          | some id ↦ record s {
            channels = finish_data l.channels l.server l.user l.members s.channels;
            loads = remove_at 0 loads;
          }
        ])
    go [] f a = i
    go (x ∷ rest) f a =
        let o = finish_data-LoadOver x s.channels l f.0 f.1 in
        record {
          one_create = i.one_create ∙ ap one_if (sym o.creating);
          awaits =
              λ id b. Awaits-tail id x rest s.channels s.channels _ o (a id (sym o.address ∙ b));
          here = λ id b. i.here id (sym o.address ∙ b);
        }

pub retry-Inv : (s : Session) → Inv s → Inv (retry s)
unfolding retry start_data
retry-Inv s i =
    if_both Inv (not s.channels.loading && truthy s.channels.error && truthy s.channels.server_id)
      (ask-Inv s (start_data s.channels) s.channels.server_id refl refl i.here
        (Option-cases s.channels.server_id) i)
      i

pub click_plus-Inv : (type : ChannelType) (s : Session) → Inv s → Inv (click_plus type s)
unfolding click_plus open_modal
click_plus-Inv type s i = elim (Option-cases (panel s.channels).sections) [
  | inl e ↦ rw (e, click_plus) i
  | inr (sections, e) ↦
      rw (e, click_plus)
        (if_both Inv sections.can_create
          (like-Inv s (open_modal type s.channels) (like s.channels _ refl refl refl refl refl) refl
            i)
          i)
]

pub click_channel-Inv :
    (type : ChannelType) (n : ℕ) (s : Session) → Inv s → Inv (click_channel type n s)
unfolding click_channel
click_channel-Inv type n s i = elim (Option-cases (panel s.channels).sections) [
  | inl e ↦ rw (e, click_channel) i
  | inr (sections, e) ↦
      rw (e, click_channel)
        (pushed (get_elem? (elim type [ text ↦ sections.texts | voice ↦ sections.voices ]) n))
]
  where
    pushed :
        (o : Option Channel)
        → Inv (elim o [
          | none ↦ s
          | some ch ↦ record s {
            pushed = channel_path (or_else s.channels.server_id "") ch.channel_id ∷ s.pushed;
          }
        ])
    pushed none = i
    pushed (some ch) = record { one_create = i.one_create; awaits = i.awaits; here = i.here }

pub submit-Inv : (s : Session) → Inv s → Inv (submit s)
unfolding submit start_create
submit-Inv s i =
    if_known Inv
      (s.channels.modal_open && not (s.channels.creating || is_empty (trim s.channels.new_name)))
      (λ free. go s.channels.server_id refl (ground (arith, free))) i
  where
    started : Channels
    started = record s.channels { creating = true; create_error = none }

    asks :
        (id : String)
        → s.channels.server_id ≡ some id
        → s.channels.creating ≡ false
        → Inv (record s { channels = started; creates = s.creates ++ id ∷ [] })
    asks id e idle = record {
      one_create = omega (arith, length-append s.creates (id ∷ []), i.one_create ∙ ap one_if idle);
      awaits = λ j a.
          IsLike-Awaits s.channels started j s.loads
            (like s.channels started refl refl refl refl refl) (i.awaits j a);
      here = λ j a. All-append (λ x. x ≡ j) s.creates (id ∷ []) (i.here j a) (cc (e, a), tt);
    }

    next : Option String → Option Channels → Session
    next o c = elim c [
      | none ↦ s
      | some t ↦ record s { channels = t; creates = s.creates ++ asked o }
    ]

    go :
        (o : Option String)
        → s.channels.server_id ≡ o
        → s.channels.creating ≡ false
        → Inv (
            next o (elim o [
              | none ↦ none
              | some id ↦
                  if is_empty (trim s.channels.new_name) || is_empty id then none else some started
            ]))
    go none e idle = i
    go (some id) e idle =
        if_both (λ c. Inv (next (some id) c)) (is_empty (trim s.channels.new_name) || is_empty id) i
          (asks id e idle)

pub on_created-Inv :
    (r : Reply Channel) (s : Session)
    → ForFirst (λ id. IsCreated id r) s.creates
    → Inv s
    → Inv (on_created r s)
unfolding on_created
on_created-Inv r s f i = go s.creates f i.one_create i.here
  where
    go :
        (creates : List String)
        → ForFirst (λ id. IsCreated id r) creates
        → length creates ≡ one_if s.channels.creating
        → ((id : String) → s.channels.server_id ≡ some id → All (λ x. x ≡ id) creates)
        → Inv (elim creates [
          | [] ↦ s
          | id ∷ rest ↦ record s { channels = finish_create r s.channels; creates = rest }
        ])
    go [] f n h = i
    go (x ∷ rest) f n h =
        let o = finish_create-CreateOver x r s.channels f in
        record {
          one_create = ground (arith, n, o.over);
          awaits = λ id b.
              let at = sym o.address ∙ b in
              Awaits-change id s.loads s.channels (finish_create r s.channels)
                (λ a. (
                  o.loading ∙ a.0,
                  λ e.
                      subst (λ k. ShowsServer k (finish_create r s.channels)) (h id at).0
                        (o.shows (
                          subst (λ k. ShowsServer k s.channels) (sym (h id at).0)
                            (a.1 (sym o.error ∙ e)))),
                ))
                (i.awaits id at);
          here = λ id b. (h id (sym o.address ∙ b)).1;
        }
