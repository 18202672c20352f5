-- ===== src/Channels/Panel.antt =====
-- ChannelSidebar.tsx: what the sidebar shows, and to whom it offers to create a channel.
use concordia_chat_app.Prelude.{
  ◌∙◌, sym, ◌+◌, ◌≡◌, ◌≢◌, ◌↔◌, ◌⊎◌, inl, inr, eq_iff, refl, Bool, true, false, not, ◌&&◌, ◌||◌,
  Option, none, some, List, [], ◌∷◌, String, ◌==◌, arith,
}
use concordia_chat_app.Prelude.Lists.{filter, length, find?}
use concordia_chat_app.Prelude.Tests.{ltb, truthy, Bool-cases, if◌then◌else◌}
use concordia_chat_app.Http.{Response, is_ok}
use concordia_chat_app.Chat.{CurrentUser}
use concordia_chat_app.Channels.{
  Channel, Server, Member, Channels, start_data, finish_data, visit, has_role, is_text,
  text_channels, voice_channels, can_manage_channels, is_owner,
}
use concordia_chat_app.Channels.Loading.{IsComplete, finish_data-IsComplete}

-- The two sections, and whether they have their "+".
pub record Sections : Type 0 where
  pub texts : List Channel
  pub voices : List Channel
  pub can_create : Bool

pub record Panel : Type 0 where
  pub header : String
  pub skeleton : Bool
  pub failure : Option String
  pub sections : Option Sections

-- The head and the body of the sidebar.
unfoldable pub panel : Channels → Panel
unfolding text_channels voice_channels can_manage_channels
panel s = record {
  header = elim s.server [
    | some server ↦ server.name
    | none ↦ if truthy s.server_id then "…" else ""
  ];
  skeleton = s.loading;
  failure = if not s.loading && truthy s.error then s.error else none;
  sections =
      if not s.loading && not (truthy s.error) && truthy s.server_id
      then some (record {
        texts = text_channels s;
        voices = voice_channels s;
        can_create = can_manage_channels s;
      })
      else none;
}

sections-length :
    (list : List Channel)
    → length (filter is_text list) + length (filter (λ c. not (is_text c)) list) ≡ length list
unfolding filter
sections-length [] = omega arith
sections-length (c ∷ list) = ground (arith, sections-length list)

-- The first of the members with the id has a role.
abbrev pub HasRole : String → List Member → Type 0
HasRole id [] = ⊥
HasRole id (m ∷ ms) =
    ((m.user_id ≡ id) × ((r : String) × (rs : List String) × (m.roles ≡ some (r ∷ rs))))
    ⊎ ((m.user_id ≢ id) × HasRole id ms)

-- `(roles?.length ?? 0) > 0`
abbrev has_roles : Option (List String) → Bool
has_roles roles = elim roles [ none ↦ false | some roles ↦ ltb 0 (length roles) ]

has_roles-some :
    (roles : Option (List String))
    → has_roles roles ≡ true
    → (r : String) × (rs : List String) × (roles ≡ some (r ∷ rs))
has_roles-some none h = absurd (cc h)
has_roles-some (some []) h = absurd (ground (arith, h))
has_roles-some (some (r ∷ rs)) h = (r, rs, refl)

has_role-here :
    (id : String) (m : Member) (ms : List Member)
    → (m.user_id == id) ≡ true
    → has_role id (m ∷ ms) ≡ has_roles m.roles
unfolding has_role find?
has_role-here id m ms e = rw (e, has_role) refl

has_role-there :
    (id : String) (m : Member) (ms : List Member)
    → (m.user_id == id) ≡ false
    → has_role id (m ∷ ms) ≡ has_role id ms
unfolding has_role find?
has_role-there id m ms e = rw (e, has_role) refl

has_role-HasRole : (id : String) (ms : List Member) → has_role id ms ≡ true → HasRole id ms
unfolding has_role find?
has_role-HasRole id [] h = absurd (cc h)
has_role-HasRole id (m ∷ ms) h = elim (Bool-cases (m.user_id == id)) [
  | inl e ↦
      inl ((eq_iff m.user_id id).0 e, has_roles-some m.roles (sym (has_role-here id m ms e) ∙ h))
  | inr e ↦ inr (
    λ p. absurd (cc (e, (eq_iff m.user_id id).1 p)),
    has_role-HasRole id ms (sym (has_role-there id m ms e) ∙ h),
  )
]

HasRole-has_role : (id : String) (ms : List Member) → HasRole id ms → has_role id ms ≡ true
HasRole-has_role id [] h = absurd h
HasRole-has_role id (m ∷ ms) (inl (p, (r, rs, q))) =
    has_role-here id m ms ((eq_iff m.user_id id).1 p) ∙ rw q (ground arith)
HasRole-has_role id (m ∷ ms) (inr (p, h)) = elim (Bool-cases (m.user_id == id)) [
  | inl e ↦ absurd (p ((eq_iff m.user_id id).0 e))
  | inr e ↦ has_role-there id m ms e ∙ HasRole-has_role id ms h
]

-- The owner of the server, or a member with a role.
may_create :
    (id owner : String) (ms : List Member)
    → ((id == owner || has_role id ms) ≡ true) ↔ ((id ≡ owner) ⊎ HasRole id ms)
may_create id owner ms = (
  λ h. elim (Bool-cases (id == owner)) [
    | inl e ↦ inl ((eq_iff id owner).0 e)
    | inr e ↦ inr (has_role-HasRole id ms (ground (arith, h)))
  ],
  λ h. elim h [
    | inl p ↦ let e = (eq_iff id owner).1 p in rw e refl
    | inr r ↦ let e = HasRole-has_role id ms r in ground (arith, e)
  ],
)

-- After a visit to the address of a server, whose id is not empty, and four replies with good
-- statuses and bodies, the sidebar shows the name of that server, no skeleton and no error, and
-- its channels in two sections: in the first those of the text kind, in the second the others, in
-- the order of the reply and each in one of them. The button that creates a channel is offered
-- exactly to the owner of the server and to a user whose entry in the list of the members has a
-- role.
pub finish_data-panel :
    (id : String) (c : Response (List Channel)) (v : Response Server) (u : Response CurrentUser)
    (m : Response (List Member)) (list : List Channel) (server : Server) (user : CurrentUser)
    (members : List Member) (s : Channels)
    → truthy (some id) ≡ true
    → IsComplete c v u m list server user members
    → let t = finish_data (some c) (some v) (some u) (some m) (visit (some id) s) in
      (texts : List Channel) × (voices : List Channel) × (can_create : Bool) × (panel t ≡ record {
        header = server.name;
        skeleton = false;
        failure = none;
        sections = some (record { texts = texts; voices = voices; can_create = can_create });
      })
      × (texts ≡ filter is_text list)
      × (voices ≡ filter (λ x. not (is_text x)) list)
      × (length texts + length voices ≡ length list)
      × ((can_create ≡ true) ↔ ((user.user_id ≡ server.owner_id) ⊎ HasRole user.user_id members))
unfolding panel visit start_data text_channels voice_channels can_manage_channels is_owner
finish_data-panel id c v u m list server user members s named i = (
  filter is_text list,
  filter (λ x. not (is_text x)) list,
  user.user_id == server.owner_id || has_role user.user_id members,
  rw (finish_data-IsComplete (visit (some id) s) i, named) refl,
  refl,
  refl,
  sections-length list,
  may_create user.user_id server.owner_id members,
)

-- Where the request for the members fails, the role that the user has in the server before stays.
stale_role :
    (id : String) (c : Response (List Channel)) (v : Response Server) (u : Response CurrentUser)
    (m : Response (List Member)) (list : List Channel) (server : Server) (user : CurrentUser)
    (s : Channels)
    → is_ok c ≡ true
    → c.json ≡ some list
    → is_ok v ≡ true
    → v.json ≡ some server
    → is_ok u ≡ true
    → u.json ≡ some user
    → is_ok m ≡ false
    → s.has_manage_role ≡ true
    → let t = finish_data (some c) (some v) (some u) (some m) (visit (some id) s) in
      (t.server ≡ some server) × (t.error ≡ none) × (can_manage_channels t ≡ true)
unfolding can_manage_channels is_owner finish_data visit start_data
stale_role id c v u m list server user s a b d e f g h role =
    rw kept (refl, refl, ground (arith, role))
  where
    kept : finish_data (some c) (some v) (some u) (some m) (visit (some id) s) ≡ record s {
      server_id = some id;
      channels = list;
      server = some server;
      current_user = some user;
      loading = false;
      error = none;
    }
    kept = rw (a, d, b, e) (rw (f, g) (rw h refl))
