-- ===== src/Channels/Session/Ends.antt =====
-- ChannelSidebar.tsx: how a load and a creation end, by the server that they were made for.
use concordia_chat_app.Prelude.{
  ◌≡◌, refl, inl, inr, Option, false, not, none, some, List, [], ◌∷◌, String,
}
use concordia_chat_app.Prelude.Lists.{All, All-append}
use concordia_chat_app.Prelude.Tests.{eqb, if_both, Option-cases}
use concordia_chat_app.Http.{Response, Reply, is_ok}
use concordia_chat_app.Chat.{CurrentUser}
use concordia_chat_app.Channels.{
  Channel, Server, Member, Channels, has_role, load_failed, finish_members, finish_user,
  finish_lists, finish_data, finish_create, close_modal,
}
use concordia_chat_app.Channels.Session.{Load}

-- Channels of one server.
abbrev pub AllOf : String → List Channel → Type 0
AllOf id = All (λ (c : Channel). c.server_id ≡ id)

-- What the bodies of replies say of the server, where there are bodies.
abbrev pub IsServer : String → Reply Server → Type 0
IsServer id none = Unit
IsServer id (some r) = elim r.json [ none ↦ Unit | some v ↦ v.server_id ≡ id ]

abbrev pub IsList : String → Reply (List Channel) → Type 0
IsList id none = Unit
IsList id (some r) = elim r.json [ none ↦ Unit | some list ↦ AllOf id list ]

abbrev pub IsCreated : String → Reply Channel → Type 0
IsCreated id none = Unit
IsCreated id (some r) = elim r.json [ none ↦ Unit | some c ↦ c.server_id ≡ id ]

-- The sidebar shows the server `id` and channels of it.
pub record ShowsServer (id : String) (t : Channels) : Type 0 where
  pub shown : Server
  pub is_shown : t.server ≡ some shown
  pub named : shown.server_id ≡ id
  pub listed : AllOf id t.channels

-- The end of a load for `id`.
pub record LoadOver (id : String) (s t : Channels) : Type 0 where
  pub over : t.loading ≡ false
  pub address : t.server_id ≡ s.server_id
  pub creating : t.creating ≡ s.creating
  pub shows : t.error ≡ none → ShowsServer id t

module _ (id : String) (s : Channels) where
  load_failed-LoadOver :
      (t : Channels)
      → t.server_id ≡ s.server_id
      → t.creating ≡ s.creating
      → LoadOver id s (load_failed t)
  load_failed-LoadOver t a c = record {
    over = refl;
    address = a;
    creating = c;
    shows = λ e. absurd (cc e);
  }

  finish_members-LoadOver :
      (u : CurrentUser) (m : Response (List Member)) (t : Channels)
      → t.server_id ≡ s.server_id
      → t.creating ≡ s.creating
      → ShowsServer id t
      → LoadOver id s (finish_members u m t)
  unfolding finish_members
  finish_members-LoadOver u m t a c k = if_both (LoadOver id s) (is_ok m) (listed m.json) ended
    where
      shows : {x : Channels} → x.server ≡ t.server → x.channels ≡ t.channels → ShowsServer id x
      shows e f = record {
        shown = k.shown;
        is_shown = rw e k.is_shown;
        named = k.named;
        listed = rw f k.listed;
      }

      ended : LoadOver id s (record t { loading = false })
      ended = record { over = refl; address = a; creating = c; shows = λ e. shows refl refl }

      listed :
          (j : Option (List Member))
          → LoadOver id s (elim j [
            | none ↦ load_failed t
            | some members ↦ record t {
              has_manage_role = has_role u.user_id members;
              loading = false;
            }
          ])
      listed none = load_failed-LoadOver t a c
      listed (some members) = record {
        over = refl;
        address = a;
        creating = c;
        shows = λ e. shows refl refl;
      }

  finish_user-LoadOver :
      (u : Response CurrentUser) (m : Response (List Member)) (t : Channels)
      → t.server_id ≡ s.server_id
      → t.creating ≡ s.creating
      → ShowsServer id t
      → LoadOver id s (finish_user u m t)
  unfolding finish_user
  finish_user-LoadOver u m t a c k =
      if_both (LoadOver id s) (is_ok u) (known u.json)
        (record { over = refl; address = a; creating = c; shows = λ e. shows refl refl })
    where
      shows : {x : Channels} → x.server ≡ t.server → x.channels ≡ t.channels → ShowsServer id x
      shows e f = record {
        shown = k.shown;
        is_shown = rw e k.is_shown;
        named = k.named;
        listed = rw f k.listed;
      }

      known :
          (j : Option CurrentUser)
          → LoadOver id s (elim j [
            | none ↦ load_failed t
            | some user ↦ finish_members user m (record t { current_user = some user })
          ])
      known none = load_failed-LoadOver t a c
      known (some user) =
          finish_members-LoadOver user m (record t { current_user = some user }) a c
            (shows refl refl)

  finish_lists-LoadOver :
      (c : Response (List Channel)) (v : Response Server) (u : Response CurrentUser)
      (m : Response (List Member))
      → IsList id (some c)
      → IsServer id (some v)
      → LoadOver id s (finish_lists c v u m s)
  unfolding finish_lists
  finish_lists-LoadOver c v u m lists servers = if_both (LoadOver id s) (not (is_ok c)) failed (
      if_both (LoadOver id s) (not (is_ok v)) failed (elim (Option-cases c.json) [
        | inl e ↦ rw e failed
        | inr (list, e) ↦ elim (Option-cases v.json) [
          | inl f ↦ rw (e, f) failed
          | inr (server, f) ↦
              let of_id : AllOf id list = rw e at lists in
              let is_id : server.server_id ≡ id = rw f at servers in
              rw (e, f)
                (finish_user-LoadOver u m (record s { channels = list; server = some server }) refl
                  refl (record { shown = server; is_shown = refl; named = is_id; listed = of_id }))
        ]
      ]))
    where
      failed : LoadOver id s (load_failed s)
      failed = load_failed-LoadOver s refl refl

  pub finish_data-LoadOver :
      (l : Load)
      → IsList id l.channels
      → IsServer id l.server
      → LoadOver id s (finish_data l.channels l.server l.user l.members s)
  unfolding finish_data
  finish_data-LoadOver l lists servers = go l.channels l.server l.user l.members lists servers
    where
      failed : LoadOver id s (load_failed s)
      failed = load_failed-LoadOver s refl refl

      go :
          (c : Reply (List Channel)) (v : Reply Server) (u : Reply CurrentUser)
          (m : Reply (List Member))
          → IsList id c
          → IsServer id v
          → LoadOver id s (finish_data c v u m s)
      go none v u m a b = failed
      go (some c) none u m a b = failed
      go (some c) (some v) none m a b = failed
      go (some c) (some v) (some u) none a b = failed
      go (some c) (some v) (some u) (some m) a b = finish_lists-LoadOver c v u m a b

-- The end of a creation for `id`.
pub record CreateOver (id : String) (s t : Channels) : Type 0 where
  pub over : t.creating ≡ false
  pub address : t.server_id ≡ s.server_id
  pub loading : t.loading ≡ s.loading
  pub error : t.error ≡ s.error
  pub shows : ShowsServer id s → ShowsServer id t

pub finish_create-CreateOver :
    (id : String) (r : Reply Channel) (s : Channels)
    → IsCreated id r
    → CreateOver id s (finish_create r s)
unfolding finish_create close_modal
finish_create-CreateOver id none s k = record {
  over = refl;
  address = refl;
  loading = refl;
  error = refl;
  shows =
      λ h. record { shown = h.shown; is_shown = h.is_shown; named = h.named; listed = h.listed };
}
finish_create-CreateOver id (some r) s k = if_both (CreateOver id s) (eqb r.status 403) (failed _) (
    if_both (CreateOver id s) (is_ok r)
      (elim (Option-cases r.json) [
        | inl e ↦ rw e (failed _)
        | inr (c, e) ↦
            let is_id : c.server_id ≡ id = rw e at k in
            rw e (record {
              over = refl;
              address = refl;
              loading = refl;
              error = refl;
              shows = λ h. record {
                shown = h.shown;
                is_shown = h.is_shown;
                named = h.named;
                listed =
                    All-append (λ (c : Channel). c.server_id ≡ id) s.channels (c ∷ []) h.listed
                      (is_id, tt);
              };
            })
      ])
      (failed _))
  where
    failed :
        (reason : String)
        → CreateOver id s (record s { create_error = some reason; creating = false })
    failed reason = record {
      over = refl;
      address = refl;
      loading = refl;
      error = refl;
      shows = λ h. record {
        shown = h.shown;
        is_shown = h.is_shown;
        named = h.named;
        listed = h.listed;
      };
    }
