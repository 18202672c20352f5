-- ===== src/Servers/Session/Runs.antt =====
-- ServerSidebar.tsx: the requests of the sidebar and its list, over any run of events.
use concordia_chat_app.Prelude.{◌≡◌, refl, inl, inr, true, not, List, [], ◌∷◌}
use concordia_chat_app.Prelude.Keyed.{IsUnique}
use concordia_chat_app.Prelude.Lists.{get_elem?}
use concordia_chat_app.Prelude.Tests.{if_both, is_some, Option-cases}
use concordia_chat_app.Servers.{Sidebar, id_of, close_modal, push, start_fetch}
use concordia_chat_app.Servers.Session.{
  Session, Event, create_shown, join_shown, retry, icons, click_icon, opened, step, run,
  icon_clicked, plus_clicked, cancel_clicked, tab_chosen, name_typed, id_typed, create_sent,
  join_sent, retry_clicked, created, joined, detailed, listed, fetched,
}
use concordia_chat_app.Servers.Session.Ends.{IsLike}
use concordia_chat_app.Servers.Session.Turns.{
  Fits, FitsAll, one_if, joins, Inv, like-Inv, submit_create-Inv, on_created-Inv, submit_join-Inv,
  on_joined-Inv, on_details-Inv, on_list-Inv, on_fetched-Inv,
}

-- A change that leaves the requests and the list as they are.
kept :
    (s t : Sidebar)
    → t.creating ≡ s.creating
    → t.joining ≡ s.joining
    → t.servers ≡ s.servers
    → IsLike s t
kept s t a b c = record { creating = a; joining = b; distinct = λ d. rw c d }

step-Inv : (e : Event) (s : Session) → Fits e s → Inv s → Inv (step e s)
unfolding step click_icon close_modal push retry start_fetch
step-Inv (icon_clicked n) s f i = elim (Option-cases (get_elem? (icons s.sidebar) n)) [
  | inl e ↦ rw (e, click_icon) i
  | inr (server, e) ↦
      rw (e, click_icon)
        (like-Inv _ s (kept s.sidebar (push server.server_id s.sidebar) refl refl refl) i)
]
step-Inv plus_clicked s f i =
    if_both Inv (not s.sidebar.loading)
      (like-Inv _ s (kept s.sidebar (record s.sidebar { modal_open = true }) refl refl refl) i) i
step-Inv cancel_clicked s f i =
    if_both Inv s.sidebar.modal_open
      (like-Inv _ s (kept s.sidebar (close_modal s.sidebar) refl refl refl) i) i
step-Inv (tab_chosen tab) s f i =
    if_both Inv s.sidebar.modal_open
      (like-Inv _ s (kept s.sidebar (record s.sidebar { modal_tab = tab }) refl refl refl) i) i
step-Inv (name_typed text) s f i =
    if_both Inv (create_shown s.sidebar)
      (like-Inv _ s (kept s.sidebar (record s.sidebar { new_name = text }) refl refl refl) i) i
step-Inv (id_typed text) s f i =
    if_both Inv (join_shown s.sidebar)
      (like-Inv _ s (kept s.sidebar (record s.sidebar { join_id = text }) refl refl refl) i) i
step-Inv create_sent s f i = submit_create-Inv s i
step-Inv join_sent s f i = submit_join-Inv s i
step-Inv retry_clicked s f i =
    if_both Inv (is_some s.sidebar.error)
      (record { one_create = i.one_create; one_join = i.one_join; distinct = i.distinct }) i
step-Inv (created r) s f i = on_created-Inv r s f i
step-Inv (joined r) s f i = on_joined-Inv r s i
step-Inv (detailed r) s f i = on_details-Inv r s i
step-Inv (listed r) s f i = on_list-Inv r s f i
step-Inv (fetched r) s f i = on_fetched-Inv r s f i

run-Inv : (es : List Event) (s : Session) → FitsAll es s → Inv s → Inv (run es s)
unfolding run
run-Inv [] s f i = i
run-Inv (e ∷ es) s f i = run-Inv es (step e s) f.1 (step-Inv e s f.0 i)

-- In any run of the server sidebar from its first rendering, with clicks, typing, forms and
-- replies in any order, at most one creation and one join are under way, `creating` is set exactly
-- while a creation is and `joining` exactly while a join waits for one of its three replies, and
-- the list names no server twice. The lists that the gateway sends name none twice, and the id of
-- a created server is not in the list when the reply comes.
pub run-opened :
    (es : List Event)
    → FitsAll es opened
    → let s = run es opened in
      (s.creates ≡ one_if s.sidebar.creating)
      × (joins s ≡ one_if s.sidebar.joining)
      × IsUnique id_of s.sidebar.servers
run-opened es f =
    let i = run-Inv es opened f (record { one_create = refl; one_join = refl; distinct = tt }) in
    (i.one_create, i.one_join, i.distinct)
