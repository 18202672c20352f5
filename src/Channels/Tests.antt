-- ===== src/Channels/Tests.antt =====
-- ChannelSidebar.tsx: its theorems at a concrete server.
use concordia_chat_app.Prelude.{
  true, Bool, ◌⊎◌, ◌↔◌, ◌+◌, ◌≡◌, refl, false, not, none, some, List, [], ◌∷◌, String,
}
use concordia_chat_app.Prelude.Lists.{filter, length}
use concordia_chat_app.Prelude.Text.{trim}
use concordia_chat_app.Http.{Response}
use concordia_chat_app.Chat.{CurrentUser, text}
use concordia_chat_app.Channels.{Channel, Server, Member, Channels, finish_data, visit, is_text}
use concordia_chat_app.Channels.Loading.{IsComplete}
use concordia_chat_app.Channels.Session.{
  Load, Event, moved, loaded, plus_clicked, typed, sent, created, opened, step, run, move,
  on_loaded, click_plus, submit, on_created,
}
use concordia_chat_app.Channels.Session.Ends.{ShowsServer}
use concordia_chat_app.Channels.Session.Turns.{FitsAll, one_if}
use concordia_chat_app.Channels.Session.Runs.{run-shows}
use concordia_chat_app.Channels.Panel.{HasRole, panel, finish_data-panel}

abbrev channel : Channel
channel = record { channel_id = "c1"; name = "general"; type = text; server_id = "s1" }

abbrev server : Server
server = record { server_id = "s1"; name = "s"; owner_id = "u2" }

abbrev user : CurrentUser
user = record { user_id = "u1"; username = "ada" }

abbrev members : List Member
members = (record { user_id = "u1"; username = "ada"; roles = some ("admin" ∷ []) }) ∷ []

abbrev answer : {A : Type 0} → A → Response A
answer a = record { status = 200; json = some a }

abbrev sidebar : Channels
sidebar = record {
  server_id = some "s1";
  channels = [];
  server = none;
  current_user = none;
  has_manage_role = false;
  loading = false;
  error = none;
  modal_open = false;
  new_name = "";
  new_type = text;
  creating = false;
  create_error = none;
}

complete :
    IsComplete
      (answer (channel ∷ []))
      (answer server)
      (answer user)
      (answer members)
      (channel ∷ [])
      server
      user
      members
complete = record {
  c_ok = refl;
  c_body = refl;
  v_ok = refl;
  v_body = refl;
  u_ok = refl;
  u_body = refl;
  m_ok = refl;
  m_body = refl;
}

finish_data-panel_example :
    let t =
      finish_data
        (some (answer (channel ∷ [])))
        (some (answer server))
        (some (answer user))
        (some (answer members))
        (visit (some "s1") sidebar) in
    (texts : List Channel) × (voices : List Channel) × (can_create : Bool) × (panel t ≡ record {
      header = server.name;
      skeleton = false;
      failure = none;
      sections = some (record { texts = texts; voices = voices; can_create = can_create });
    })
    × (texts ≡ filter is_text (channel ∷ []))
    × (voices ≡ filter (λ x. not (is_text x)) (channel ∷ []))
    × (length texts + length voices ≡ 1)
    × ((can_create ≡ true) ↔ ((user.user_id ≡ server.owner_id) ⊎ HasRole user.user_id members))
finish_data-panel_example =
    finish_data-panel "s1" (answer (channel ∷ [])) (answer server) (answer user) (answer members)
      (channel ∷ []) server user members sidebar refl complete

abbrev load_of : String → Load
load_of id = record {
  channels = some (answer (record channel { server_id = id } ∷ []));
  server = some (answer (record server { server_id = id }));
  user = some (answer user);
  members = some (answer members);
}

-- Two moves before the first replies, and a channel made in the second server.
abbrev two_moves : List Event
two_moves =
    moved (some "s1")
    ∷ moved (some "s2")
    ∷ loaded 0 (load_of "s1")
    ∷ loaded 0 (load_of "s2")
    ∷ plus_clicked text
    ∷ typed "news"
    ∷ sent
    ∷ sent
    ∷ created (some (answer (record channel { channel_id = "c2"; server_id = "s2" })))
    ∷ []

two_moves_listed : length (run two_moves opened).channels.channels ≡ 2
unfolding run move on_loaded click_plus submit on_created trim
two_moves_listed = refl

two_moves-FitsAll : FitsAll two_moves opened
unfolding step move on_loaded click_plus submit trim
two_moves-FitsAll = (
  refl,
  (
    refl,
    ((refl, ((refl, tt), refl)), ((refl, ((refl, tt), refl)), (tt, (tt, (tt, (tt, (refl, tt))))))),
  ),
)

run-shows_example :
    let s = run two_moves opened in
    ((panel s.channels).skeleton ≡ false)
    × (length s.creates ≡ one_if s.channels.creating)
    × ((k : ShowsServer "s2" s.channels) × ((panel s.channels).header ≡ k.shown.name))
unfolding run move on_loaded click_plus submit on_created trim
run-shows_example = run-shows two_moves "s2" two_moves-FitsAll refl refl refl
