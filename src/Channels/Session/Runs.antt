-- ===== src/Channels/Session/Runs.antt =====
-- ChannelSidebar.tsx: what the sidebar shows once its loads are over, over any run of events.
use concordia_chat_app.Prelude.{◌≡◌, refl, false, none, some, List, [], ◌∷◌, String}
use concordia_chat_app.Prelude.Lists.{length}
use concordia_chat_app.Prelude.Tests.{if_both}
use concordia_chat_app.Channels.{Channels, close_modal}
use concordia_chat_app.Channels.Panel.{panel}
use concordia_chat_app.Channels.Session.{
  Session, Event, opened, in_modal, moved, loaded, retried, plus_clicked, cancelled, typed,
  type_chosen, sent, created, channel_clicked, step, run,
}
use concordia_chat_app.Channels.Session.Ends.{ShowsServer}
use concordia_chat_app.Channels.Session.Awaits.{Awaits, IsLike, like}
use concordia_chat_app.Channels.Session.Turns.{
  Fits, FitsAll, one_if, Inv, like-Inv, move-Inv, on_loaded-Inv, retry-Inv, click_plus-Inv,
  click_channel-Inv, submit-Inv, on_created-Inv,
}

in_modal-Inv :
    (f : Channels → Channels) (s : Session)
    → IsLike s.channels (f s.channels)
    → (f s.channels).creating ≡ s.channels.creating
    → Inv s
    → Inv (in_modal f s)
in_modal-Inv f s k c i = if_both Inv s.channels.modal_open (like-Inv s (f s.channels) k c i) i

step-Inv : (e : Event) (s : Session) → Fits e s → Inv s → Inv (step e s)
unfolding step close_modal
step-Inv (moved id) s f i = move-Inv id s f i
step-Inv (loaded n l) s f i = rw (f.0) (on_loaded-Inv l s f.1 i)
step-Inv retried s f i = retry-Inv s i
step-Inv (plus_clicked type) s f i = click_plus-Inv type s i
step-Inv cancelled s f i =
    in_modal-Inv close_modal s (like s.channels _ refl refl refl refl refl) refl i
step-Inv (typed name) s f i =
    in_modal-Inv (λ c. record c { new_name = name }) s (like s.channels _ refl refl refl refl refl)
      refl i
step-Inv (type_chosen type) s f i =
    in_modal-Inv (λ c. record c { new_type = type }) s (like s.channels _ refl refl refl refl refl)
      refl i
step-Inv sent s f i = submit-Inv s i
step-Inv (created r) s f i = on_created-Inv r s f i
step-Inv (channel_clicked type n) s f i = click_channel-Inv type n s i

run-Inv : (es : List Event) (s : Session) → FitsAll es s → Inv s → Inv (run es s)
unfolding run
run-Inv [] s f i = i
run-Inv (e ∷ es) s f i = run-Inv es (step e s) f.1 (step-Inv e s f.0 i)

ShowsServer-header :
    (id : String) (c : Channels) (k : ShowsServer id c) → (panel c).header ≡ k.shown.name
unfolding panel
ShowsServer-header id c k = rw (k.is_shown, panel) refl

-- Over any run from the first rendering, with moves of the address before earlier loads are over,
-- retries, and channels created: once no load is under way and no error is shown, the sidebar at
-- the address of a server shows that server, under its name, and channels of it alone, and no
-- skeleton; and at most one creation is under way, exactly while `creating` is set. The replies
-- come in the order of the loads and speak of the server that they were asked for, and no move
-- happens while a creation is under way.
pub run-shows :
    (es : List Event) (id : String)
    → FitsAll es opened
    → (run es opened).channels.server_id ≡ some id
    → (run es opened).loads ≡ []
    → (run es opened).channels.error ≡ none
    → let s = run es opened in
      ((panel s.channels).skeleton ≡ false)
      × (length s.creates ≡ one_if s.channels.creating)
      × ((k : ShowsServer id s.channels) × ((panel s.channels).header ≡ k.shown.name))
unfolding panel
run-shows es id f a b e =
    let i =
      run-Inv es opened f
        (record { one_create = refl; awaits = λ j b. absurd (cc b); here = λ j b. tt }) in
    let w : Awaits id [] (run es opened).channels = rw b at (i.awaits id a) in
    let k = w.1 e in (w.0, i.one_create, (k, ShowsServer-header id (run es opened).channels k))
