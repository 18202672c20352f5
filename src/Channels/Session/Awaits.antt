-- ===== src/Channels/Session/Awaits.antt =====
-- ChannelSidebar.tsx: what the sidebar waits for, and what it shows when it waits for nothing.
use concordia_chat_app.Prelude.{
  ◌≡◌, refl, sym, ◌∙◌, subst, false, none, List, [], ◌∷◌, ◌++◌, String,
}
use concordia_chat_app.Channels.{Channels}
use concordia_chat_app.Channels.Session.Ends.{ShowsServer, LoadOver}

-- The loads under way end with one for `id`; without any, the sidebar shows `id` or an error.
abbrev pub Awaits : String → List String → Channels → Type 0
Awaits id [] c = (c.loading ≡ false) × (c.error ≡ none → ShowsServer id c)
Awaits id (x ∷ []) c = x ≡ id
Awaits id (x ∷ y ∷ rest) c = Awaits id (y ∷ rest) c

-- A load asked last.
pub Awaits-concat :
    (id : String) (loads : List String) (c : Channels) → Awaits id (loads ++ id ∷ []) c
Awaits-concat id [] c = refl
Awaits-concat id (x ∷ []) c = refl
Awaits-concat id (x ∷ y ∷ rest) c = Awaits-concat id (y ∷ rest) c

-- A change of the sidebar while the same loads are under way.
pub Awaits-change :
    (id : String) (loads : List String) (c d : Channels)
    → (Awaits id [] c → Awaits id [] d)
    → Awaits id loads c
    → Awaits id loads d
Awaits-change id [] c d f h = f h
Awaits-change id (x ∷ []) c d f h = h
Awaits-change id (x ∷ y ∷ rest) c d f h = Awaits-change id (y ∷ rest) c d f h

pub Awaits-any :
    (id y : String) (rest : List String) (c d : Channels)
    → Awaits id (y ∷ rest) c
    → Awaits id (y ∷ rest) d
Awaits-any id y [] c d h = h
Awaits-any id y (z ∷ rest) c d h = Awaits-any id z rest c d h

-- The oldest load is over.
pub Awaits-tail :
    (id x : String) (rest : List String) (c s d : Channels)
    → LoadOver x s d
    → Awaits id (x ∷ rest) c
    → Awaits id rest d
Awaits-tail id x [] c s d o h = (o.over, λ e. subst (λ k. ShowsServer k d) h (o.shows e))
Awaits-tail id x (y ∷ rest) c s d o h = Awaits-any id y rest c d h

-- The modal and the fields of its form changed only.
pub record IsLike (c d : Channels) : Type 0 where
  pub server_id : d.server_id ≡ c.server_id
  pub loading : d.loading ≡ c.loading
  pub error : d.error ≡ c.error
  pub server : d.server ≡ c.server
  pub channels : d.channels ≡ c.channels

pub like :
    (c d : Channels)
    → d.server_id ≡ c.server_id
    → d.loading ≡ c.loading
    → d.error ≡ c.error
    → d.server ≡ c.server
    → d.channels ≡ c.channels
    → IsLike c d
like c d a b e f g = record { server_id = a; loading = b; error = e; server = f; channels = g }

pub IsLike-Awaits :
    (c d : Channels) (id : String) (loads : List String)
    → IsLike c d
    → Awaits id loads c
    → Awaits id loads d
IsLike-Awaits c d id loads k h =
    Awaits-change id loads c d
      (λ a. (
        k.loading ∙ a.0,
        λ e.
            let i = a.1 (sym k.error ∙ e) in
            record {
              shown = i.shown;
              is_shown = k.server ∙ i.is_shown;
              named = i.named;
              listed = rw k.channels i.listed;
            },
      ))
      h
