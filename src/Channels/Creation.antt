-- ===== src/Channels/Creation.antt =====
-- ChannelSidebar.tsx, `handleCreate`: where a new channel shows.
use concordia_chat_app.Prelude.{
  ◌≡◌, refl, ap, ◌∙◌, inl, inr, Bool, true, false, not, some, [], ◌∷◌, ◌++◌, arith,
}
use concordia_chat_app.Prelude.Lists.{filter, filter-append}
use concordia_chat_app.Prelude.Tests.{Bool-cases, eqb, if◌then◌else◌}
use concordia_chat_app.Http.{Response, is_ok}
use concordia_chat_app.Channels.{
  Channel, Channels, is_text, finish_create, text_channels, voice_channels,
}

filter-one : (p : Channel → Bool) (c : Channel) → filter p (c ∷ []) ≡ (if p c then c ∷ [] else [])
unfolding filter
filter-one p c = elim (Bool-cases (p c)) [
  | inl e ↦ rw (e, filter) refl
  | inr e ↦ rw (e, filter) refl
]

filter-one_not :
    (c : Channel) → filter (λ d. not (is_text d)) (c ∷ []) ≡ (if is_text c then [] else c ∷ [])
unfolding filter
filter-one_not c = elim (Bool-cases (is_text c)) [
  | inl e ↦ rw (e, filter) refl
  | inr e ↦ rw (e, filter) refl
]

-- A channel that a good reply brings comes last among those of its own type, the channels of the
-- other type stay as they were, the modal is closed and the creation is over.
pub finish_create_shown :
    (r : Response Channel) (created : Channel) (s : Channels)
    → is_ok r ≡ true
    → r.json ≡ some created
    → let t = finish_create (some r) s in
      (text_channels t ≡ text_channels s ++ (if is_text created then created ∷ [] else []))
      × (voice_channels t ≡ voice_channels s ++ (if is_text created then [] else created ∷ []))
      × (t.modal_open ≡ false)
      × (t.creating ≡ false)
unfolding finish_create text_channels voice_channels
finish_create_shown r created s good body =
    let allowed : eqb r.status 403 ≡ false = ground arith in
    rw (allowed, good, body)
      (
        filter-append is_text s.channels (created ∷ [])
            ∙ ap (λ l. filter is_text s.channels ++ l) (filter-one is_text created),
        filter-append (λ c. not (is_text c)) s.channels (created ∷ [])
            ∙ ap (λ l. filter (λ c. not (is_text c)) s.channels ++ l) (filter-one_not created),
        refl,
        refl,
      )
