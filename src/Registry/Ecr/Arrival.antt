-- ===== src/Registry/Ecr/Arrival.antt =====
-- internal/infrastructure/registry/ecr/decoder.go: which events `Decode` lets through.
use image_updater.Prelude.{
  Bool, true, false, not, ◌&&◌, ◌||◌, [], ◌∷◌, ◌≡◌, ◌⊎◌, inl, inr, Bool-cases, arith, refl,
}
use image_updater.Text.{Text, codes, is_empty}
use image_updater.Text.Utf8.{trim_space}
use image_updater.Model.Errors.{Error, plain, wrap, sentinel, event_ignored, is, ok, err}
use image_updater.Model.Image.{ImagePushEvent}
use image_updater.Registry.Ecr.{
  PushEvent, kind, equal_fold, is_arrival, host, repository_of, decode_event,
}

-- An event that says nothing else than that an image arrived.
unfoldable pub Arrived : PushEvent → Type 0
Arrived raw =
    ((raw.action_type ≡ []) ⊎ (is_arrival raw.action_type ≡ true))
    × ((raw.result ≡ []) ⊎ (equal_fold false raw.result (codes "SUCCESS") ≡ true))
    × (is_empty (repository_of raw.repository_name) ≡ false)
    × (is_empty (trim_space raw.image_tag) ≡ false)

-- The account and the region, and the event that is made of the payload.
unfoldable pub IsMade : PushEvent → ImagePushEvent → Type 0
IsMade raw event =
    (is_empty raw.account ≡ false)
    × (is_empty raw.region ≡ false)
    × (event.kind ≡ kind)
    × (event.host ≡ host raw.account raw.region)
    × (event.repository ≡ repository_of raw.repository_name)
    × (event.tag ≡ trim_space raw.image_tag)
    × (event.digest ≡ raw.image_digest)

absent-or : (s : Text) (b : Bool) → (not (is_empty s) && not b) ≡ false → (s ≡ []) ⊎ (b ≡ true)
unfolding is_empty
absent-or [] b h = inl refl
absent-or (c ∷ s) true h = inr refl
absent-or (c ∷ s) false h = absurd (cc h)

not-absent-or :
    (s : Text) (b : Bool) → (not (is_empty s) && not b) ≡ true → ¬ ((s ≡ []) ⊎ (b ≡ true))
unfolding is_empty
not-absent-or [] b h k = absurd (cc h)
not-absent-or (c ∷ s) true h k = absurd (cc h)
not-absent-or (c ∷ s) false h (inl e) = absurd (cc e)
not-absent-or (c ∷ s) false h (inr e) = absurd (cc e)

-- Every event falls under exactly one of three heads: it arrived, and is passed on as what its
-- payload says; it did not, and the error says to ignore it; or it arrived without an account or a
-- region, which is an error that does not.
pub decode_event-cases :
    (raw : PushEvent)
    → (Arrived raw × (event : ImagePushEvent) × (decode_event raw ≡ ok event) × IsMade raw event)
      ⊎ (((¬ Arrived raw) × (e : Error) × (decode_event raw ≡ err e) × (is e event_ignored ≡ true))
          ⊎ (Arrived raw
              × ((is_empty raw.account || is_empty raw.region) ≡ true)
              × (e : Error) × (decode_event raw ≡ err e)
              × (is e event_ignored ≡ false)))
unfolding decode_event Arrived IsMade is
decode_event-cases raw =
    elim (Bool-cases (not (is_empty raw.action_type) && not (is_arrival raw.action_type))) [
      | inl a ↦ inr (
          inl (
            (λ h. not-absent-or raw.action_type (is_arrival raw.action_type) a h.0),
            wrap (raw.action_type ∷ []) (sentinel event_ignored),
            rw a refl,
            refl,
          ))
      | inr a ↦
          elim (Bool-cases
            (not (is_empty raw.result) && not (equal_fold false raw.result (codes "SUCCESS")))) [
              | inl b ↦ inr (
                  inl (
                    (λ h.
                        not-absent-or raw.result (equal_fold false raw.result (codes "SUCCESS")) b
                          h.1),
                    wrap (raw.result ∷ []) (sentinel event_ignored),
                    rw (a, b) refl,
                    refl,
                  ))
              | inr b ↦
                  elim (Bool-cases (
                    is_empty (repository_of raw.repository_name)
                    || is_empty (trim_space raw.image_tag))) [
                      | inl c ↦ inr (
                          inl (
                            (λ h. ground (arith, c, h.2, h.3)),
                            wrap [] (sentinel event_ignored),
                            rw (a, b, c) refl,
                            refl,
                          ))
                      | inr c ↦
                          let arrived : Arrived raw = (
                            absent-or raw.action_type (is_arrival raw.action_type) a,
                            absent-or raw.result (equal_fold false raw.result (codes "SUCCESS")) b,
                            ground (arith, c),
                            ground (arith, c),
                          ) in
                          elim (Bool-cases (is_empty raw.account || is_empty raw.region)) [
                            | inl d ↦ inr (inr (arrived, d, plain [], rw (a, b, c, d) refl, refl))
                            | inr d ↦ inl (
                              arrived,
                              made,
                              rw (a, b, c, d) refl,
                              (ground (arith, d), ground (arith, d), refl, refl, refl, refl, refl),
                            )
                          ]
                    ]
            ]
    ]
  where
    made : ImagePushEvent
    made = record {
      kind = kind;
      host = host raw.account raw.region;
      repository = repository_of raw.repository_name;
      tag = trim_space raw.image_tag;
      digest = raw.image_digest;
    }
