-- ===== src/Updater/Targets/Failure.antt =====
-- internal/application/updater/service.go: the error of `normalizeManifestTargets`.
use image_updater.Prelude.{◌≡◌, refl, Bool, true, List, [], ◌∷◌, arith, sort_by}
use image_updater.Text.{Text}
use image_updater.Model.Errors.{Error, Result, ok, err, is, incomplete_rule}
use image_updater.Updater.Types.{ManifestTarget}
use image_updater.Updater.Targets.{
  target_lt, unique_from, unique, prepend, normalize_manifest_targets,
}

-- A result without an error, or with one that wraps ErrIncompleteRule.
abbrev incomplete_or_ok : {A : Type 0} → Result A → Bool
unfolding is
incomplete_or_ok (ok a) = true
incomplete_or_ok (err e) = is e incomplete_rule

prepend-incomplete :
    (t : ManifestTarget) (r : Result (List ManifestTarget))
    → incomplete_or_ok r ≡ true
    → incomplete_or_ok (prepend t r) ≡ true
unfolding prepend incomplete_or_ok
prepend-incomplete t (ok x) k = refl
prepend-incomplete t (err e) k = k

unique_from-incomplete :
    (url : Text) (t : ManifestTarget) (ts : List ManifestTarget)
    → incomplete_or_ok (unique_from url t ts) ≡ true
unfolding unique_from is incomplete_or_ok
unique_from-incomplete url t [] = refl
unique_from-incomplete url t (u ∷ ts) = ground (
  arith,
  unique_from-incomplete url t ts,
  prepend-incomplete t (unique_from url u ts) (unique_from-incomplete url u ts),
)

unique-incomplete :
    (url : Text) (ts : List ManifestTarget) → incomplete_or_ok (unique url ts) ≡ true
unfolding unique incomplete_or_ok
unique-incomplete url [] = refl
unique-incomplete url (t ∷ ts) = unique_from-incomplete url t ts

-- An error of the normalisation wraps ErrIncompleteRule.
pub is-normalize_manifest_targets :
    (url : Text) (ts : List ManifestTarget) {e : Error}
    → normalize_manifest_targets url ts ≡ err e
    → is e incomplete_rule ≡ true
unfolding normalize_manifest_targets incomplete_or_ok
is-normalize_manifest_targets url ts h =
    ground (arith, unique-incomplete url (sort_by target_lt ts), h)
