-- ===== src/Patch/Paths.antt =====
-- internal/infrastructure/manifest/kustomize/patcher.go: `splitManifestPath` and
-- `matchesRecursiveManifestPath`.
pub mod Wildcard
use image_updater.Prelude.{
  ℕ, zero, suc, ◌-◌, ◌≡◌, refl, Bool, true, false, not, ◌&&◌, ◌||◌, List, [], ◌∷◌, if◌then◌else◌,
  length, ltb, ◌==◌,
}
use mathlib.Core.List.{reverse}
use image_updater.Text.{Text, codes, text_eq, is_empty, trim}
use image_updater.Text.Split.{split}

-- splitManifestPath
unfoldable pub split_manifest_path : Text → List Text
unfolding trim is_empty text_eq split
split_manifest_path raw =
    let value = trim (λ c. c == b'/') raw in
    if is_empty value || text_eq value (codes ".") then [] else split b'/' value

-- The comparison of the first so many segments; both lists have as many.
same_front : ℕ → List Text → List Text → Bool
unfolding text_eq
same_front zero pattern candidate = true
same_front (suc n) (p ∷ pattern) (c ∷ candidate) = text_eq p c && same_front n pattern candidate
same_front (suc n) _ _ = false

-- matchesRecursiveManifestPath; the second loop counts from the ends of the lists
unfoldable pub matches_recursive_manifest_path : List Text → List Text → ℕ → Bool
unfolding same_front
matches_recursive_manifest_path pattern candidate wildcard =
    if ltb (length candidate) (length pattern - 1)
    then false
    else if not (same_front wildcard pattern candidate)
    then false
    else same_front (length pattern - wildcard - 1) (reverse pattern) (reverse candidate)
