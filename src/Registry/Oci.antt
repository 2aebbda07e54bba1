-- ===== src/Registry/Oci.antt =====
-- internal/infrastructure/registry/oci/manifest.go: manifests, and what may stand in a URL.
pub mod Digest
pub mod Client
use image_updater.Prelude.{
  ℕ, ◌+◌, ◌%◌, Bool, true, false, not, ◌&&◌, ◌||◌, List, [], ◌∷◌, Option, none, some, all,
  if◌then◌else◌,
}
use image_updater.Text.{Text, codes, text_eq, is_empty, has_byte, contains}
use image_updater.Text.Split.{cut}
use image_updater.Model.Errors.{plain, Result, ok, err, ◌>>=◌}
use image_updater.Model.Image.{ImageReference}

-- platform
pub record Platform : Type 0 where
  pub os : Text
  pub architecture : Text

-- descriptor; a size is a word of 64 bits in two's complement
pub record Descriptor : Type 0 where
  pub digest : Text
  pub size : ℕ
  pub platform : Option Platform

-- manifest; the config descriptor's digest is empty in an index
pub record Manifest : Type 0 where
  pub config_digest : Text
  pub layers : List Descriptor
  pub manifests : List Descriptor

-- descriptor.isAttestation
unfoldable pub is_attestation : Descriptor → Bool
unfolding text_eq
is_attestation d = elim d.platform [
  | none ↦ false
  | some p ↦ text_eq p.os (codes "unknown") || text_eq p.architecture (codes "unknown")
]

-- descriptor.isPreferredPlatform
unfoldable pub is_preferred_platform : Descriptor → Bool
unfolding text_eq
is_preferred_platform d = elim d.platform [
  | none ↦ false
  | some p ↦ text_eq p.os (codes "linux") && text_eq p.architecture (codes "amd64")
]

-- The loop of `imageDigest`, with the fallback.
unfoldable pub choose_digest : Text → List Descriptor → Text × Bool
unfolding is_empty is_attestation is_preferred_platform
choose_digest fallback [] = (fallback, not (is_empty fallback))
choose_digest fallback (entry ∷ entries) =
    let same = choose_digest fallback entries in
    let first = choose_digest entry.digest entries in
    if is_empty entry.digest || is_attestation entry
    then same
    else if is_preferred_platform entry
    then (entry.digest, true)
    else if is_empty fallback
    then first
    else same

-- manifest.imageDigest
unfoldable pub image_digest : Manifest → Text × Bool
unfolding is_empty choose_digest
image_digest m = if not (is_empty m.config_digest) then ([], false) else elim m.manifests [
  | [] ↦ ([], false)
  | entry ∷ entries ↦ choose_digest [] (entry ∷ entries)
]

-- The sum of some sizes.
unfoldable pub total_size : ℕ → List Descriptor → ℕ
total_size total [] = total
total_size total (layer ∷ layers) = total_size ((total + layer.size) % 0x10000000000000000) layers

-- manifest.size
unfoldable pub size : Manifest → ℕ
unfolding total_size
size m = total_size 0 m.layers

-- validatePathComponent; a rune that is not ASCII has no byte among those that are allowed
unfoldable pub validate_path_component : Text → Text → Text → Result (Unit {0})
unfolding is_empty has_byte contains
validate_path_component name value allowed =
    if is_empty value
    then err (plain (name ∷ []))
    else if has_byte 0 value
    then err (plain (name ∷ []))
    else if not (all (λ c. has_byte c allowed) value)
    then err (plain (name ∷ value ∷ []))
    else if contains (codes "..") value
    then err (plain (name ∷ value ∷ []))
    else ok tt

abbrev pub letters : Text
letters = codes "abcdefghijklmnopqrstuvwxyzABCDEFGHIJKLMNOPQRSTUVWXYZ0123456789._-"

abbrev pub repository_characters : Text
repository_characters = codes "abcdefghijklmnopqrstuvwxyzABCDEFGHIJKLMNOPQRSTUVWXYZ0123456789._-/"

abbrev pub algorithm_characters : Text
algorithm_characters = codes "abcdefghijklmnopqrstuvwxyz0123456789+.-_"

abbrev pub digest_characters : Text
digest_characters = codes "abcdefghijklmnopqrstuvwxyzABCDEFGHIJKLMNOPQRSTUVWXYZ0123456789=_-"

-- validateReference
unfoldable pub validate_reference : ImageReference → Result (Unit {0})
unfolding is_empty validate_path_component
validate_reference ref = if is_empty ref.host then err (plain []) else do
  _ ← validate_path_component (codes "repository") ref.repository repository_characters
  validate_path_component (codes "tag") ref.tag letters

-- validateDigest
unfoldable pub validate_digest : Text → Result (Unit {0})
unfolding cut validate_path_component
validate_digest digest =
    let (algorithm, encoded, found) = cut b':' digest in
    if not found then err (plain (digest ∷ [])) else do
      _ ← validate_path_component (codes "digest algorithm") algorithm algorithm_characters
      validate_path_component (codes "digest") encoded digest_characters
