-- ===== src/Registry/Oci/Digest.antt =====
-- internal/infrastructure/registry/oci/manifest.go: which manifest of an index is read.
use image_updater.Prelude.{
  ◌≡◌, refl, ◌∙◌, Bool, true, false, not, ◌&&◌, ◌||◌, List, [], ◌∷◌, Option, none, some, find, inl,
  inr, Bool-cases, arith, if◌then◌else◌,
}
use image_updater.Text.{Text, is_empty}
use image_updater.Registry.Oci.{
  Descriptor, Manifest, is_attestation, is_preferred_platform, choose_digest, image_digest,
}

-- An entry that can be read: it has a digest and is no attestation.
unfoldable pub is_readable : Descriptor → Bool
unfolding is_empty is_attestation
is_readable d = not (is_empty d.digest || is_attestation d)

-- The digest of an entry that was found.
unfoldable pub or_digest : Option Descriptor → Text × Bool → Text × Bool
or_digest none other = other
or_digest (some d) other = (d.digest, true)

-- The first entry that can be read of the preferred platform, else the first that can be read.
unfoldable pub preferred_digest : List Descriptor → Text × Bool
unfolding is_readable or_digest
preferred_digest ds =
    or_digest (find (λ d. is_readable d && is_preferred_platform d) ds)
      (or_digest (find is_readable ds) ([], false))

choose_digest-fallback :
    (fallback : Text) (ds : List Descriptor)
    → choose_digest fallback ds
      ≡ or_digest (find (λ d. is_readable d && is_preferred_platform d) ds) (
          if is_empty fallback
          then or_digest (find is_readable ds) ([], false)
          else (fallback, true))
unfolding choose_digest or_digest is_readable
choose_digest-fallback [] [] = refl
choose_digest-fallback (c ∷ s) [] = refl
choose_digest-fallback fallback (d ∷ ds) =
    elim (Bool-cases (is_empty d.digest || is_attestation d)) [
      | inl e ↦ rw (e, choose_digest) (choose_digest-fallback fallback ds)
      | inr e ↦ elim (Bool-cases (is_preferred_platform d)) [
        | inl p ↦ rw (e, p, choose_digest) refl
        | inr p ↦ elim (Bool-cases (is_empty fallback)) [
          | inl f ↦ rw (e, p, f) (choose_digest-fallback d.digest ds ∙ taken ds (ground (arith, e)))
          | inr f ↦ rw (e, p, f) (choose_digest-fallback fallback ds ∙ kept ds f)
        ]
      ]
    ]
  where
    best : List Descriptor → Option Descriptor
    best ds = find (λ d. is_readable d && is_preferred_platform d) ds

    taken :
        (ds : List Descriptor)
        → is_empty d.digest ≡ false
        → or_digest (best ds) (
            if is_empty d.digest
            then or_digest (find is_readable ds) ([], false)
            else (d.digest, true))
          ≡ or_digest (best ds) (d.digest, true)
    taken ds h = rw h refl

    kept :
        (ds : List Descriptor)
        → is_empty fallback ≡ false
        → or_digest (best ds) (
            if is_empty fallback
            then or_digest (find is_readable ds) ([], false)
            else (fallback, true))
          ≡ or_digest (best ds) (fallback, true)
    kept ds h = rw h refl

-- Of a manifest with a config, or without entries, no digest is chosen. Of an index, that of the first
-- entry for linux/amd64 that has a digest and is no attestation; if there is none, that of the first
-- entry that has a digest and is no attestation; and if there is none either, nothing.
pub image_digest-preferred :
    (m : Manifest)
    → image_digest m
      ≡ (if is_empty m.config_digest then preferred_digest m.manifests else ([], false))
unfolding image_digest preferred_digest
image_digest-preferred m = elim (Bool-cases (is_empty m.config_digest)) [
  | inr e ↦ rw e refl
  | inl e ↦ rw e (of_index m.manifests)
]
  where
    of_index :
        (ds : List Descriptor)
        → elim ds [ [] ↦ ([], false) | entry ∷ entries ↦ choose_digest [] (entry ∷ entries) ]
          ≡ preferred_digest ds
    of_index [] = refl
    of_index (d ∷ ds) = choose_digest-fallback [] (d ∷ ds)
