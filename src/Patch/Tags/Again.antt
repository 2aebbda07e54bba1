-- ===== src/Patch/Tags/Again.antt =====
-- internal/infrastructure/manifest/kustomize/patcher.go: `replaceTag` made twice.
use image_updater.Prelude.{◌≡◌, refl, List, [], ◌∷◌, arith, ℕ, suc}
use image_updater.Text.{Text, text_eq_refl}
use image_updater.Model.Errors.{ok}
use image_updater.Patch.Tags.{
  ImageEntry, tag_identifier, replace_entry, replace_entries, replace_tag, changed_from,
  changed_new_tags,
}

module _ (image new_tag : Text) where
  replace_entry-twice :
      (e : ImageEntry)
      → replace_entry image new_tag (replace_entry image new_tag e).0
        ≡ replace_entry image new_tag e
  unfolding replace_entry
  replace_entry-twice e =
      ground (arith, text_eq_refl (tag_identifier new_tag), text_eq_refl new_tag)

  replace_entries-twice :
      (es : List ImageEntry)
      → replace_entries image new_tag (replace_entries image new_tag es).0
        ≡ replace_entries image new_tag es
  unfolding replace_entries
  replace_entries-twice [] = refl
  replace_entries-twice (e ∷ es) = rw (replace_entry-twice e, replace_entries-twice es)

changed_from-same : (i : ℕ) (es : List ImageEntry) → changed_from i es es ≡ []
unfolding changed_from
changed_from-same i [] = refl
changed_from-same i (e ∷ es) = rw (text_eq_refl e.new_tag, changed_from-same (suc i) es)

-- A change of tags that succeeded and is made again succeeds, and changes no entry, so that a push
-- that is delivered twice makes no second commit.
pub replace_tag-again :
    (images : List ImageEntry) (image new_tag : Text) {updated : List ImageEntry}
    → replace_tag images image new_tag ≡ ok updated
    → (replace_tag updated image new_tag ≡ ok updated) × (changed_new_tags updated updated ≡ [])
unfolding replace_tag changed_new_tags
replace_tag-again images image new_tag {updated} h =
    (ground (arith, replace_entries-twice image new_tag images, h), changed_from-same 0 updated)
