-- ===== src/Patch/File/Outcome.antt =====
-- internal/infrastructure/manifest/kustomize/patcher.go: what `Patch` writes and how it fails.
use image_updater.Prelude.{
  ℕ, ◌≤◌, ◌≡◌, ◌⊎◌, inl, inr, refl, sym, ap, Bool, true, false, not, ◌||◌, List, [], ◌∷◌, Option,
  none, some, Bool-cases, ltb, length, arith, if◌then◌else◌,
}
use image_updater.Text.{Text}
use image_updater.Model.Errors.{
  Error, plain, wrap, sentinel, invalid_manifest, image_not_managed, no_difference, is, Result, ok,
  err, is_ok, ◌>>=◌, Result-cases,
}
use image_updater.Updater.Ports.{ImageUpdate}
use image_updater.Updater.Apply.{is_stable_patch_error}
use image_updater.Patch.Tags.{ImageEntry, replace_tag, replace_entries, changed_new_tags}
use image_updater.Patch.Yaml.{YamlLibrary}
use image_updater.Patch.Document.{Document, parse, bytes, set_new_tags}
use image_updater.Patch.File.{
  Files, Stat, Patcher, FileInfo, missing, failed, found, file_name, max_manifest_size, with_block,
  invalid, set_changed, retagged, patched, read_file_limited, inspect, prepared, patch,
}

-- An error that `Patch` names: nothing of it changes by another try.
pub IsNamed : Error → Type 0
IsNamed e = (is_stable_patch_error e ≡ true) ⊎ (is e no_difference ≡ true)

invalid-IsNamed :
    {A : Type 0} (quoted : List Text) (r : Result A) {e : Error}
    → invalid quoted r ≡ err e
    → IsNamed e
unfolding invalid IsNamed is_stable_patch_error is
invalid-IsNamed quoted (ok a) h = absurd (cc h)
invalid-IsNamed {A = A} quoted (err d) h = inl (ap is_stable_patch_error (sym (same h)))
  where
    same : {x y : Error} → ◌≡◌ {A = Result A} (err x) (err y) → x ≡ y
    same e = cc e

replace_tag-IsNamed :
    (images : List ImageEntry) (image new_tag : Text) {e : Error}
    → replace_tag images image new_tag ≡ err e
    → IsNamed e
unfolding replace_tag IsNamed is_stable_patch_error is
replace_tag-IsNamed images image new_tag {e} h =
    elim (Bool-cases (replace_entries image new_tag images).1) [
      | inl f ↦ absurd (ground (arith, f, h))
      | inr f ↦ inl (ap is_stable_patch_error (sym (same (ground (arith, f, h)))))
    ]
  where
    same :
        ◌≡◌ {A = Result (List ImageEntry)}
          (err (wrap (image ∷ []) (sentinel image_not_managed)))
          (err e)
        → wrap (image ∷ []) (sentinel image_not_managed) ≡ e
    same e = cc e

err-of_>>= :
    {A B : Type 0} (r : Result A) (f : A → Result B) {e : Error}
    → (r >>= f) ≡ err e
    → (r ≡ err e) ⊎ ((a : A) × (r ≡ ok a) × (f a ≡ err e))
err-of_>>= (ok a) f h = inr (a, refl, h)
err-of_>>= (err d) f h = inl (cc h)

set_changed-IsNamed :
    (yaml : YamlLibrary) (d : Document) (new_tag : Text) (changes : List (ℕ × Text)) {e : Error}
    → set_changed yaml d new_tag changes ≡ err e
    → IsNamed e
unfolding set_changed IsNamed is
set_changed-IsNamed yaml d new_tag [] h = inr (ap (λ e. is e no_difference) (sym (same h)))
  where
    same : {x y : Error} → ◌≡◌ {A = Result Document} (err x) (err y) → x ≡ y
    same e = cc e
set_changed-IsNamed yaml d new_tag (c ∷ cs) h = invalid-IsNamed [] (set_new_tags yaml d (c ∷ cs)) h

retagged-IsNamed :
    (p : Patcher) (path content image new_tag : Text) {e : Error}
    → retagged p path content image new_tag ≡ err e
    → IsNamed e
unfolding retagged
retagged-IsNamed p path content image new_tag h =
    elim (err-of_>>= (invalid (path ∷ []) (parse p.library content)) _ h) [
      | inl f ↦ invalid-IsNamed (path ∷ []) (parse p.library content) f
      | inr (doc, e, f) ↦ elim (err-of_>>= (replace_tag doc.images image new_tag) _ f) [
        | inl g ↦ replace_tag-IsNamed doc.images image new_tag g
        | inr (updated, k, g) ↦
            set_changed-IsNamed p.library doc new_tag (changed_new_tags doc.images updated) g
      ]
    ]

-- Every error of the edits has a name, whatever the file holds: the update is never tried again because
-- of them.
pub patched-IsNamed :
    (p : Patcher) (path content : Text) (update : ImageUpdate) {e : Error}
    → patched p path content update ≡ err e
    → IsNamed e
unfolding patched
patched-IsNamed p path content update h =
    elim (err-of_>>= (retagged p path content update.image update.new_tag)
      (λ doc. ok (bytes (with_block p doc update))) h) [
        | inr (doc, e, f) ↦ absurd (cc f)
        | inl f ↦ retagged-IsNamed p path content update.image update.new_tag f
      ]

-- Whether the edits succeed does not depend on the block of metadata.
pub patched-without_block :
    (p : Patcher) (path content : Text) (update : ImageUpdate)
    → is_ok (patched p path content update)
      ≡ is_ok (patched p path content (record update { manifest = none }))
unfolding patched with_block
patched-without_block p path content update =
    go (retagged p path content update.image update.new_tag)
  where
    go :
        (r : Result Document)
        → is_ok (r >>= λ doc. ok (bytes (with_block p doc update)))
          ≡ is_ok (r >>= λ doc. ok (bytes (with_block p doc (record update { manifest = none }))))
    go (ok doc) = refl
    go (err e) = refl

-- The file that was found is one that is edited.
pub IsFile : Stat → Type 0
IsFile s =
    (info : FileInfo) × (s ≡ found info) × (info.is_symlink ≡ false) × (info.is_regular ≡ true)

inspect-cases :
    (path : Text) (s : Stat)
    → ((e : Error) × (inspect path s ≡ err e) × (IsNamed e ⊎ (s ≡ failed)))
      ⊎ ((inspect path s ≡ ok tt) × IsFile s)
unfolding inspect IsNamed is_stable_patch_error is IsFile
inspect-cases path missing = inl (_, refl, inl (inl refl))
inspect-cases path failed = inl (_, refl, inr refl)
inspect-cases path (found info) = elim (Bool-cases (info.is_symlink || not info.is_regular)) [
  | inl e ↦ inl (wrap (path ∷ []) (sentinel invalid_manifest), rw e refl, inl (inl refl))
  | inr e ↦ elim (Bool-cases (ltb max_manifest_size info.size)) [
    | inl k ↦ inl (wrap (path ∷ []) (sentinel invalid_manifest), rw (e, k) refl, inl (inl refl))
    | inr k ↦ inr (rw (e, k) refl, (info, refl, ground (arith, e), ground (arith, e)))
  ]
]

read-cases :
    (path : Text) (o : Option Text)
    → ((e : Error) × (read_file_limited path max_manifest_size o ≡ err e)
        × (IsNamed e ⊎ (o ≡ none)))
      ⊎ ((content : Text) × (read_file_limited path max_manifest_size o ≡ ok content)
          × (o ≡ some content)
          × (length content ≤ max_manifest_size))
unfolding read_file_limited IsNamed is_stable_patch_error is
read-cases path none = inl (_, refl, inr refl)
read-cases path (some content) = elim (Bool-cases (ltb max_manifest_size (length content))) [
  | inl e ↦ inl (wrap (path ∷ []) (sentinel invalid_manifest), rw e refl, inl (inl refl))
  | inr e ↦ inr (content, rw e refl, refl, ground (arith, e))
]

-- Why nothing was prepared: an error with a name, or the file system.
pub Fails : Files → Text → Error → Type 0
Fails files path e = IsNamed e ⊎ ((files.lstat path ≡ failed) ⊎ (files.contents path ≡ none))

-- A text was prepared from a file that is not too large.
pub IsPrepared : Patcher → Files → Text → ImageUpdate → Text → Type 0
IsPrepared p files path update text =
    (content : Text) × IsFile (files.lstat path)
    × (files.contents path ≡ some content)
    × (length content ≤ max_manifest_size)
    × (patched p path content update ≡ ok text)

prepared-cases :
    (p : Patcher) (files : Files) (path : Text) (update : ImageUpdate)
    → ((e : Error) × (prepared p files path update ≡ err e) × Fails files path e)
      ⊎ ((text : Text) × (prepared p files path update ≡ ok text)
          × IsPrepared p files path update text)
unfolding prepared Fails IsPrepared
prepared-cases p files path update = elim (inspect-cases path (files.lstat path)) [
  | inl (e, h, inl k) ↦ inl (e, rw h refl, inl k)
  | inl (e, h, inr k) ↦ inl (e, rw h refl, inr (inl k))
  | inr (h, is_file) ↦ elim (read-cases path (files.contents path)) [
    | inl (e, g, inl k) ↦ inl (e, rw (h, g) refl, inl k)
    | inl (e, g, inr k) ↦ inl (e, rw (h, g) refl, inr (inr k))
    | inr (content, g, same, fits) ↦ elim (Result-cases (patched p path content update)) [
      | inl (e, k) ↦ inl (e, rw (h, g) k, inl (patched-IsNamed p path content update k))
      | inr (text, k) ↦ inr (text, rw (h, g) k, (content, is_file, same, fits, k))
    ]
  ]
]

-- A failure of Patch in front of the write has a name, or the file could not be inspected or read, and
-- nothing is written then. Otherwise one file is written, with the edited text of a regular file that is
-- not too large, and Patch succeeds exactly if the write does.
pub patch-writes :
    (p : Patcher) (files : Files) (dir : Text) (update : ImageUpdate)
    → ((e : Error) × (patch p files dir update ≡ (err e, []))
        × Fails files (files.join_path dir file_name) e)
      ⊎ ((text : Text) × IsPrepared p files (files.join_path dir file_name) update text
          × ((patch p files dir update).1 ≡ (files.join_path dir file_name, text) ∷ [])
          × (is_ok (patch p files dir update).0
              ≡ files.can_write (files.join_path dir file_name) text))
unfolding patch
patch-writes p files dir update =
    elim (prepared-cases p files (files.join_path dir file_name) update) [
      | inl (e, h, why) ↦ inl (e, rw (h, patch) refl, why)
      | inr (text, h, made) ↦ inr (
        text,
        made,
        rw (h, patch) refl,
        rw (h, patch) (written (files.can_write (files.join_path dir file_name) text)),
      )
    ]
  where
    written :
        (b : Bool)
        → is_ok {Value = Unit {0}}
            (if b then ok tt else err (plain (files.join_path dir file_name ∷ [])))
          ≡ b
    written true = refl
    written false = refl
