-- ===== src/Patch/File.antt =====
-- internal/infrastructure/manifest/kustomize/patcher.go: `Patch` and `readFileLimited`.
pub mod Outcome
use image_updater.Prelude.{
  ℕ, Bool, true, false, not, ◌&&◌, ◌||◌, List, [], ◌∷◌, Option, none, some, ltb, length,
  if◌then◌else◌,
}
use image_updater.Text.{Text, codes}
use image_updater.Model.Errors.{
  Error, plain, wrap, sentinel, manifest_not_found, invalid_manifest, no_difference, Result, ok,
  err, ◌>>=◌,
}
use image_updater.Manifest.Comment.{Yaml, is_valid_indent}
use image_updater.Updater.Ports.{ImageUpdate}
use image_updater.Patch.Tags.{replace_tag, changed_new_tags}
use image_updater.Patch.Yaml.{YamlLibrary}
use image_updater.Patch.Document.{Document, parse, bytes, set_new_tags}
use image_updater.Patch.Block.{upsert_image_manifest}

-- fs.FileInfo
pub record FileInfo : Type 0 where
  pub is_symlink : Bool
  pub is_regular : Bool
  pub size : ℕ

-- What `os.Lstat` returns.
pub data Stat : Type 0 where
  missing failed : Stat
  found : FileInfo → Stat

-- The file system: `filepath.Join`, `os.Lstat`, what a file holds when it is read, and whether
-- `os.WriteFile` succeeds.
pub record Files : Type 0 where
  pub join_path : Text → Text → Text
  pub lstat : Text → Stat
  pub contents : Text → Option Text
  pub can_write : Text → Text → Bool

-- Patcher, with the two YAML libraries that it uses
pub record Patcher : Type 0 where
  pub indent : ℕ
  pub library : YamlLibrary
  pub blocks : Yaml

-- FileName
abbrev pub file_name : Text
file_name = codes "kustomization.yaml"

-- maxManifestSize
abbrev pub max_manifest_size : ℕ
max_manifest_size = 8388608

-- The edits of `Patch` on a document whose tags were set: the block is a convenience.
unfoldable pub with_block : Patcher → Document → ImageUpdate → Document
unfolding upsert_image_manifest
with_block p d update = elim update.manifest [
  | none ↦ d
  | some m ↦ elim (upsert_image_manifest p.blocks d m p.indent) [ err _ ↦ d | ok edited ↦ edited ]
]

-- fmt.Errorf("%w: …: %v", model.ErrInvalidManifest, …) around the error of a step
unfoldable pub invalid : {A : Type 0} → List Text → Result A → Result A
invalid quoted (ok a) = ok a
invalid quoted (err e) = err (wrap quoted (sentinel invalid_manifest))

-- The new tags are written, if there are any.
unfoldable pub set_changed : YamlLibrary → Document → Text → List (ℕ × Text) → Result Document
unfolding set_new_tags invalid
set_changed yaml d new_tag [] = err (wrap (new_tag ∷ []) (sentinel no_difference))
set_changed yaml d new_tag (change ∷ changes) = invalid [] (set_new_tags yaml d (change ∷ changes))

-- `Patch` from the contents of the file to the document with its new tags.
unfoldable pub retagged : Patcher → Text → Text → Text → Text → Result Document
unfolding parse replace_tag changed_new_tags set_changed invalid
retagged p path content image new_tag = do
  doc ← invalid (path ∷ []) (parse p.library content)
  updated ← replace_tag doc.images image new_tag
  set_changed p.library doc new_tag (changed_new_tags doc.images updated)

-- `Patch` from the contents of the file to the text that is written.
unfoldable pub patched : Patcher → Text → Text → ImageUpdate → Result Text
unfolding retagged with_block bytes
patched p path content update = do
  doc ← retagged p path content update.image update.new_tag
  ok (bytes (with_block p doc update))

-- readFileLimited, as `Patch` reports it, on what the file holds
unfoldable pub read_file_limited : Text → ℕ → Option Text → Result Text
read_file_limited path limit none = err (plain (path ∷ []))
read_file_limited path limit (some content) =
    if ltb limit (length content)
    then err (wrap (path ∷ []) (sentinel invalid_manifest))
    else ok content

-- The checks of `Patch` in front of the reading.
unfoldable pub inspect : Text → Stat → Result (Unit {0})
inspect path missing = err (wrap (path ∷ []) (sentinel manifest_not_found))
inspect path failed = err (plain (path ∷ []))
inspect path (found info) =
    if info.is_symlink || not info.is_regular
    then err (wrap (path ∷ []) (sentinel invalid_manifest))
    else if ltb max_manifest_size info.size
    then err (wrap (path ∷ []) (sentinel invalid_manifest))
    else ok tt

-- What `Patch` writes.
unfoldable pub prepared : Patcher → Files → Text → ImageUpdate → Result Text
unfolding inspect read_file_limited patched
prepared p files path update = do
  _ ← inspect path (files.lstat path)
  content ← read_file_limited path max_manifest_size (files.contents path)
  patched p path content update

-- Patcher.Patch, with the files that it writes
unfoldable pub patch : Patcher → Files → Text → ImageUpdate → Result (Unit {0}) × List (Text × Text)
unfolding prepared
patch p files dir update =
    let path = files.join_path dir file_name in
    elim (prepared p files path update) [
      | err e ↦ (err e, [])
      | ok text ↦
          (if files.can_write path text then ok tt else err (plain (path ∷ [])), (path, text) ∷ [])
    ]
