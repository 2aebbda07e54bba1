-- ===== src/Manifest/Document.antt =====
-- internal/model/manifest.go: `ImageManifestDocument` and `Upsert`.
pub mod Keys
use image_updater.Prelude.{
  Bool, true, false, List, [], ◌∷◌, ◌++◌, Option, find, if◌then◌else◌, sort_by,
}
use image_updater.Text.{Text, codes, text_eq}
use image_updater.Text.Order.{text_lt}
use image_updater.Label.Labels.{ImageManifest}

-- ImageManifestDocument
pub record ImageManifestDocument : Type 0 where
  pub schema_version : Text
  pub generator : Text
  pub images : List ImageManifest

-- ImageManifestSchemaVersion
abbrev pub image_manifest_schema_version : Text
image_manifest_schema_version = codes "v1"

-- ImageManifestGenerator
abbrev pub image_manifest_generator : Text
image_manifest_generator = codes "image-updater"

-- d.Images[i].Image < d.Images[j].Image
unfoldable pub image_lt : ImageManifest → ImageManifest → Bool
unfolding text_lt
image_lt a b = text_lt a.image b.image

-- The loop of `Upsert`: the entries with the first one of the image replaced, and whether there was
-- one.
unfoldable pub replace_first : ImageManifest → List ImageManifest → List ImageManifest × Bool
unfolding text_eq
replace_first manifest [] = ([], false)
replace_first manifest (entry ∷ entries) =
    let (rest, replaced) = replace_first manifest entries in
    if text_eq entry.image manifest.image
    then (manifest ∷ entries, true)
    else (entry ∷ rest, replaced)

-- The document with its version and generator set, as `Upsert` and the rendering do first.
abbrev pub stamp : ImageManifestDocument → ImageManifestDocument
stamp d = record d {
  schema_version = image_manifest_schema_version;
  generator = image_manifest_generator;
}

-- The entries before they are sorted.
unfoldable pub placed : ImageManifest → List ImageManifest → List ImageManifest
unfolding replace_first
placed manifest images =
    let (entries, replaced) = replace_first manifest images in
    if replaced then entries else images ++ manifest ∷ []

-- ImageManifestDocument.Upsert
unfoldable pub upsert : ImageManifestDocument → ImageManifest → ImageManifestDocument
unfolding placed sort_by image_lt
upsert d manifest = record (stamp d) { images = sort_by image_lt (placed manifest d.images) }
