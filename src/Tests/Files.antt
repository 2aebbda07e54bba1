-- ===== src/Tests/Files.antt =====
-- Runs of the patcher on a file system with one file.
use image_updater.Prelude.{◌≡◌, ◌⊎◌, refl, true, false, [], ◌∷◌, ◌++◌, none, some, insert_by}
use image_updater.Text.{Text, codes}
use image_updater.Model.Errors.{Error, sentinel, wrap, no_difference, ok, err, is_ok}
use image_updater.Updater.Ports.{ImageUpdate}
use image_updater.Patch.File.{Files, Patcher, found, patched, patch}
use image_updater.Patch.File.Outcome.{Fails, IsPrepared, patch-writes}
use image_updater.Tests.Blocks.{api_manifest, two_lines, one_file, file_text}

abbrev patcher : Patcher
patcher = record { indent = 2; library = one_file; blocks = two_lines }

abbrev files : Files
files = record {
  join_path = λ dir name. dir ++ b'/' ∷ name;
  lstat = λ path. found (record { is_symlink = false; is_regular = true; size = 50 });
  contents = λ path. some file_text;
  can_write = λ path text. true;
}

abbrev update_to : Text → ImageUpdate
update_to tag = record {
  image = codes "ghcr.io/acme/api";
  new_tag = tag;
  manifest = some api_manifest;
}

written_text :
    patched patcher (codes "k") file_text (record (update_to (codes "v2")) { manifest = none })
    ≡ ok (codes "# head\nimages:\n- name: acme/api\n  newTag: v2 # tag\n")
unfolding patched insert_by
written_text = refl

unchanged :
    patched patcher (codes "k") file_text (update_to (codes "v1"))
    ≡ err (wrap (codes "v1" ∷ []) (sentinel no_difference))
unfolding patched insert_by
unchanged = refl

patch-writes_example :
    ((e : Error) × (patch patcher files (codes "apps") (update_to (codes "v2")) ≡ (err e, []))
      × Fails files (codes "apps/kustomization.yaml") e)
    ⊎ ((text : Text) × IsPrepared patcher files
          (codes "apps/kustomization.yaml")
          (update_to (codes "v2"))
          text
        × ((patch patcher files (codes "apps") (update_to (codes "v2"))).1
            ≡ (codes "apps/kustomization.yaml", text) ∷ [])
        × (is_ok (patch patcher files (codes "apps") (update_to (codes "v2"))).0 ≡ true))
patch-writes_example = patch-writes patcher files (codes "apps") (update_to (codes "v2"))
