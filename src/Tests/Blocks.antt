-- ===== src/Tests/Blocks.antt =====
-- A kustomization file with a block, and what the development says of it.
use image_updater.Prelude.{
  ℕ, ◌≡◌, ◌<◌, refl, true, List, [], ◌∷◌, ◌++◌, some, arith, if◌then◌else◌, insert_by, IsSorted,
}
use image_updater.Text.{Text, codes, text_eq}
use image_updater.Model.Errors.{ok}
use image_updater.Label.Labels.{ImageManifest}
use image_updater.Manifest.Document.{ImageManifestDocument, upsert, image_lt}
use image_updater.Manifest.Document.Keys.{entry_of, entry_of-upsert}
use image_updater.Manifest.Comment.{
  Yaml, render_image_manifest_comment, parse_image_manifest_comment,
}
use image_updater.Manifest.Comment.RoundTrip.{with_margin, parse-render_image_manifest_comment}
use image_updater.Patch.Yaml.{
  scalar, sequence, mapping, plain_style, Mark, Node, node, Nodes, nil, cons, YamlLibrary,
}
use image_updater.Patch.Scalar.{is_safe_plain_scalar}
use image_updater.Patch.Document.{Document, parse, bytes, replace_scalar}
use image_updater.Patch.Document.Lines.{bytes-parse}
use image_updater.Patch.Document.Replace.{OneLine, replace_scalar-frame}
use image_updater.Patch.Document.Replace.Again.{replace_scalar-replace_scalar}
use image_updater.Patch.Block.{shift_nodes, upsert_image_manifest, existing, block_in}
use image_updater.Patch.Block.Upsert.{
  written, Framed, upsert_image_manifest-Framed, upsert_image_manifest-idempotent,
}

abbrev pub api_manifest : ImageManifest
api_manifest = record {
  image = codes "acme/api";
  github_repo = [];
  git_sha = codes "0a1b";
  commit_url = [];
  built_at = [];
  build_run_url = [];
  extra = [];
}

-- The document of a block with one image.
abbrev one_document : ImageManifestDocument
one_document = record {
  schema_version = codes "v1";
  generator = codes "image-updater";
  images = api_manifest ∷ [];
}

-- An encoder that writes two lines for every document, and reads one document.
abbrev pub two_lines : Yaml
two_lines = record {
  encode = λ indent d. some (codes "schemaVersion: v1\nimages: 1\n");
  decode = λ text. some one_document;
}

abbrev mark_at : Text → ℕ → ℕ → Mark
mark_at value line column = record {
  kind = scalar;
  value = value;
  style = plain_style;
  line = line;
  column = column;
}

abbrev pub file_text : Text
file_text = codes "# head\nimages:\n- name: acme/api\n  newTag: v1 # tag\n"

abbrev pub file_lines : List Text
file_lines =
    codes "# head" ∷ codes "images:" ∷ codes "- name: acme/api" ∷ codes "  newTag: v1 # tag" ∷ []

-- The syntax tree of the text.
abbrev item_nodes : Nodes
item_nodes =
    cons
      (node (record (mark_at [] 3 3) { kind = mapping })
        (cons (node (mark_at (codes "name") 3 3) nil) (
          cons (node (mark_at (codes "acme/api") 3 9) nil) (
            cons (node (mark_at (codes "newTag") 4 3) nil)
              (cons (node (mark_at (codes "v1") 4 11) nil) nil)))))
      nil

abbrev root_node : Node
root_node =
    node (record (mark_at [] 1 1) { kind = mapping })
      (cons
        (node (record (mark_at [] 2 1) { kind = mapping })
          (cons (node (mark_at (codes "images") 2 1) nil)
            (cons (node (record (mark_at [] 3 1) { kind = sequence }) item_nodes) nil)))
        nil)

abbrev pub one_file : YamlLibrary
one_file = record {
  unmarshal = λ text. some root_node;
  decode_images = λ n. some (record { name = codes "acme/api"; new_tag = codes "v1" } ∷ []);
  reads_string = λ text. true;
  quote = λ text. text;
}

abbrev file_document : Document
file_document = record {
  lines = file_lines;
  has_trailing_newline = true;
  images_key_line = 2;
  images_indent = 0;
  image_nodes = item_nodes;
  images = record { name = codes "acme/api"; new_tag = codes "v1" } ∷ [];
}

parsed : parse one_file file_text ≡ ok file_document
unfolding parse
parsed = refl

bytes-parse_example : (bytes file_document ≡ file_text) × (0 < file_document.images_key_line)
bytes-parse_example = bytes-parse one_file file_text parsed

-- The document with another tag.
abbrev tagged : Text → Document
tagged line = record file_document {
  lines = codes "# head" ∷ codes "images:" ∷ codes "- name: acme/api" ∷ line ∷ [];
}

replaced :
    replace_scalar one_file file_document (mark_at (codes "v1") 4 11) (codes "v20")
    ≡ ok (tagged (codes "  newTag: v20 # tag"))
unfolding replace_scalar
replaced = refl

replace_scalar-frame_example :
    OneLine one_file file_document
      (mark_at (codes "v1") 4 11)
      (codes "v20")
      (tagged (codes "  newTag: v20 # tag"))
replace_scalar-frame_example =
    replace_scalar-frame one_file file_document (mark_at (codes "v1") 4 11) (codes "v20") replaced

safe : is_safe_plain_scalar one_file (codes "v20") ≡ true
unfolding is_safe_plain_scalar
safe = refl

replace_scalar-replace_scalar_example :
    replace_scalar one_file
      (tagged (codes "  newTag: v20 # tag"))
      (mark_at (codes "v1") 4 11)
      (codes "v3")
    ≡ replace_scalar one_file file_document (mark_at (codes "v1") 4 11) (codes "v3")
replace_scalar-replace_scalar_example =
    replace_scalar-replace_scalar one_file file_document (mark_at (codes "v1") 4 11) (codes "v20")
      (codes "v3") refl safe replaced

-- The lines of the block.
abbrev block_lines : List Text
block_lines =
    codes "# --- BEGIN image-updater metadata (auto-generated, do not edit) ---"
    ∷ codes "# schemaVersion: v1"
    ∷ codes "# images: 1"
    ∷ codes "# --- END image-updater metadata ---"
    ∷ []

rendered : render_image_manifest_comment two_lines one_document 2 ≡ ok block_lines
unfolding render_image_manifest_comment
rendered = refl

parse-render_image_manifest_comment_example :
    parse_image_manifest_comment two_lines (
      codes "  # --- BEGIN image-updater metadata (auto-generated, do not edit) ---"
      ∷ codes "  # schemaVersion: v1"
      ∷ codes "  # images: 1"
      ∷ codes "  # --- END image-updater metadata ---"
      ∷ [])
    ≡ ok one_document
unfolding with_margin
parse-render_image_manifest_comment_example =
    parse-render_image_manifest_comment two_lines one_document 2 2 (λ text h. refl) rendered

read_back : written two_lines file_document api_manifest ≡ one_document
unfolding upsert existing block_in insert_by
read_back = refl

-- The document of the file with the block put above the images key.
abbrev blocked : Document
blocked = record file_document {
  lines = block_lines ++ file_lines;
  images_key_line = 6;
  image_nodes = shift_nodes 4 0 item_nodes;
}

upserted : upsert_image_manifest two_lines file_document api_manifest 2 ≡ ok blocked
unfolding upsert_image_manifest insert_by
upserted = refl

upsert_image_manifest-Framed_example : Framed file_document blocked
upsert_image_manifest-Framed_example =
    upsert_image_manifest-Framed two_lines file_document api_manifest 2 (omega arith) (omega arith)
      upserted

upsert_image_manifest-idempotent_example :
    upsert_image_manifest two_lines blocked api_manifest 2 ≡ ok blocked
upsert_image_manifest-idempotent_example =
    upsert_image_manifest-idempotent two_lines file_document api_manifest 2 (omega arith)
      (omega arith) (λ text h. cc read_back) upserted

entry_of-upsert_example :
    ((k : Text)
      → entry_of k (upsert one_document (record api_manifest { git_sha = codes "ff" })).images ≡ (
          if text_eq api_manifest.image k
          then some (record api_manifest { git_sha = codes "ff" })
          else entry_of k one_document.images))
    × IsSorted image_lt (upsert one_document (record api_manifest { git_sha = codes "ff" })).images
entry_of-upsert_example =
    entry_of-upsert one_document (record api_manifest { git_sha = codes "ff" })
