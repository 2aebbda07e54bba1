-- ===== src/Manifest/Comment.antt =====
-- internal/model/manifest.go: the comment block, `RenderImageManifestComment`,
-- `ParseImageManifestComment` and the markers.
pub mod RoundTrip
use image_updater.Prelude.{
  ℕ, Bool, true, false, not, ◌&&◌, ◌||◌, List, [], ◌∷◌, ◌++◌, Option, none, some, any, map, leb,
  ◌==◌, if◌then◌else◌,
}
use image_updater.Text.{
  Text, codes, text_eq, is_empty, has_prefix, cut_prefix, trim_left, trim_right,
}
use image_updater.Text.Utf8.{trim_space}
use image_updater.Text.Split.{split, join}
use image_updater.Model.Errors.{plain, Result, ok, err}
use image_updater.Manifest.Document.{ImageManifestDocument, stamp}

-- The YAML library on the documents of the block: an encoder with an indent, closed after one
-- document, and `yaml.Unmarshal`.
pub record Yaml : Type 0 where
  pub encode : ℕ → ImageManifestDocument → Option Text
  pub decode : Text → Option ImageManifestDocument

-- ImageManifestBeginMarker
abbrev pub begin_marker : Text
begin_marker = codes "--- BEGIN image-updater metadata (auto-generated, do not edit) ---"

-- ImageManifestEndMarker
abbrev pub end_marker : Text
end_marker = codes "--- END image-updater metadata ---"

abbrev pub newline : ℕ
newline = 0x0A

-- IsValidImageManifestIndent
unfoldable pub is_valid_indent : ℕ → Bool
is_valid_indent indent = leb 2 indent && leb indent 9

-- The indent that the encoder is given.
unfoldable pub used_indent : ℕ → ℕ
unfolding is_valid_indent
used_indent indent = if is_valid_indent indent then indent else 2

-- A blank of an indentation.
unfoldable pub is_margin : ℕ → Bool
is_margin c = c == b' ' || c == 0x09

-- strings.TrimPrefix(s, prefix)
unfoldable pub trim_prefix : Text → Text → Text
unfolding cut_prefix
trim_prefix prefix s = let (rest, found) = cut_prefix prefix s in rest

-- commentLine
unfoldable pub comment_line : Text → Text
comment_line [] = codes "#"
comment_line (c ∷ s) = b'#' ∷ b' ' ∷ c ∷ s

-- uncommentLine
unfoldable pub uncomment_line : Text → Option Text
unfolding is_margin trim_left has_prefix trim_prefix
uncomment_line line =
    let trimmed = trim_left is_margin line in
    if has_prefix (codes "#") trimmed
    then some (trim_prefix (codes " ") (trim_prefix (codes "#") trimmed))
    else none

-- isMarker
unfoldable pub is_marker : Text → Text → Bool
unfolding uncomment_line trim_space text_eq
is_marker line marker = elim (uncomment_line line) [
  | none ↦ false
  | some content ↦ text_eq (trim_space content) marker
]

-- IsImageManifestBegin
unfoldable pub is_image_manifest_begin : Text → Bool
unfolding is_marker
is_image_manifest_begin line = is_marker line begin_marker

-- IsImageManifestEnd
unfoldable pub is_image_manifest_end : Text → Bool
unfolding is_marker
is_image_manifest_end line = is_marker line end_marker

-- isBlockMarkerContent
unfoldable pub is_block_marker_content : Text → Bool
unfolding trim_space text_eq
is_block_marker_content line =
    text_eq (trim_space line) begin_marker || text_eq (trim_space line) end_marker

-- strings.Split(strings.TrimRight(text, "\n"), "\n")
unfoldable pub body_of : Text → List Text
unfolding split trim_right
body_of text = split newline (trim_right (λ c. c == newline) text)

-- The block around the lines of a body.
unfoldable pub block_of : List Text → List Text
unfolding comment_line
block_of body = comment_line begin_marker ∷ (map comment_line body ++ comment_line end_marker ∷ [])

-- RenderImageManifestComment
unfoldable pub render_image_manifest_comment : Yaml → ImageManifestDocument → ℕ → Result (List Text)
unfolding used_indent body_of is_block_marker_content block_of
render_image_manifest_comment yaml d indent = elim (yaml.encode (used_indent indent) (stamp d)) [
  | none ↦ err (plain [])
  | some text ↦
      if any is_block_marker_content (body_of text)
      then err (plain [])
      else ok (block_of (body_of text))
]

-- The loop of `ParseImageManifestComment`.
unfoldable pub uncommented : List Text → List Text
unfolding uncomment_line is_image_manifest_begin is_image_manifest_end
uncommented [] = []
uncommented (line ∷ lines) = elim (uncomment_line line) [
  | none ↦ uncommented lines
  | some content ↦
      let rest = uncommented lines in
      if is_image_manifest_begin line || is_image_manifest_end line then rest else content ∷ rest
]

-- ParseImageManifestComment
unfoldable pub parse_image_manifest_comment : Yaml → List Text → Result ImageManifestDocument
unfolding uncommented join
parse_image_manifest_comment yaml lines =
    elim (yaml.decode (join (newline ∷ []) (uncommented lines))) [
      | none ↦ err (plain [])
      | some d ↦ ok d
    ]
