-- ===== src/Patch/Document.antt =====
-- internal/infrastructure/manifest/kustomize/document.go: `document`, `parse`, `bytes` and the edits.
-- A document is passed on, edited, where the code edits it in place.
pub mod Lines
pub mod Replace
use image_updater.Prelude.{
  ℕ, zero, suc, ◌+◌, ◌-◌, Bool, true, false, not, ◌&&◌, ◌||◌, List, [], ◌∷◌, ◌++◌, Option, none,
  some, ◌==◌, ltb, length, take, drop, get_or, map, if◌then◌else◌, sort_by,
}
use mathlib.Core.List.{reverse}
use image_updater.Text.{Text, codes, text_eq, has_prefix, has_suffix, trim_left}
use image_updater.Text.Split.{split, join}
use image_updater.Model.Errors.{plain, wrap, sentinel, image_not_managed, Result, ok, err, ◌>>=◌}
use image_updater.Label.Labels.{ImageManifest}
use image_updater.Manifest.Document.{ImageManifestDocument, upsert}
use image_updater.Manifest.Comment.{
  Yaml, newline, is_margin, is_image_manifest_begin, is_image_manifest_end,
  render_image_manifest_comment, parse_image_manifest_comment,
}
use image_updater.Manifest.Comment.RoundTrip.{with_margin}
use image_updater.Patch.Tags.{ImageEntry}
use image_updater.Patch.Yaml.{
  Kind, sequence, mapping, scalar, other_kind, Style, Mark, Node, node, Nodes, nil, cons, mark,
  content, nth, YamlLibrary,
}
use image_updater.Patch.Scalar.{scalar_token_length, format_scalar}

-- document
pub record Document : Type 0 where
  pub lines : List Text
  pub has_trailing_newline : Bool
  pub images_key_line : ℕ
  pub images_indent : ℕ
  pub image_nodes : Nodes
  pub images : List ImageEntry

-- k.Kind == kind
unfoldable pub is_mapping : Kind → Bool
is_mapping mapping = true
is_mapping _ = false

unfoldable pub is_sequence : Kind → Bool
is_sequence sequence = true
is_sequence _ = false

unfoldable pub is_scalar : Kind → Bool
is_scalar scalar = true
is_scalar _ = false

-- strings.TrimSuffix(text, "\n")
unfoldable pub trim_newline : Text → Text
unfolding has_suffix
trim_newline text = if has_suffix (newline ∷ []) text then take (length text - 1) text else text

-- The document of a text before its images are found.
unfoldable pub opened : Text → Document
unfolding trim_newline has_suffix split
opened text = record {
  lines = split newline (trim_newline text);
  has_trailing_newline = has_suffix (newline ∷ []) text;
  images_key_line = 0;
  images_indent = 0;
  image_nodes = nil;
  images = [];
}

-- The loop of `parse` over the keys and values of the mapping.
unfoldable pub find_images : YamlLibrary → Nodes → Document → Result Document
unfolding text_eq is_sequence
find_images yaml nil doc = ok doc
find_images yaml (cons key nil) doc = ok doc
find_images yaml (cons key (cons value rest)) doc =
    let later = find_images yaml rest doc in
    if not (text_eq (mark key).value (codes "images"))
    then later
    else if not (is_sequence (mark value).kind)
    then err (plain [])
    else elim (yaml.decode_images value) [
      | none ↦ err (plain [])
      | some images ↦ ok (record doc {
        images = images;
        images_key_line = (mark key).line;
        images_indent = (mark key).column - 1;
        image_nodes = content value;
      })
    ]

-- What `parse` makes of the root node's content.
unfoldable pub parse_content : YamlLibrary → Text → Nodes → Result Document
unfolding opened find_images is_mapping
parse_content yaml text nil = err (wrap [] (sentinel image_not_managed))
parse_content yaml text (cons root rest) =
    if not (is_mapping (mark root).kind) then err (plain []) else do
      doc ← find_images yaml (content root) (opened text)
      if doc.images_key_line == 0 then err (wrap [] (sentinel image_not_managed)) else ok doc

-- parse
unfoldable pub parse : YamlLibrary → Text → Result Document
unfolding parse_content
parse yaml text = elim (yaml.unmarshal text) [
  | none ↦ err (plain [])
  | some root ↦ parse_content yaml text (content root)
]

-- document.bytes
unfoldable pub bytes : Document → Text
unfolding join
bytes d =
    let text = join (newline ∷ []) d.lines in
    if d.has_trailing_newline then text ++ newline ∷ [] else text

-- d.lines[i] = line
unfoldable pub set_line : ℕ → Text → List Text → List Text
set_line i line [] = []
set_line zero line (l ∷ ls) = line ∷ ls
set_line (suc i) line (l ∷ ls) = l ∷ set_line i line ls

-- A line with its scalar at an index replaced.
unfoldable pub with_scalar : Text → ℕ → ℕ → Text → Text
with_scalar line start size value = take start line ++ (value ++ drop (start + size) line)

-- document.replaceScalar
unfoldable pub replace_scalar : YamlLibrary → Document → Mark → Text → Result Document
unfolding scalar_token_length format_scalar set_line with_scalar is_scalar
replace_scalar yaml d m value =
    if not (is_scalar m.kind)
    then err (plain [])
    else if m.line == 0 || not (ltb (m.line - 1) (length d.lines))
    then err (plain [])
    else let line = get_or d.lines (m.line - 1) [] in
      if m.column == 0 || ltb (length line) (m.column - 1) then err (plain []) else do
        size ← scalar_token_length (drop (m.column - 1) line) m.style
        ok (record d {
          lines =
              set_line (m.line - 1)
                (with_scalar line (m.column - 1) size (format_scalar yaml value)) d.lines;
        })

-- The greatest line of some nodes.
last_line : Nodes → ℕ → ℕ
last_line nil last = last
last_line (cons n ns) last = last_line ns (if ltb last (mark n).line then (mark n).line else last)

-- document.appendMappingEntry
unfoldable pub append_mapping_entry : YamlLibrary → Document → Node → Text → Text → Result Document
unfolding last_line format_scalar with_margin
append_mapping_entry yaml d item key value =
    let last = last_line (content item) 0 in
    if last == 0 || ltb (length d.lines) last
    then err (plain (key ∷ []))
    else ok (record d {
      lines =
          take last d.lines
          ++ with_margin ((mark item).column - 1) (key ++ (codes ": " ++ format_scalar yaml value))
            ∷ drop last d.lines;
    })

-- newTagField
abbrev pub new_tag_field : Text
new_tag_field = codes "newTag"

-- The loop of `setNewTag` over the keys and values of an item.
unfoldable pub set_in : YamlLibrary → Document → Node → Text → Nodes → Result Document
unfolding text_eq replace_scalar append_mapping_entry
set_in yaml d item tag nil = append_mapping_entry yaml d item new_tag_field tag
set_in yaml d item tag (cons key nil) = append_mapping_entry yaml d item new_tag_field tag
set_in yaml d item tag (cons key (cons value rest)) =
    let later = set_in yaml d item tag rest in
    if text_eq (mark key).value new_tag_field then replace_scalar yaml d (mark value) tag else later

-- document.setNewTag
unfoldable pub set_new_tag : YamlLibrary → Document → ℕ → Text → Result Document
unfolding nth set_in is_mapping
set_new_tag yaml d index tag = elim (nth d.image_nodes index) [
  | none ↦ err (plain [])
  | some item ↦
      if not (is_mapping (mark item).kind)
      then err (plain [])
      else set_in yaml d item tag (content item)
]

-- The loop of `setNewTags`, over the tags from the last index to the first.
unfoldable pub set_each : YamlLibrary → Document → List (ℕ × Text) → Result Document
unfolding set_new_tag
set_each yaml d [] = ok d
set_each yaml d ((index, tag) ∷ tags) = do e ← set_new_tag yaml d index tag; set_each yaml e tags

-- document.setNewTags
unfoldable pub set_new_tags : YamlLibrary → Document → List (ℕ × Text) → Result Document
unfolding set_each sort_by
set_new_tags yaml d tags = set_each yaml d (reverse (sort_by (λ a b. ltb a.0 b.0) tags))
