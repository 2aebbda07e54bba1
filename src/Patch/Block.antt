-- ===== src/Patch/Block.antt =====
-- internal/infrastructure/manifest/kustomize/document.go: `upsertImageManifest`, `headCommentRange`,
-- `findManifestBlock`, `shift` and `isCommentLine`.
pub mod Finds
pub mod Head
pub mod Region
pub mod Site
pub mod Again
pub mod Upsert
use image_updater.Prelude.{
  ℕ, zero, suc, ◌+◌, ◌-◌, Bool, true, false, not, List, [], ◌∷◌, ◌++◌, Option, none, some, ◌==◌,
  ltb, length, take, drop, get_or, map, if◌then◌else◌,
}
use image_updater.Text.{Text, codes, has_prefix, trim_left}
use image_updater.Model.Errors.{Result, ok, err, ◌>>=◌}
use image_updater.Label.Labels.{ImageManifest}
use image_updater.Manifest.Document.{ImageManifestDocument, upsert}
use image_updater.Manifest.Comment.{
  Yaml, is_margin, is_image_manifest_begin, is_image_manifest_end, render_image_manifest_comment,
  parse_image_manifest_comment,
}
use image_updater.Manifest.Comment.RoundTrip.{with_margin}
use image_updater.Patch.Yaml.{Mark, Node, node, Nodes, nil, cons, mark, content}
use image_updater.Patch.Document.{Document}

-- isCommentLine
unfoldable pub is_comment_line : Text → Bool
unfolding has_prefix trim_left is_margin
is_comment_line line = has_prefix (codes "#") (trim_left is_margin line)

-- The loop of `headCommentRange`, from an end down to the start.
unfoldable pub head_start : List Text → ℕ → ℕ
unfolding is_comment_line
head_start lines zero = 0
head_start lines (suc n) =
    let rest = head_start lines n in if is_comment_line (get_or lines n []) then rest else suc n

-- document.headCommentRange
unfoldable pub head_comment_range : Document → ℕ × ℕ
unfolding head_start
head_comment_range d = (head_start d.lines (d.images_key_line - 1), d.images_key_line - 1)

-- The loop of `findManifestBlock`, at the line of index `i`; `begin` is the last begin marker.
unfoldable pub find_from : List Text → ℕ → ℕ → Option ℕ → Option (ℕ × ℕ)
unfolding is_image_manifest_begin is_image_manifest_end
find_from [] i stop begin = none
find_from (line ∷ lines) i stop begin =
    let fresh = find_from lines (suc i) stop (some i) in
    let same = find_from lines (suc i) stop begin in
    if not (ltb i stop)
    then none
    else if is_image_manifest_begin line
    then fresh
    else if is_image_manifest_end line
    then elim begin [ some b ↦ some (b, suc i) | none ↦ same ]
    else same

-- findManifestBlock
unfoldable pub find_manifest_block : List Text → ℕ → ℕ → Option (ℕ × ℕ)
unfolding find_from
find_manifest_block lines start stop = find_from (drop start lines) start stop none

unfoldable mutual
  pub shift_node : ℕ → ℕ → Node → Node
  shift_node added removed (node m ns) =
      node (record m { line = m.line + added - removed }) (shift_nodes added removed ns)

  pub shift_nodes : ℕ → ℕ → Nodes → Nodes
  shift_nodes added removed nil = nil
  shift_nodes added removed (cons n ns) =
      cons (shift_node added removed n) (shift_nodes added removed ns)

-- document.shift by the lines that were added less those that were removed, which stood above
unfoldable pub shift : ℕ → ℕ → Document → Document
unfolding shift_nodes
shift added removed d = if added == removed then d else record d {
  images_key_line = d.images_key_line + added - removed;
  image_nodes = shift_nodes added removed d.image_nodes;
}

-- The document of the block that was found, empty if there is none or it cannot be read.
unfoldable pub existing : Yaml → List Text → Option (ℕ × ℕ) → ImageManifestDocument
unfolding parse_image_manifest_comment
existing yaml lines none = record { schema_version = []; generator = []; images = [] }
existing yaml lines (some (start, stop)) =
    elim (parse_image_manifest_comment yaml (take (stop - start) (drop start lines))) [
      | err e ↦ record { schema_version = []; generator = []; images = [] }
      | ok d ↦ d
    ]

-- The lines with a block in place of the one that was found, or above the comments.
unfoldable pub place_block : Document → List Text → Option (ℕ × ℕ) → Document
unfolding head_comment_range shift
place_block d rendered (some (start, stop)) =
    shift (length rendered) (stop - start)
      (record d { lines = take start d.lines ++ (rendered ++ drop stop d.lines) })
place_block d rendered none =
    let (start, _) = head_comment_range d in
    shift (length rendered) 0
      (record d { lines = take start d.lines ++ (rendered ++ drop start d.lines) })

-- The block that a document has.
unfoldable pub block_in : Document → Option (ℕ × ℕ)
unfolding head_comment_range find_manifest_block
block_in d = let (start, stop) = head_comment_range d in find_manifest_block d.lines start stop

-- document.upsertImageManifest
unfoldable pub upsert_image_manifest : Yaml → Document → ImageManifest → ℕ → Result Document
unfolding block_in existing upsert render_image_manifest_comment place_block with_margin
upsert_image_manifest yaml d manifest indent = do
  lines ←
      render_image_manifest_comment yaml (upsert (existing yaml d.lines (block_in d)) manifest)
        indent
  ok (place_block d (map (with_margin d.images_indent) lines) (block_in d))
