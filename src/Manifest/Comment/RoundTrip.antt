-- ===== src/Manifest/Comment/RoundTrip.antt =====
-- internal/model/manifest.go: a block that is rendered and read back.
use image_updater.Prelude.{
  ℕ, zero, suc, ◌≡◌, refl, ap, ◌∙◌, true, false, List, [], ◌∷◌, ◌++◌, some, any, map, arith, inl,
  inr, append-nil, Bool-cases, Option-cases, ◌==◌, if◌then◌else◌,
}
use image_updater.Text.{Text, text_eq, trim_right}
use image_updater.Text.Utf8.{trim_space}
use image_updater.Text.Split.{join, join-split}
use image_updater.Model.Errors.{ok}
use image_updater.Manifest.Document.{ImageManifestDocument, stamp}
use image_updater.Manifest.Comment.{
  Yaml, begin_marker, end_marker, newline, used_indent, comment_line, uncomment_line, is_marker,
  is_image_manifest_begin, is_image_manifest_end, is_block_marker_content, body_of, block_of,
  render_image_manifest_comment, uncommented, parse_image_manifest_comment,
}

-- strings.Repeat(" ", n) + line
unfoldable pub with_margin : ℕ → Text → Text
with_margin zero line = line
with_margin (suc n) line = b' ' ∷ with_margin n line

-- A comment line with any margin carries its content.
pub uncomment_line-comment_line :
    (n : ℕ) (s : Text) → uncomment_line (with_margin n (comment_line s)) ≡ some s
unfolding uncomment_line comment_line with_margin
uncomment_line-comment_line zero [] = refl
uncomment_line-comment_line zero (c ∷ s) = refl
uncomment_line-comment_line (suc n) s = uncomment_line-comment_line n s

-- Whether such a line is a marker is a question on its content.
pub is_marker-comment_line :
    (n : ℕ) (s marker : Text)
    → is_marker (with_margin n (comment_line s)) marker ≡ text_eq (trim_space s) marker
unfolding is_marker
is_marker-comment_line n s marker = rw (uncomment_line-comment_line n s, is_marker)

uncommented-comment_line :
    (n : ℕ) (s : Text) (lines : List Text)
    → uncommented (with_margin n (comment_line s) ∷ lines)
      ≡ (if is_block_marker_content s then uncommented lines else s ∷ uncommented lines)
unfolding uncommented is_block_marker_content is_image_manifest_begin is_image_manifest_end
uncommented-comment_line n s lines = rw (
  uncomment_line-comment_line n s,
  is_marker-comment_line n s begin_marker,
  is_marker-comment_line n s end_marker,
  uncommented,
)

uncommented-body :
    (n : ℕ) (body rest : List Text)
    → any is_block_marker_content body ≡ false
    → uncommented (map (λ s. with_margin n (comment_line s)) body ++ rest)
      ≡ body ++ uncommented rest
uncommented-body n [] rest h = refl
uncommented-body n (s ∷ body) rest h =
    uncommented-comment_line n s (map (λ s. with_margin n (comment_line s)) body ++ rest)
    ∙ ground (arith, h, uncommented-body n body rest)

begin_is_marker : is_block_marker_content begin_marker ≡ true
unfolding is_block_marker_content
begin_is_marker = refl

end_is_marker : is_block_marker_content end_marker ≡ true
unfolding is_block_marker_content
end_is_marker = refl

-- The lines of a block, each behind its margin.
pub uncommented-block_of :
    (n : ℕ) (body : List Text)
    → any is_block_marker_content body ≡ false
    → uncommented (map (with_margin n) (block_of body)) ≡ body
unfolding block_of uncommented
uncommented-block_of n body h =
    uncommented-comment_line n begin_marker (map (with_margin n) (map comment_line body ++ last))
    ∙ (rw begin_is_marker (
        ap uncommented (split_map body)
        ∙ uncommented-body n body (with_margin n (comment_line end_marker) ∷ []) h
        ∙ ap (λ r. body ++ r) (uncommented-comment_line n end_marker [] ∙ rw end_is_marker nothing)
        ∙ append-nil body))
  where
    nothing : uncommented [] ≡ []
    nothing = refl

    last : List Text
    last = comment_line end_marker ∷ []

    split_map :
        (xs : List Text)
        → map (with_margin n) (map comment_line xs ++ last)
          ≡ map (λ s. with_margin n (comment_line s)) xs
            ++ with_margin n (comment_line end_marker) ∷ []
    split_map [] = refl
    split_map (x ∷ xs) = ap (λ r. with_margin n (comment_line x) ∷ r) (split_map xs)

-- What a successful rendering is: the block around the lines of the encoder's text, none of which is a
-- marker.
pub render-block_of :
    (yaml : Yaml) (d : ImageManifestDocument) (indent : ℕ) {lines : List Text}
    → render_image_manifest_comment yaml d indent ≡ ok lines
    → (text : Text) × (yaml.encode (used_indent indent) (stamp d) ≡ some text)
      × (any is_block_marker_content (body_of text) ≡ false)
      × (lines ≡ block_of (body_of text))
unfolding render_image_manifest_comment
render-block_of yaml d indent h = elim (Option-cases (yaml.encode (used_indent indent) (stamp d))) [
  | inl e ↦ absurd (ground (arith, e, h))
  | inr (text, e) ↦ elim (Bool-cases (any is_block_marker_content (body_of text))) [
    | inl m ↦ absurd (ground (arith, e, m, h))
    | inr m ↦ (text, e, m, ground (arith, e, m, h))
  ]
]

-- A block that was rendered is read back as the document, with its version and generator set, also
-- behind a margin, if the YAML library reads back what it writes but for line breaks at the end.
pub parse-render_image_manifest_comment :
    (yaml : Yaml) (d : ImageManifestDocument) (indent margin : ℕ) {lines : List Text}
    → ((text : Text)
        → yaml.encode (used_indent indent) (stamp d) ≡ some text
        → yaml.decode (trim_right (λ c. c == newline) text) ≡ some (stamp d))
    → render_image_manifest_comment yaml d indent ≡ ok lines
    → parse_image_manifest_comment yaml (map (with_margin margin) lines) ≡ ok (stamp d)
unfolding parse_image_manifest_comment
parse-render_image_manifest_comment yaml d indent margin {lines} back h =
    let (text, e, m, l) = render-block_of yaml d indent h in
    let same : join (newline ∷ []) (uncommented (map (with_margin margin) lines))
        ≡ trim_right (λ c. c == newline) text =
      ap (λ ls. join (newline ∷ []) (uncommented (map (with_margin margin) ls))) l
      ∙ ap (join (newline ∷ [])) (uncommented-block_of margin (body_of text) m)
      ∙ (unfold body_of in join-split newline (trim_right (λ c. c == newline) text)) in
    rw (same, back text e, parse_image_manifest_comment)
