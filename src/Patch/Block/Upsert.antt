-- ===== src/Patch/Block/Upsert.antt =====
-- internal/infrastructure/manifest/kustomize/document.go: `upsertImageManifest` as a whole.
use image_updater.Prelude.{
  ℕ, suc, ◌+◌, ◌-◌, ◌≤◌, ◌<◌, ◌≡◌, ◌==◌, some, refl, sym, ap, ◌∙◌, subst, true, false, inl, inr,
  List, [], ◌++◌, all, any, map, arith, length, get_or, length-append, get_or-append_right,
  append_assoc,
}
use image_updater.Text.{Text, trim_right}
use image_updater.Model.Errors.{ok, Result-cases}
use image_updater.Label.Labels.{ImageManifest}
use image_updater.Manifest.Document.{ImageManifestDocument, upsert, stamp}
use image_updater.Manifest.Document.Keys.{upsert-upsert}
use image_updater.Manifest.Comment.{
  Yaml, newline, used_indent, block_of, body_of, is_block_marker_content,
  render_image_manifest_comment, parse_image_manifest_comment,
}
use image_updater.Manifest.Comment.RoundTrip.{
  with_margin, render-block_of, parse-render_image_manifest_comment,
}
use image_updater.Patch.Document.{Document}
use image_updater.Patch.Block.{
  is_comment_line, head_start, place_block, block_in, existing, upsert_image_manifest,
}
use image_updater.Patch.Block.Head.{all-block_of}
use image_updater.Patch.Block.Site.{Site, Site-of}
use image_updater.Patch.Block.Again.{
  after-lines, after-key, place_block-after, existing-after, after-indent,
}

-- The document of the block that is written.
abbrev pub written : Yaml → Document → ImageManifest → ImageManifestDocument
written yaml d m = upsert (existing yaml d.lines (block_in d)) m

stamp-upsert : (x : ImageManifestDocument) (m : ImageManifest) → stamp (upsert x m) ≡ upsert x m
unfolding upsert
stamp-upsert x m = refl

-- What a success is: a block was rendered and put.
put :
    (yaml : Yaml) (d : Document) (m : ImageManifest) (indent : ℕ) {d' : Document}
    → upsert_image_manifest yaml d m indent ≡ ok d'
    → (lines : List Text) × (render_image_manifest_comment yaml (written yaml d m) indent
        ≡ ok lines)
      × (d' ≡ place_block d (map (with_margin d.images_indent) lines) (block_in d))
unfolding upsert_image_manifest
put yaml d m indent h =
    elim (Result-cases (render_image_manifest_comment yaml (written yaml d m) indent)) [
      | inl (e, f) ↦ absurd (ground (arith, f, h))
      | inr (lines, f) ↦ (lines, f, ground (arith, f, h))
    ]

put_back :
    (yaml : Yaml) (e : Document) (m : ImageManifest) (indent : ℕ) (lines : List Text)
    → render_image_manifest_comment yaml (written yaml e m) indent ≡ ok lines
    → place_block e (map (with_margin e.images_indent) lines) (block_in e) ≡ e
    → upsert_image_manifest yaml e m indent ≡ ok e
unfolding upsert_image_manifest
put_back yaml e m indent lines f g = rw (f, upsert_image_manifest, g)

-- A line behind three parts.
get_or-parts :
    (front pre x rest : List Text) (n : ℕ)
    → get_or (front ++ (pre ++ (x ++ rest))) (length front + (length pre + (length x + n))) []
      ≡ get_or rest n []
get_or-parts front pre x rest n =
    get_or-append_right front (pre ++ (x ++ rest)) (length pre + (length x + n)) []
    ∙ get_or-append_right pre (x ++ rest) (length x + n) []
    ∙ get_or-append_right x rest n []

length-parts :
    (front pre x rest : List Text)
    → length (front ++ (pre ++ (x ++ rest)))
      ≡ length front + (length pre + (length x + length rest))
length-parts front pre x rest = omega (
  arith,
  length-append front (pre ++ (x ++ rest)),
  length-append pre (x ++ rest),
  length-append x rest,
)

-- The key line of lines that have three parts in front of the rest.
key_line :
    (e : Document) (front pre x rest : List Text) (n : ℕ)
    → e.lines ≡ front ++ (pre ++ (x ++ rest))
    → e.images_key_line ≡ suc (length front + (length pre + (length x + n)))
    → get_or e.lines (e.images_key_line - 1) [] ≡ get_or rest n []
key_line e front pre x rest n same at =
    ap (λ ls. get_or ls (e.images_key_line - 1) []) same
    ∙ ap (λ i. get_or (front ++ (pre ++ (x ++ rest))) i []) (omega (arith, at))
    ∙ get_or-parts front pre x rest n

-- What a change of the lines keeps: they differ in one place only, in the comments in front of the
-- images key, where comments take the place of comments, and the key line is known where it moved to.
pub Framed : Document → Document → Type 0
Framed d d' =
    (before : List Text) × (old : List Text) × (new : List Text) × (rest : List Text) × (d.lines
      ≡ before ++ (old ++ rest))
    × (d'.lines ≡ before ++ (new ++ rest))
    × (head_start d.lines (d.images_key_line - 1) ≤ length before)
    × (length before + length old < d.images_key_line)
    × (all is_comment_line new ≡ true)
    × (get_or d'.lines (d'.images_key_line - 1) [] ≡ get_or d.lines (d.images_key_line - 1) [])
    × (0 < d'.images_key_line)
    × (d'.images_key_line ≤ length d'.lines)

Framed-place :
    (d : Document) (site : Site d) (n : ℕ) (body : List Text)
    → any is_block_marker_content body ≡ false
    → d.images_key_line ≤ length d.lines
    → Framed d (place_block d (map (with_margin n) (block_of body)) (block_in d))
unfolding Framed
Framed-place d site n body unmarked in_lines =
    let rendered = map (with_margin n) (block_of body) in
    let lines_now = after-lines d site n body unmarked in
    let key_now = after-key d site n body unmarked in
    (
      site.front ++ site.pre,
      site.old,
      rendered,
      site.rest,
      site.lines_are ∙ sym (append_assoc site.front site.pre (site.old ++ site.rest)),
      lines_now ∙ sym (append_assoc site.front site.pre (rendered ++ site.rest)),
      omega (
        arith,
        ap (λ k. head_start d.lines k) (key_less d.images_key_line site.key_is),
        site.start_is,
        length-append site.front site.pre,
      ),
      omega (arith, site.key_is, length-append site.front site.pre),
      all-block_of n body,
      key_line (place_block d rendered (block_in d)) site.front site.pre rendered site.rest
            site.size lines_now key_now
          ∙ sym (
              key_line d site.front site.pre site.old site.rest site.size site.lines_are
                site.key_is),
      omega (arith, key_now),
      omega (
        arith,
        key_now,
        site.key_is,
        in_lines,
        ap length lines_now,
        ap length site.lines_are,
        length-parts site.front site.pre rendered site.rest,
        length-parts site.front site.pre site.old site.rest,
      ),
    )
  where
    key_less :
        (k : ℕ)
        → k ≡ suc (length site.front + (length site.pre + (length site.old + site.size)))
        → k - 1 ≡ length site.front + (length site.pre + (length site.old + site.size))
    key_less k e = omega (arith, e)

-- A successful upsert changes nothing but the comments in front of the images key, where a block of
-- comments is put in place of the one that was there, and the key's line number follows the key.
pub upsert_image_manifest-Framed :
    (yaml : Yaml) (d : Document) (m : ImageManifest) (indent : ℕ) {d' : Document}
    → 0 < d.images_key_line
    → d.images_key_line ≤ length d.lines
    → upsert_image_manifest yaml d m indent ≡ ok d'
    → Framed d d'
upsert_image_manifest-Framed yaml d m indent some_key in_lines h =
    let (lines, rendered, same) = put yaml d m indent h in
    let (text, encoded, unmarked, block) =
      render-block_of yaml (written yaml d m) indent rendered in
    subst (Framed d)
      (sym
        (same ∙ ap (λ ls. place_block d (map (with_margin d.images_indent) ls) (block_in d)) block))
      (Framed-place d (Site-of d some_key in_lines) d.images_indent (body_of text) unmarked
        in_lines)

-- An upsert that succeeded can be run again, and the second time it changes nothing, if the YAML
-- library reads back the document that it wrote but for line breaks at the end.
pub upsert_image_manifest-idempotent :
    (yaml : Yaml) (d : Document) (m : ImageManifest) (indent : ℕ) {d' : Document}
    → 0 < d.images_key_line
    → d.images_key_line ≤ length d.lines
    → ((text : Text)
        → yaml.encode (used_indent indent) (written yaml d m) ≡ some text
        → yaml.decode (trim_right (λ c. c == newline) text) ≡ some (written yaml d m))
    → upsert_image_manifest yaml d m indent ≡ ok d'
    → upsert_image_manifest yaml d' m indent ≡ ok d'
unfolding upsert
upsert_image_manifest-idempotent yaml d m indent {d'} some_key in_lines back h =
    let (lines, rendered, same) = put yaml d m indent h in
    let (text, encoded, unmarked, block) =
      render-block_of yaml (written yaml d m) indent rendered in
    let site = Site-of d some_key in_lines in
    let body = body_of text in
    let is_placed : d'
        ≡ place_block d (map (with_margin d.images_indent) (block_of body)) (block_in d) =
      same ∙ ap (λ ls. place_block d (map (with_margin d.images_indent) ls) (block_in d)) block in
    let e = place_block d (map (with_margin d.images_indent) (block_of body)) (block_in d) in
    let read : parse_image_manifest_comment yaml (map (with_margin d.images_indent) (block_of body))
        ≡ ok (written yaml d m) =
      ap (λ ls. parse_image_manifest_comment yaml (map (with_margin d.images_indent) ls))
        (sym block)
      ∙ parse-render_image_manifest_comment yaml (written yaml d m) indent d.images_indent back
          rendered in
    let same_document : written yaml e m ≡ written yaml d m =
      ap (λ x. upsert x m) (existing-after d site d.images_indent body unmarked yaml read)
      ∙ upsert-upsert (existing yaml d.lines (block_in d)) m in
    subst (λ e. upsert_image_manifest yaml e m indent ≡ ok e) (sym is_placed)
      (put_back yaml e m indent (block_of body)
        (ap (λ x. render_image_manifest_comment yaml x indent) same_document
          ∙ rendered
          ∙ ap ok block)
        (ap (λ k. place_block e (map (with_margin k) (block_of body)) (block_in e))
            (after-indent d site d.images_indent body unmarked)
          ∙ place_block-after d site d.images_indent body unmarked))
