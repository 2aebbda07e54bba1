-- ===== src/Patch/Block/Again.antt =====
-- internal/infrastructure/manifest/kustomize/document.go: a document that `upsertImageManifest` wrote.
use image_updater.Prelude.{
  ℕ, suc, ◌+◌, ◌-◌, ◌≤◌, ◌≡◌, refl, sym, ap, ◌∙◌, false, List, [], ◌∷◌, ◌++◌, none, some, any, map,
  arith, length, take, drop, length-append, length-map, append-take-drop, take-append_self,
  drop-append_self, drop-cut,
}
use image_updater.Text.{Text}
use image_updater.Manifest.Comment.{
  Yaml, parse_image_manifest_comment, end_marker, comment_line, block_of, is_block_marker_content,
}
use image_updater.Manifest.Comment.RoundTrip.{with_margin}
use image_updater.Model.Errors.{ok}
use image_updater.Manifest.Document.{ImageManifestDocument}
use image_updater.Patch.Document.{Document}
use image_updater.Patch.Block.{
  existing, head_start, head_comment_range, find_from, find_manifest_block, shift, place_block,
  block_in,
}
use image_updater.Patch.Block.Head.{all-block_of}
use image_updater.Patch.Block.Region.{head_start-replaced}
use image_updater.Patch.Block.Site.{Site}

pub shift-lines : (a r : ℕ) (d : Document) → (shift a r d).lines ≡ d.lines
unfolding shift
shift-lines a r d = ground arith

pub shift-key : (a r : ℕ) (d : Document) → (shift a r d).images_key_line ≡ d.images_key_line + a - r
unfolding shift
shift-key a r d = ground arith

pub shift-same : (a r : ℕ) (d : Document) → a ≡ r → shift a r d ≡ d
unfolding shift
shift-same a r d e = ground (arith, e)

module _ (d : Document) (site : Site d) (n : ℕ) (body : List Text)
    (unmarked : any is_block_marker_content body ≡ false) where
  abbrev rendered : List Text
  rendered = map (with_margin n) (block_of body)

  abbrev after : Document
  after = place_block d rendered (block_in d)

  abbrev now : List Text
  now = site.front ++ (site.pre ++ (rendered ++ site.rest))

  -- The line of the block and the line behind it.
  abbrev first : ℕ
  first = length site.pre + length site.front

  abbrev behind : ℕ
  behind = length body + (first + 2)

  rendered_size : length rendered ≡ length body + 2
  unfolding block_of
  rendered_size = omega (
    arith,
    length-map (with_margin n) (map comment_line body ++ comment_line end_marker ∷ []),
    length-append (map comment_line body) (comment_line end_marker ∷ []),
    length-map comment_line body,
  )

  pub after-lines : after.lines ≡ now
  after-lines =
      ap (λ e. e.lines) (site.place_is rendered)
      ∙ shift-lines (length rendered) (length site.old) (record d { lines = now })

  pub after-key :
      after.images_key_line
      ≡ suc (length site.front + (length site.pre + (length rendered + site.size)))
  after-key =
      ap (λ e. e.images_key_line) (site.place_is rendered)
      ∙ shift-key (length rendered) (length site.old) (record d { lines = now })
      ∙ omega (arith, site.key_is)

  start_now : head_start after.lines (after.images_key_line - 1) ≡ length site.front
  start_now =
      ap (λ ls. head_start ls (after.images_key_line - 1)) after-lines
      ∙ ap (head_start now) (omega (arith, after-key))
      ∙ head_start-replaced site.front site.pre site.old site.rest rendered site.size
          (ap
              (λ ls.
                head_start ls
                  (length site.front + (length site.pre + (length site.old + site.size))))
              (sym site.lines_are)
            ∙ site.start_is)
          (all-block_of n body)

  front_now : drop (length site.front) now ≡ site.pre ++ (rendered ++ site.rest)
  front_now = drop-append_self site.front (site.pre ++ (rendered ++ site.rest))

  -- The block is found again where it was put.
  pub block_in-after : block_in after ≡ some (first, behind)
  unfolding block_in head_comment_range find_manifest_block
  block_in-after =
      ap (λ s. find_from (drop s after.lines) s (after.images_key_line - 1) none) start_now
      ∙ ap
          (λ ls.
            find_from (drop (length site.front) ls) (length site.front) (after.images_key_line - 1)
              none)
          after-lines
      ∙ ap (λ ls. find_from ls (length site.front) (after.images_key_line - 1) none) front_now
      ∙ site.finds n (after.images_key_line - 1) body site.rest unmarked
          (omega (arith, after-key, rendered_size))

  from_block : drop first after.lines ≡ rendered ++ site.rest
  from_block =
      ap (drop first) after-lines
      ∙ drop-cut (length site.front) first now site.pre (rendered ++ site.rest)
          (omega (arith, length-append site.front (site.pre ++ (rendered ++ site.rest)))) front_now
          refl

  pub block-after : take (behind - first) (drop first after.lines) ≡ rendered
  block-after =
      ap (take (behind - first)) from_block
      ∙ ap (λ k. take k (rendered ++ site.rest)) (omega (arith, rendered_size))
      ∙ take-append_self rendered site.rest

  behind_block : drop behind after.lines ≡ site.rest
  behind_block =
      drop-cut first behind after.lines rendered site.rest (omega (arith, after_size)) from_block
        (omega (arith, rendered_size))
    where
      after_size : first ≤ length after.lines
      after_size = omega (
        arith,
        ap length after-lines,
        length-append site.front (site.pre ++ (rendered ++ site.rest)),
        length-append site.pre (rendered ++ site.rest),
      )

  -- The same block put again changes nothing.
  pub place_block-after : place_block after rendered (block_in after) ≡ after
  unfolding place_block
  place_block-after =
      ap (place_block after rendered) block_in-after
      ∙ shift-same (length rendered) (behind - first) _ (omega (arith, rendered_size))
      ∙ ap (λ ls. record after { lines = ls })
          (ap (λ t. take first after.lines ++ (rendered ++ t)) behind_block
            ∙ ap (λ t. take first after.lines ++ t) (sym from_block)
            ∙ append-take-drop first after.lines)

  -- What the block that was put is read as.
  pub existing-after :
      (yaml : Yaml) {x : ImageManifestDocument}
      → parse_image_manifest_comment yaml rendered ≡ ok x
      → existing yaml after.lines (block_in after) ≡ x
  unfolding existing
  existing-after yaml h = rw (block_in-after, existing, block-after, h)

  pub after-indent : after.images_indent ≡ d.images_indent
  unfolding shift
  after-indent = ap (λ e. e.images_indent) (site.place_is rendered) ∙ ground arith
