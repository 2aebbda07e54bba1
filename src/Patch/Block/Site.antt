-- ===== src/Patch/Block/Site.antt =====
-- internal/infrastructure/manifest/kustomize/document.go: where `upsertImageManifest` puts a block.
use image_updater.Prelude.{
  subst, ℕ, suc, ◌+◌, ◌-◌, ◌≤◌, ◌<◌, ◌≡◌, sym, ap, ◌∙◌, false, List, [], ◌++◌, none, some, any, map,
  arith, inl, inr, Option-cases, length, take, drop, append-take-drop, length-take, length-drop,
  drop-drop, take-cut, drop-cut, append_assoc,
}
use image_updater.Text.{Text}
use image_updater.Manifest.Comment.{block_of, is_block_marker_content}
use image_updater.Manifest.Comment.RoundTrip.{with_margin}
use image_updater.Patch.Document.{Document}
use image_updater.Patch.Block.{
  head_start, head_comment_range, find_from, find_manifest_block, shift, place_block, block_in,
}
use image_updater.Patch.Block.Finds.{found-again, find_from-block_of}
use image_updater.Patch.Block.Finds.Bounds.{found_bounds}
use image_updater.Patch.Block.Head.{head_start-le}

-- A search from line `i` that has passed a part finds a block that stands behind it, at line `b`.
abbrev pub Finding : List Text → ℕ → ℕ → Type 0
Finding pre i b =
    (n stop : ℕ) (body after : List Text)
    → any is_block_marker_content body ≡ false
    → length body + (b + 2) ≤ stop
    → find_from (pre ++ (map (with_margin n) (block_of body) ++ after)) i stop none
      ≡ some (b, length body + (b + 2))

-- The parts of a document's lines: those before the region of comments, those before the block, the
-- block that is replaced and the rest, of which `size` lines are comments of the region.
pub record Site (d : Document) : Type 0 where
  pub front : List Text
  pub pre : List Text
  pub old : List Text
  pub rest : List Text
  pub size : ℕ
  pub lines_are : d.lines ≡ front ++ (pre ++ (old ++ rest))
  pub key_is : d.images_key_line ≡ suc (length front + (length pre + (length old + size)))
  pub start_is :
      head_start d.lines (length front + (length pre + (length old + size))) ≡ length front
  pub place_is :
      (rendered : List Text)
      → place_block d rendered (block_in d)
        ≡ shift
            (length rendered)
            (length old)
            (record d { lines = front ++ (pre ++ (rendered ++ rest)) })
  pub finds : Finding pre (length front) (length pre + length front)

module _ (d : Document) (some_key : 0 < d.images_key_line)
    (in_lines : d.images_key_line ≤ length d.lines) where
  abbrev key : ℕ
  key = d.images_key_line - 1

  abbrev start : ℕ
  start = head_start d.lines key

  start-le : start ≤ key
  start-le = head_start-le d.lines key

  front_size : length (take start d.lines) ≡ start
  front_size = length-take start d.lines (omega (arith, start-le, in_lines))

  -- The end of the region, counted by its parts.
  own_start : (k : ℕ) → k ≡ key → head_start d.lines k ≡ length (take start d.lines)
  own_start k e = ap (head_start d.lines) e ∙ sym front_size

  front_fits : start ≤ length d.lines
  front_fits = omega (arith, start-le, in_lines)

  -- Without a block, a new one is put where the region begins.
  Site-none : block_in d ≡ none → Site d
  unfolding place_block head_comment_range
  Site-none none_found = record {
    front = take start d.lines;
    pre = [];
    old = [];
    rest = drop start d.lines;
    size = key - start;
    lines_are = sym (append-take-drop start d.lines);
    key_is = omega (arith, front_size, start-le, some_key);
    start_is = own_start _ (omega (arith, front_size, start-le));
    place_is = λ rendered. ap (place_block d rendered) none_found;
    finds = λ n stop body after m l.
        find_from-block_of n (length (take start d.lines)) stop none body after m
          (subst (λ k. length body + (k + 2) ≤ stop) (omega arith) l)
        ∙ ap (λ k. some (k, length body + (k + 2))) (omega arith);
  }

  Site-some : (b e : ℕ) → block_in d ≡ some (b, e) → Site d
  unfolding place_block head_comment_range block_in find_manifest_block
  Site-some b e found =
      let (pre, rest, same, at_b, again) = found-again (drop start d.lines) start key found in
      let (e_key, e_lines, b_e) = found_bounds (drop start d.lines) start key found in
      let after_pre : drop b d.lines ≡ rest =
        drop-cut start b d.lines pre rest front_fits same at_b in
      let after_old : take (e - b) (drop b d.lines) ++ drop e d.lines ≡ drop b d.lines =
        ap (λ t. take (e - b) (drop b d.lines) ++ t)
          (ap (λ k. drop k d.lines) (omega (arith, b_e)) ∙ sym (drop-drop (e - b) b d.lines))
        ∙ append-take-drop (e - b) (drop b d.lines) in
      let old_size : length (take (e - b) (drop b d.lines)) ≡ e - b =
        length-take (e - b) (drop b d.lines) (
          omega (
            arith,
            length-drop b d.lines,
            length-drop start d.lines,
            e_lines,
            b_e,
            start-le,
            in_lines,
          )) in
      record {
        front = take start d.lines;
        pre = pre;
        old = take (e - b) (drop b d.lines);
        rest = drop e d.lines;
        size = key - e;
        lines_are =
            sym (append-take-drop start d.lines)
            ∙ ap (λ t. take start d.lines ++ t)
                (same ∙ ap (λ t. pre ++ t) (sym (after_old ∙ after_pre)));
        key_is = omega (arith, front_size, old_size, at_b, e_key, b_e, some_key);
        start_is = own_start _ (omega (arith, front_size, old_size, at_b, e_key, b_e));
        place_is = λ rendered.
            ap (place_block d rendered) found
            ∙ ap
                (λ n.
                  shift (length rendered) n
                    (record d { lines = take b d.lines ++ (rendered ++ drop e d.lines) }))
                (sym old_size)
            ∙ ap
                (λ ls.
                  shift (length rendered) (length (take (e - b) (drop b d.lines)))
                    (record d { lines = ls }))
                (ap (λ t. t ++ (rendered ++ drop e d.lines))
                    (take-cut start b d.lines pre rest front_fits same at_b)
                  ∙ append_assoc (take start d.lines) pre (rendered ++ drop e d.lines));
        finds =
            subst (λ i. Finding pre i (length pre + i)) (sym front_size)
              (subst (Finding pre start) (sym at_b) again);
      }

  -- Every document whose images key is on one of its lines has a place for a block.
  pub Site-of : Site d
  Site-of = elim (Option-cases (block_in d)) [
    | inl e ↦ Site-none e
    | inr ((b, e), h) ↦ Site-some b e h
  ]
