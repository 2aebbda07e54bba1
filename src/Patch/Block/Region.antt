-- ===== src/Patch/Block/Region.antt =====
-- internal/infrastructure/manifest/kustomize/document.go: the head comments after a block was put into
-- them.
use image_updater.Prelude.{
  ℕ, ◌+◌, ◌-◌, ◌<◌, ◌≡◌, sym, ap, subst, ◌∙◌, true, List, [], ◌++◌, all, arith, inl, inr,
  Bool-cases, ltb, length, get_or, get_or-append_left, get_or-append_right,
}
use image_updater.Text.{Text}
use image_updater.Patch.Block.{is_comment_line, head_start}
use image_updater.Patch.Block.Head.{
  head_start-comment, head_start-over, head_start-append, head_start-head_start, get_or-all,
}

-- The lines are those before the region, those before the block, an old part, which a new one takes the
-- place of, and the rest; `m` lines of the rest are in the region.
module _ (front pre old rest new : List Text) (m : ℕ) where
  abbrev was : List Text
  was = front ++ (pre ++ (old ++ rest))

  abbrev is_now : List Text
  is_now = front ++ (pre ++ (new ++ rest))

  module _ (start : head_start was (length front + (length pre + (length old + m))) ≡ length front)
      (comments : all is_comment_line new ≡ true) where
    was_comment :
        (j : ℕ)
        → j < length pre + (length old + m)
        → is_comment_line (get_or (pre ++ (old ++ rest)) j []) ≡ true
    was_comment j h =
        subst (λ l. is_comment_line l ≡ true)
          (get_or-append_right front (pre ++ (old ++ rest)) j [])
          (head_start-comment was (length front + (length pre + (length old + m)))
            (length front + j) (omega (arith, start)) (omega (arith, h)))

    in_rest : (j : ℕ) → j < m → is_comment_line (get_or rest j []) ≡ true
    in_rest j h =
        subst (λ l. is_comment_line l ≡ true)
          (get_or-append_right pre (old ++ rest) (length old + j) []
            ∙ get_or-append_right old rest j [])
          (was_comment (length pre + (length old + j)) (omega (arith, h)))

    in_new : (j : ℕ) → j < length new + m → is_comment_line (get_or (new ++ rest) j []) ≡ true
    in_new j h = elim (Bool-cases (ltb j (length new))) [
      | inl e ↦
          subst (λ l. is_comment_line l ≡ true)
            (sym (get_or-append_left new rest j [] (ground arith)))
            (get_or-all new j comments (ground arith))
      | inr e ↦
          let k : j ≡ length new + (j - length new) = ground arith in
          subst (λ i. is_comment_line (get_or (new ++ rest) i []) ≡ true) (sym k)
            (subst (λ l. is_comment_line l ≡ true)
              (sym (get_or-append_right new rest (j - length new) []))
              (in_rest (j - length new) (ground arith)))
    ]

    in_region :
        (j : ℕ)
        → j < length pre + (length new + m)
        → is_comment_line (get_or (pre ++ (new ++ rest)) j []) ≡ true
    in_region j h = elim (Bool-cases (ltb j (length pre))) [
      | inl e ↦
          subst (λ l. is_comment_line l ≡ true)
            (get_or-append_left pre (old ++ rest) j [] (ground arith)
              ∙ sym (get_or-append_left pre (new ++ rest) j [] (ground arith)))
            (was_comment j (ground arith))
      | inr e ↦
          let k : j ≡ length pre + (j - length pre) = ground arith in
          subst (λ i. is_comment_line (get_or (pre ++ (new ++ rest)) i []) ≡ true) (sym k)
            (subst (λ l. is_comment_line l ≡ true)
              (sym (get_or-append_right pre (new ++ rest) (j - length pre) []))
              (in_new (j - length pre) (ground arith)))
    ]

    own_start : head_start was (length front) ≡ length front
    own_start =
        ap (head_start was) (sym start)
        ∙ head_start-head_start was (length front + (length pre + (length old + m)))
        ∙ start

    -- The region begins where it began.
    pub head_start-replaced :
        head_start is_now (length front + (length pre + (length new + m))) ≡ length front
    head_start-replaced =
        head_start-over is_now (length front) (length pre + (length new + m)) (λ i a b.
          let k : i ≡ length front + (i - length front) = omega (arith, a) in
          subst (λ i. is_comment_line (get_or is_now i []) ≡ true) (sym k)
            (subst (λ l. is_comment_line l ≡ true)
              (sym (get_or-append_right front (pre ++ (new ++ rest)) (i - length front) []))
              (in_region (i - length front) (omega (arith, a, b)))))
        ∙ head_start-append front (pre ++ (new ++ rest)) (pre ++ (old ++ rest)) (length front)
            (omega arith)
        ∙ own_start
