-- ===== src/Patch/Block/Head.antt =====
-- internal/infrastructure/manifest/kustomize/document.go: the comment lines above the images key.
use image_updater.Prelude.{
  ℕ, zero, suc, ◌+◌, ◌≤◌, ◌<◌, ◌≡◌, ◌==◌, subst, refl, sym, ap, ◌∙◌, true, List, [], ◌∷◌, ◌++◌, all,
  map, arith, inl, inr, Bool-cases, length, get_or, get_or-append_left,
}
use image_updater.Text.{Text}
use image_updater.Manifest.Comment.{comment_line, block_of, begin_marker, end_marker}
use image_updater.Manifest.Comment.RoundTrip.{with_margin}
use image_updater.Patch.Block.{is_comment_line, head_start}

pub head_start-le : (lines : List Text) (n : ℕ) → head_start lines n ≤ n
unfolding head_start
head_start-le lines zero = omega arith
head_start-le lines (suc n) = ground (arith, head_start-le lines n)

-- The region is a region of its own start.
pub head_start-head_start :
    (lines : List Text) (n : ℕ) → head_start lines (head_start lines n) ≡ head_start lines n
unfolding head_start
head_start-head_start lines zero = refl
head_start-head_start lines (suc n) = elim (Bool-cases (is_comment_line (get_or lines n []))) [
  | inl e ↦ rw e (head_start-head_start lines n)
  | inr e ↦ rw (e, e)
]

-- Every line of the region is a comment.
pub head_start-comment :
    (lines : List Text) (n i : ℕ)
    → head_start lines n ≤ i
    → i < n
    → is_comment_line (get_or lines i []) ≡ true
unfolding head_start
head_start-comment lines zero i h l = absurd (omega arith)
head_start-comment lines (suc n) i h l = elim (Bool-cases (is_comment_line (get_or lines n []))) [
  | inl e ↦ elim (Bool-cases (i == n)) [
    | inl same ↦ subst (λ k. is_comment_line (get_or lines k []) ≡ true) (ground arith) e
    | inr other ↦ head_start-comment lines n i (rw (e, head_start) at h) (ground arith)
  ]
  | inr e ↦ absurd (ground (arith, e, h, l))
]

head_start-suc :
    (lines : List Text) (k : ℕ)
    → is_comment_line (get_or lines k []) ≡ true
    → head_start lines (suc k) ≡ head_start lines k
unfolding head_start
head_start-suc lines k h = rw h

-- Comments in front of an end move the start no further than their own.
pub head_start-over :
    (lines : List Text) (s n : ℕ)
    → ((i : ℕ) → s ≤ i → i < s + n → is_comment_line (get_or lines i []) ≡ true)
    → head_start lines (s + n) ≡ head_start lines s
head_start-over lines s zero h = ap (head_start lines) (same s)
  where
    same : (k : ℕ) → k + 0 ≡ k
    same k = omega arith
head_start-over lines s (suc n) h =
    ap (head_start lines) (next s)
    ∙ head_start-suc lines (s + n) (h (s + n) (omega arith) (omega arith))
    ∙ head_start-over lines s n (λ i a b. h i a (omega (arith, b)))
  where
    next : (k : ℕ) → k + suc n ≡ suc (k + n)
    next k = omega arith

-- The start depends on the lines in front of the end only.
pub head_start-append :
    (xs ys zs : List Text) (n : ℕ)
    → n ≤ length xs
    → head_start (xs ++ ys) n ≡ head_start (xs ++ zs) n
unfolding head_start
head_start-append xs ys zs zero h = refl
head_start-append xs ys zs (suc n) h =
    let same : get_or (xs ++ ys) n [] ≡ get_or (xs ++ zs) n [] =
      get_or-append_left xs ys n [] (omega arith)
      ∙ sym (get_or-append_left xs zs n [] (omega arith)) in
    rw (same, head_start-append xs ys zs n (omega arith))

-- The lines of a block are comments.
is_comment_line-comment_line :
    (n : ℕ) (s : Text) → is_comment_line (with_margin n (comment_line s)) ≡ true
unfolding is_comment_line comment_line with_margin
is_comment_line-comment_line zero [] = refl
is_comment_line-comment_line zero (c ∷ s) = refl
is_comment_line-comment_line (suc n) s = is_comment_line-comment_line n s

all-map-comment_line :
    (n : ℕ) (body : List Text)
    → all is_comment_line
        (map (with_margin n) (map comment_line body ++ comment_line end_marker ∷ []))
      ≡ true
all-map-comment_line n [] = rw (is_comment_line-comment_line n end_marker)
all-map-comment_line n (s ∷ body) =
    rw (is_comment_line-comment_line n s, all-map-comment_line n body)

pub all-block_of :
    (n : ℕ) (body : List Text) → all is_comment_line (map (with_margin n) (block_of body)) ≡ true
unfolding block_of
all-block_of n body = rw (is_comment_line-comment_line n begin_marker, all-map-comment_line n body)

pub get_or-all :
    (xs : List Text) (i : ℕ)
    → all is_comment_line xs ≡ true
    → i < length xs
    → is_comment_line (get_or xs i []) ≡ true
get_or-all [] i h l = absurd (omega arith)
get_or-all (x ∷ xs) zero h l = ground arith
get_or-all (x ∷ xs) (suc i) h l = get_or-all xs i (ground arith) (omega arith)
