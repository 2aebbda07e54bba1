-- ===== src/Patch/Block/Finds.antt =====
-- internal/infrastructure/manifest/kustomize/document.go: where `findManifestBlock` and
-- `headCommentRange` look.
pub mod Bounds
use image_updater.Prelude.{
  ℕ, zero, suc, ◌+◌, ◌-◌, ◌≤◌, ◌<◌, ◌≡◌, ◌≢◌, ◌⊎◌, refl, sym, ap, ◌∙◌, subst, Bool, true, false,
  not, ◌||◌, List, [], ◌∷◌, ◌++◌, Option, none, some, any, map, arith, inl, inr, Bool-cases, ltb,
  length, get_or, take, drop, length-append, length-map, get_or-append_left, get_or-append_right,
  if◌then◌else◌, append_assoc,
}
use image_updater.Text.{Text, codes, text_eq, has_prefix, trim_left}
use image_updater.Text.Utf8.{trim_space}
use image_updater.Manifest.Comment.{
  begin_marker, end_marker, comment_line, is_marker, is_margin, is_image_manifest_begin,
  is_image_manifest_end, is_block_marker_content, block_of,
}
use image_updater.Manifest.Comment.RoundTrip.{with_margin, is_marker-comment_line}
use image_updater.Patch.Block.{is_comment_line, head_start, find_from}

-- A part of a list that the search passes over: from it on, only the last begin marker is carried.
Passes : List Text → ℕ → Option ℕ → ℕ → Type 0
Passes pre i begin b =
    (length pre + i ≡ b)
    × (last : Option ℕ) × ((rest : List Text) (stop : ℕ)
        → b ≤ stop
        → find_from (pre ++ rest) i stop begin ≡ find_from rest b stop last)

Passes-nil : (i : ℕ) (begin : Option ℕ) {b : ℕ} → i ≡ b → Passes [] i begin b
unfolding Passes
Passes-nil i begin e = (omega arith, begin, λ rest stop _. ap (λ k. find_from rest k stop begin) e)

Passes-cons :
    (line : Text) (pre : List Text) (i : ℕ) (begin begin' : Option ℕ) (b : ℕ)
    → ((rest : List Text) (stop : ℕ)
        → i < stop
        → find_from (line ∷ rest) i stop begin ≡ find_from rest (suc i) stop begin')
    → Passes pre (suc i) begin' b
    → Passes (line ∷ pre) i begin b
unfolding Passes
Passes-cons line pre i begin begin' b step (size, last, later) = (
  omega (arith, size),
  last,
  λ rest stop h. step (pre ++ rest) stop (omega (arith, size, h)) ∙ later rest stop h,
)

-- What one line does to the search, before the end.
pub step_begin :
    (line : Text) (i : ℕ) (begin : Option ℕ)
    → is_image_manifest_begin line ≡ true
    → (rest : List Text) (stop : ℕ) → i < stop
    → find_from (line ∷ rest) i stop begin ≡ find_from rest (suc i) stop (some i)
unfolding find_from
step_begin line i begin m rest stop h = ground (arith, m)

pub step_other :
    (line : Text) (i : ℕ) (begin : Option ℕ)
    → is_image_manifest_begin line ≡ false
    → (is_image_manifest_end line ≡ false) ⊎ (begin ≡ none)
    → (rest : List Text) (stop : ℕ) → i < stop
    → find_from (line ∷ rest) i stop begin ≡ find_from rest (suc i) stop begin
unfolding find_from
step_other line i begin m (inl n) rest stop h = ground (arith, m, n)
step_other line i begin m (inr n) rest stop h = ground (arith, m, n)

pub step_end :
    (line : Text) (i b : ℕ) (rest : List Text) (stop : ℕ)
    → is_image_manifest_begin line ≡ false
    → is_image_manifest_end line ≡ true
    → i < stop
    → find_from (line ∷ rest) i stop (some b) ≡ some (b, suc i)
unfolding find_from
step_end line i b rest stop m n h = ground (arith, m, n)

pub past_stop :
    (line : Text) (lines : List Text) (i stop : ℕ) (begin : Option ℕ)
    → ltb i stop ≡ false
    → find_from (line ∷ lines) i stop begin ≡ none
unfolding find_from
past_stop line lines i stop begin h = rw h

-- A search that succeeds names a begin marker that it had, or one that stands ahead.
Ahead : List Text → ℕ → Option ℕ → ℕ → Type 0
Ahead lines i begin b =
    (pre : List Text) × (rest : List Text) × (lines ≡ pre ++ rest) × Passes pre i begin b

Ahead-cons :
    (line : Text) (lines : List Text) (i : ℕ) (begin begin' : Option ℕ) (b : ℕ)
    → ((rest : List Text) (stop : ℕ)
        → i < stop
        → find_from (line ∷ rest) i stop begin ≡ find_from rest (suc i) stop begin')
    → Ahead lines (suc i) begin' b
    → Ahead (line ∷ lines) i begin b
unfolding Ahead
Ahead-cons line lines i begin begin' b step (pre, rest, e, p) =
    (line ∷ pre, rest, ap (λ ls. line ∷ ls) e, Passes-cons line pre i begin begin' b step p)

found-Ahead :
    (lines : List Text) (i stop : ℕ) (begin : Option ℕ) {b e : ℕ}
    → find_from lines i stop begin ≡ some (b, e)
    → (begin ≡ some b) ⊎ Ahead lines i begin b
found-Ahead [] i stop begin h = absurd (unfold find_from in cc h)
found-Ahead (line ∷ lines) i stop begin {b} {e} h = elim (Bool-cases (ltb i stop)) [
  | inr out ↦ absurd (cc (past_stop line lines i stop begin out, h))
  | inl inside ↦ elim (Bool-cases (is_image_manifest_begin line)) [
    | inl m ↦
        let step = step_begin line i begin m in
        elim (found-Ahead lines (suc i) stop (some i) (sym (step lines stop (ground arith)) ∙ h)) [
          | inl here ↦ inr (unfold Ahead in ([], line ∷ lines, refl, Passes-nil i begin (cc here)))
          | inr ahead ↦ inr (Ahead-cons line lines i begin (some i) b step ahead)
        ]
    | inr m ↦
        other begin m (Bool-cases (is_image_manifest_end line)) (ground arith) h
          (found-Ahead lines (suc i) stop begin)
  ]
]
  where
    go_on :
        (was : Option ℕ)
        → is_image_manifest_begin line ≡ false
        → (is_image_manifest_end line ≡ false) ⊎ (was ≡ none)
        → i < stop
        → find_from (line ∷ lines) i stop was ≡ some (b, e)
        → (find_from lines (suc i) stop was ≡ some (b, e)
            → (was ≡ some b) ⊎ Ahead lines (suc i) was b)
        → (was ≡ some b) ⊎ Ahead (line ∷ lines) i was b
    go_on was m n inside k ih = elim (ih (sym (step_other line i was m n lines stop inside) ∙ k)) [
      | inl here ↦ inl here
      | inr ahead ↦ inr (Ahead-cons line lines i was was b (step_other line i was m n) ahead)
    ]

    other :
        (was : Option ℕ)
        → is_image_manifest_begin line ≡ false
        → (is_image_manifest_end line ≡ true) ⊎ (is_image_manifest_end line ≡ false)
        → i < stop
        → find_from (line ∷ lines) i stop was ≡ some (b, e)
        → (find_from lines (suc i) stop was ≡ some (b, e)
            → (was ≡ some b) ⊎ Ahead lines (suc i) was b)
        → (was ≡ some b) ⊎ Ahead (line ∷ lines) i was b
    other was m (inr n) inside k ih = go_on was m (inl n) inside k ih
    other none m (inl n) inside k ih = go_on none m (inr refl) inside k ih
    other (some b') m (inl n) inside k ih = inl (cc (step_end line i b' lines stop m n inside, k))

-- A line of a block, behind its margin.
abbrev pub block_line : ℕ → Text → Text
block_line n s = with_margin n (comment_line s)

begins :
    (n : ℕ) (s : Text)
    → is_image_manifest_begin (block_line n s) ≡ text_eq (trim_space s) begin_marker
unfolding is_image_manifest_begin
begins n s = is_marker-comment_line n s begin_marker

ends :
    (n : ℕ) (s : Text) → is_image_manifest_end (block_line n s) ≡ text_eq (trim_space s) end_marker
unfolding is_image_manifest_end
ends n s = is_marker-comment_line n s end_marker

plain_line :
    (n : ℕ) (s : Text)
    → is_block_marker_content s ≡ false
    → (is_image_manifest_begin (block_line n s) ≡ false)
      × (is_image_manifest_end (block_line n s) ≡ false)
unfolding is_block_marker_content
plain_line n s h = ground (arith, begins n s, ends n s, h)

begin_begins : text_eq (trim_space begin_marker) begin_marker ≡ true
unfolding text_eq trim_space
begin_begins = refl

end_ends :
    (text_eq (trim_space end_marker) begin_marker ≡ false)
    × (text_eq (trim_space end_marker) end_marker ≡ true)
unfolding text_eq trim_space
end_ends = (refl, refl)

find_from-body :
    (n i b stop : ℕ) (body rest : List Text)
    → any is_block_marker_content body ≡ false
    → length body + i ≤ stop
    → find_from (map (block_line n) body ++ rest) i stop (some b)
      ≡ find_from rest (length body + i) stop (some b)
find_from-body n i b stop [] rest h l = ap (λ k. find_from rest k stop (some b)) (next i)
  where
    next : (k : ℕ) → k ≡ 0 + k
    next k = omega arith
find_from-body n i b stop (s ∷ body) rest h l =
    let (m, e) = plain_line n s (ground (arith, h)) in
    step_other (block_line n s) i (some b) m (inl e) (map (block_line n) body ++ rest) stop
      (omega (arith, l))
    ∙ find_from-body n (suc i) b stop body rest (ground (arith, h)) (omega (arith, l))
    ∙ ap (λ k. find_from rest k stop (some b)) (next (length body))
  where
    next : (k : ℕ) → k + suc i ≡ suc k + i
    next k = omega arith

map-block_line :
    (n : ℕ) (body : List Text) (rest : List Text)
    → map (with_margin n) (map comment_line body ++ comment_line end_marker ∷ []) ++ rest
      ≡ map (block_line n) body ++ (block_line n end_marker ∷ rest)
map-block_line n [] rest = refl
map-block_line n (s ∷ body) rest = ap (λ ls. block_line n s ∷ ls) (map-block_line n body rest)

-- A rendered block is found where it stands, whatever the search carries.
pub find_from-block_of :
    (n i stop : ℕ) (last : Option ℕ) (body rest : List Text)
    → any is_block_marker_content body ≡ false
    → length body + (i + 2) ≤ stop
    → find_from (map (with_margin n) (block_of body) ++ rest) i stop last
      ≡ some (i, length body + (i + 2))
unfolding block_of
find_from-block_of n i stop last body rest h l =
    step_begin (block_line n begin_marker) i last (begins n begin_marker ∙ begin_begins) _ stop
      (omega (arith, l))
    ∙ ap (λ ls. find_from ls (suc i) stop (some i)) (map-block_line n body rest)
    ∙ find_from-body n (suc i) i stop body (block_line n end_marker ∷ rest) h (omega (arith, l))
    ∙ step_end (block_line n end_marker) (length body + suc i) i rest stop (ends_not n)
        (ends n end_marker ∙ end_ends.1) (omega (arith, l))
    ∙ ap (λ k. some (i, k)) (next (length body))
  where
    ends_not : (k : ℕ) → is_image_manifest_begin (block_line k end_marker) ≡ false
    ends_not k = begins k end_marker ∙ end_ends.0

    next : (k : ℕ) → suc (k + suc i) ≡ k + (i + 2)
    next k = omega arith

-- What a search passed over before it found its block, it passes over again.
pub found-again :
    (lines : List Text) (i stop : ℕ) {b e : ℕ}
    → find_from lines i stop none ≡ some (b, e)
    → (pre : List Text) × (rest : List Text) × (lines ≡ pre ++ rest)
      × (length pre + i ≡ b)
      × ((n stop' : ℕ) (body after : List Text)
          → any is_block_marker_content body ≡ false
          → length body + (b + 2) ≤ stop'
          → find_from (pre ++ (map (with_margin n) (block_of body) ++ after)) i stop' none
            ≡ some (b, length body + (b + 2)))
unfolding Ahead Passes
found-again lines i stop {b} {e} h = elim (found-Ahead lines i stop none h) [
  | inl impossible ↦ absurd (cc impossible)
  | inr (pre, rest, same, (size, last, later)) ↦ (
    pre,
    rest,
    same,
    size,
    λ n stop' body after m l.
        later (map (with_margin n) (block_of body) ++ after) stop' (omega (arith, l))
        ∙ find_from-block_of n b stop' last body after m l,
  )
]
