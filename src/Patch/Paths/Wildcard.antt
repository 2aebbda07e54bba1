-- ===== src/Patch/Paths/Wildcard.antt =====
-- internal/infrastructure/manifest/kustomize/patcher.go: which directories a pattern with a ** matches.
use image_updater.Prelude.{
  ◌+◌, ◌≤◌, ◌≡◌, ◌↔◌, refl, sym, ap, ◌∙◌, true, List, [], ◌∷◌, ◌++◌, arith, length, append_assoc,
  length-append, ◌-◌,
}
use mathlib.Core.List.{reverse, reverse-cons, reverse-append, reverse-reverse}
use image_updater.Text.{Text, text_eq_iff, text_eq_refl}
use image_updater.Patch.Paths.{same_front, matches_recursive_manifest_path}

-- The first segments agree exactly if the candidate begins with them.
same_front-of_prefix :
    (front pattern rest : List Text)
    → same_front (length front) (front ++ pattern) (front ++ rest) ≡ true
unfolding same_front
same_front-of_prefix [] pattern rest = refl
same_front-of_prefix (f ∷ front) pattern rest =
    ground (arith, text_eq_refl f, same_front-of_prefix front pattern rest)

prefix-of_same_front :
    (front pattern candidate : List Text)
    → same_front (length front) (front ++ pattern) candidate ≡ true
    → (rest : List Text) × (candidate ≡ front ++ rest)
unfolding same_front
prefix-of_same_front [] pattern candidate h = (candidate, refl)
prefix-of_same_front (f ∷ front) pattern [] h = absurd (ground arith)
prefix-of_same_front (f ∷ front) pattern (c ∷ candidate) h =
    let (rest, e) = prefix-of_same_front front pattern candidate (ground arith) in
    (rest, cc (e, (text_eq_iff f c).0 (ground arith)))

-- Of two splits of a list, the one with the longer front holds the other's.
front-of_longer :
    (a r b s : List Text)
    → a ++ r ≡ b ++ s
    → length a ≤ length b
    → (mid : List Text) × (r ≡ mid ++ s)
front-of_longer [] r b s e l = (b, e)
front-of_longer (x ∷ a) r [] s e l = absurd (omega arith)
front-of_longer (x ∷ a) r (y ∷ b) s e l = front-of_longer a r b s (tail e) (omega arith)
  where
    tail : x ∷ (a ++ r) ≡ y ∷ (b ++ s) → a ++ r ≡ b ++ s
    tail h = cc

length-reverse : (xs : List Text) → length (reverse xs) ≡ length xs
length-reverse [] = refl
length-reverse (x ∷ xs) =
    ap length (reverse-cons x xs)
    ∙ length-append (reverse xs) (x ∷ [])
    ∙ omega (arith, length-reverse xs)

-- A pattern from its end: the segments behind the wildcard come first.
reverse-pattern :
    (front : List Text) (w : Text) (back : List Text)
    → reverse (front ++ w ∷ back) ≡ reverse back ++ w ∷ reverse front
reverse-pattern front w back =
    reverse-append front (w ∷ back)
    ∙ ap (λ x. x ++ reverse front) (reverse-cons w back)
    ∙ append_assoc (reverse back) (w ∷ []) (reverse front)

-- The number of segments behind the wildcard.
length-back :
    (front : List Text) (w : Text) (back : List Text)
    → length (front ++ w ∷ back) - length front - 1 ≡ length (reverse back)
length-back front w back = omega (arith, length-append front (w ∷ back), length-reverse back)

back-of_same_front :
    (front : List Text) (w : Text) (back candidate : List Text)
    → same_front (length (reverse back)) (reverse back ++ w ∷ reverse front) (reverse candidate)
      ≡ true
    → (head : List Text) × (candidate ≡ head ++ back)
back-of_same_front front w back candidate h =
    let (rest, e) = prefix-of_same_front (reverse back) (w ∷ reverse front) (reverse candidate) h in
    (
      reverse rest,
      sym (reverse-reverse candidate)
          ∙ ap reverse e
          ∙ reverse-append (reverse back) rest
          ∙ ap (λ x. reverse rest ++ x) (reverse-reverse back),
    )

-- The three tests of the code.
matches-tests :
    (front : List Text) (w : Text) (back candidate : List Text)
    → (matches_recursive_manifest_path (front ++ w ∷ back) candidate (length front) ≡ true) ↔ (
        (length front + length back ≤ length candidate)
        × (same_front (length front) (front ++ w ∷ back) candidate ≡ true)
        × (same_front
              (length (reverse back))
              (reverse back ++ w ∷ reverse front)
              (reverse candidate)
            ≡ true))
unfolding matches_recursive_manifest_path
matches-tests front w back candidate =
    rw (length-back front w back, reverse-pattern front w back)
      (ground (arith, length-append front (w ∷ back)))

-- A directory matches a pattern exactly if it consists of the segments before the wildcard, any
-- number of segments, also none, and the segments behind the wildcard.
pub matches_recursive_manifest_path_iff :
    (front : List Text) (w : Text) (back candidate : List Text)
    → (matches_recursive_manifest_path (front ++ w ∷ back) candidate (length front) ≡ true)
      ↔ ((mid : List Text) × (candidate ≡ front ++ (mid ++ back)))
matches_recursive_manifest_path_iff front w back candidate = (
  λ h.
      let (long, begins, ends) = (matches-tests front w back candidate).0 h in
      let (rest, p) = prefix-of_same_front front (w ∷ back) candidate begins in
      let (head, q) = back-of_same_front front w back candidate ends in
      let (mid, r) = front-of_longer front rest head back (sym p ∙ q) (shorter head q long) in
      (mid, p ∙ ap (λ x. front ++ x) r),
  λ (mid, e). (matches-tests front w back candidate).1 (rw e (fits mid)),
)
  where
    shorter :
        (head : List Text)
        → candidate ≡ head ++ back
        → length front + length back ≤ length candidate
        → length front ≤ length head
    shorter head q long = omega (arith, ap length q ∙ length-append head back, long)

    turned :
        (mid : List Text)
        → reverse (front ++ (mid ++ back)) ≡ reverse back ++ (reverse mid ++ reverse front)
    turned mid =
        reverse-append front (mid ++ back)
        ∙ ap (λ x. x ++ reverse front) (reverse-append mid back)
        ∙ append_assoc (reverse back) (reverse mid) (reverse front)

    fits :
        (mid : List Text)
        → (length front + length back ≤ length (front ++ (mid ++ back)))
          × (same_front (length front) (front ++ w ∷ back) (front ++ (mid ++ back)) ≡ true)
          × (same_front
                (length (reverse back))
                (reverse back ++ w ∷ reverse front)
                (reverse (front ++ (mid ++ back)))
              ≡ true)
    fits mid = (
      omega (arith, length-append front (mid ++ back), length-append mid back),
      same_front-of_prefix front (w ∷ back) (mid ++ back),
      rw (turned mid)
          (same_front-of_prefix (reverse back) (w ∷ reverse front) (reverse mid ++ reverse front)),
    )
