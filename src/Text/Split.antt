-- ===== src/Text/Split.antt =====
-- `strings.Split`, `strings.Join` and `strings.Cut` at a separator of one byte, and their laws.
use image_updater.Prelude.{
  ℕ, ◌≡◌, ◌≢◌, refl, ap, ◌∙◌, Bool, true, false, List, [], ◌∷◌, ◌++◌, inl, inr, arith, ◌==◌,
  if◌then◌else◌, All, Bool-cases,
}

-- Puts a byte in front of the first part.
push : ℕ → List (List ℕ) → List (List ℕ)
push c [] = (c ∷ []) ∷ []
push c (p ∷ ps) = (c ∷ p) ∷ ps

-- strings.Split(s, sep): always at least one part
unfoldable pub split : ℕ → List ℕ → List (List ℕ)
unfolding push
split sep [] = [] ∷ []
split sep (c ∷ s) = let rest = split sep s in if c == sep then [] ∷ rest else push c rest

-- strings.Join(parts, sep)
unfoldable pub join : List ℕ → List (List ℕ) → List ℕ
join sep [] = []
join sep (p ∷ []) = p
join sep (p ∷ q ∷ ps) = p ++ (sep ++ join sep (q ∷ ps))

-- strings.Cut(s, sep): what stands before the first separator, what stands behind it, and whether
-- there is one.
unfoldable pub cut : ℕ → List ℕ → List ℕ × List ℕ × Bool
cut sep [] = ([], [], false)
cut sep (c ∷ s) =
    let (before, after, found) = cut sep s in
    if c == sep then ([], s, true) else (c ∷ before, after, found)

-- The text holds no such byte.
abbrev pub Lacks : ℕ → List ℕ → Type 0
Lacks b = All (λ c. c ≢ b)

push-Lacks :
    (sep c : ℕ) (ps : List (List ℕ)) → c ≢ sep → All (Lacks sep) ps → All (Lacks sep) (push c ps)
unfolding push
push-Lacks sep c [] n h = ((n, tt), tt)
push-Lacks sep c (p ∷ ps) n (hp, h) = ((n, hp), h)

-- No part of a split holds the separator.
pub split-Lacks : (sep : ℕ) (s : List ℕ) → All (Lacks sep) (split sep s)
unfolding split
split-Lacks sep [] = (tt, tt)
split-Lacks sep (c ∷ s) = elim (Bool-cases (c == sep)) [
  | inl e ↦ rw e (tt, split-Lacks sep s)
  | inr e ↦ rw e (push-Lacks sep c (split sep s) (ground arith) (split-Lacks sep s))
]

pub split-of_Lacks : (sep : ℕ) (s : List ℕ) → Lacks sep s → split sep s ≡ s ∷ []
unfolding split push
split-of_Lacks sep [] h = refl
split-of_Lacks sep (c ∷ s) (n, h) = ground (arith, split-of_Lacks sep s h)

split-append : (sep : ℕ) (p s : List ℕ) → Lacks sep p → split sep (p ++ (sep ∷ s)) ≡ p ∷ split sep s
unfolding split push
split-append sep [] s h = ground arith
split-append sep (c ∷ p) s (n, h) = ground (arith, split-append sep p s h)

-- Splitting a join gives the parts back, if there is a part and none holds the separator.
pub split-join :
    (sep : ℕ) (p : List ℕ) (ps : List (List ℕ))
    → All (Lacks sep) (p ∷ ps)
    → split sep (join (sep ∷ []) (p ∷ ps)) ≡ p ∷ ps
unfolding join
split-join sep p [] (h, _) = split-of_Lacks sep p h
split-join sep p (q ∷ ps) (h, hs) =
    split-append sep p (join (sep ∷ []) (q ∷ ps)) h ∙ ap (λ r. p ∷ r) (split-join sep q ps hs)

split-ne-nil : (sep : ℕ) (s : List ℕ) → split sep s ≢ []
unfolding split push
split-ne-nil sep [] h = cc
split-ne-nil sep (c ∷ s) h = elim (Bool-cases (c == sep)) [
  | inl e ↦ absurd (ground (arith, e, h))
  | inr e ↦ push-ne-nil (split sep s) (ground (arith, e, h))
]
  where
    push-ne-nil : (ps : List (List ℕ)) → push c ps ≢ []
    push-ne-nil [] k = cc
    push-ne-nil (p ∷ ps) k = cc

join-push :
    (sep c : ℕ) (ps : List (List ℕ))
    → ps ≢ []
    → join (sep ∷ []) (push c ps) ≡ c ∷ join (sep ∷ []) ps
unfolding join push
join-push sep c [] n = absurd (n refl)
join-push sep c (p ∷ []) n = refl
join-push sep c (p ∷ q ∷ ps) n = refl

join-cons_nil :
    (sep : ℕ) (ps : List (List ℕ)) → ps ≢ [] → join (sep ∷ []) ([] ∷ ps) ≡ sep ∷ join (sep ∷ []) ps
unfolding join
join-cons_nil sep [] n = absurd (n refl)
join-cons_nil sep (p ∷ ps) n = refl

-- Joining a split gives the text back.
pub join-split : (sep : ℕ) (s : List ℕ) → join (sep ∷ []) (split sep s) ≡ s
unfolding split
join-split sep [] = unfold join in refl
join-split sep (c ∷ s) = elim (Bool-cases (c == sep)) [
  | inl e ↦
      rw e
        (join-cons_nil sep (split sep s) (split-ne-nil sep s) ∙ ground (arith, e, join-split sep s))
  | inr e ↦
      rw e (join-push sep c (split sep s) (split-ne-nil sep s) ∙ ap (λ t. c ∷ t) (join-split sep s))
]

cut-Lacks : (sep : ℕ) (s : List ℕ) → Lacks sep (cut sep s).0
unfolding cut
cut-Lacks sep [] = tt
cut-Lacks sep (c ∷ s) = ground (arith, cut-Lacks sep s)
