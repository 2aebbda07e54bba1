-- ===== src/Prelude/Slices.antt =====
-- Lists cut by native numbers: laws of `take`, `drop` and `get_or`.
use Prim.Native.Nat.{ℕ, zero, suc, ◌+◌, ◌-◌, ◌≤◌, ◌<◌}
use mathlib.Core.Path.{◌≡◌, refl, sym, ap, ◌∙◌}
use mathlib.Core.List.{List, [], ◌∷◌, ◌++◌, map, append_assoc}
use native.Mathlib.Omega.{arith}
use image_updater.Prelude.Lists.{length, get_or, take, drop, length-append}

module _ {ℓ} {A : Type ℓ} where
  pub append-take-drop : (n : ℕ) (xs : List A) → take n xs ++ drop n xs ≡ xs
  append-take-drop zero xs = refl
  append-take-drop (suc n) [] = refl
  append-take-drop (suc n) (x ∷ xs) = ap (λ t. x ∷ t) (append-take-drop n xs)

  pub length-take : (n : ℕ) (xs : List A) → n ≤ length xs → length (take n xs) ≡ n
  length-take zero xs h = refl
  length-take (suc n) [] h = absurd (omega arith)
  length-take (suc n) (x ∷ xs) h = ap suc (length-take n xs (omega arith))

  pub length-drop : (n : ℕ) (xs : List A) → length (drop n xs) ≡ length xs - n
  length-drop zero xs = omega arith
  length-drop (suc n) [] = omega arith
  length-drop (suc n) (x ∷ xs) = length-drop n xs ∙ omega arith

  pub take-append_self : (xs ys : List A) → take (length xs) (xs ++ ys) ≡ xs
  take-append_self [] ys = refl
  take-append_self (x ∷ xs) ys = ap (λ t. x ∷ t) (take-append_self xs ys)

  pub drop-append_self : (xs ys : List A) → drop (length xs) (xs ++ ys) ≡ ys
  drop-append_self [] ys = refl
  drop-append_self (x ∷ xs) ys = drop-append_self xs ys

  pub drop-nil : (n : ℕ) → drop {A = A} n [] ≡ []
  drop-nil zero = refl
  drop-nil (suc n) = refl

  pub drop-drop : (m n : ℕ) (xs : List A) → drop m (drop n xs) ≡ drop (n + m) xs
  drop-drop m zero xs = ap (λ k. drop k xs) (omega arith)
  drop-drop m (suc n) [] = drop-nil m ∙ sym (drop-nil (suc n + m))
  drop-drop m (suc n) (x ∷ xs) = drop-drop m n xs ∙ ap (λ k. drop k (x ∷ xs)) (next n)
    where
      next : (k : ℕ) → suc (k + m) ≡ suc k + m
      next k = omega arith

  pub get_or-append_left :
      (xs ys : List A) (i : ℕ) (d : A) → i < length xs → get_or (xs ++ ys) i d ≡ get_or xs i d
  get_or-append_left [] ys i d h = absurd (omega arith)
  get_or-append_left (x ∷ xs) ys zero d h = refl
  get_or-append_left (x ∷ xs) ys (suc i) d h = get_or-append_left xs ys i d (omega arith)

  pub get_or-append_right :
      (xs ys : List A) (i : ℕ) (d : A) → get_or (xs ++ ys) (length xs + i) d ≡ get_or ys i d
  get_or-append_right [] ys i d = ap (λ k. get_or ys k d) (omega arith)
  get_or-append_right (x ∷ xs) ys i d =
      ap (λ k. get_or (x ∷ (xs ++ ys)) k d) (next (length xs)) ∙ get_or-append_right xs ys i d
    where
      next : (n : ℕ) → suc n + i ≡ suc (n + i)
      next n = omega arith

  pub length-map {κ} : {B : Type κ} (f : A → B) (xs : List A) → length (map f xs) ≡ length xs
  length-map f [] = refl
  length-map f (x ∷ xs) = ap suc (length-map f xs)

  -- A list that is cut once, and then its second part.
  module _ (n k : ℕ) (xs pre rest : List A) (inside : n ≤ length xs)
      (parts : drop n xs ≡ pre ++ rest) (end_is : length pre + n ≡ k) where
    whole : xs ≡ (take n xs ++ pre) ++ rest
    whole =
        sym (append-take-drop n xs)
        ∙ ap (λ t. take n xs ++ t) parts
        ∙ sym (append_assoc (take n xs) pre rest)

    cut_at : k ≡ length (take n xs ++ pre)
    cut_at = omega (arith, end_is, length-append (take n xs) pre, length-take n xs inside)

    pub take-cut : take k xs ≡ take n xs ++ pre
    take-cut =
        ap (λ i. take i xs) cut_at
        ∙ ap (take (length (take n xs ++ pre))) whole
        ∙ take-append_self (take n xs ++ pre) rest

    pub drop-cut : drop k xs ≡ rest
    drop-cut =
        ap (λ i. drop i xs) cut_at
        ∙ ap (drop (length (take n xs ++ pre))) whole
        ∙ drop-append_self (take n xs ++ pre) rest
