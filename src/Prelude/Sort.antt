-- ===== src/Prelude/Sort.antt =====
-- Sorting by a Boolean order, as `sort.Slice` and `sort.Strings` use one, and what a sort keeps.
use mathlib.Core.Path.{◌≡◌}
use mathlib.Core.Logic.{◌⊎◌, inl, inr}
use mathlib.Core.Bool.{Bool, true, false}
use mathlib.Core.List.{List, [], ◌∷◌}
use image_updater.Prelude.Tests.{if◌then◌else◌, Bool-cases}
use image_updater.Prelude.Lists.{In, All, All-In, All-of_In}

module _ {ℓ} {A : Type ℓ} (less : A → A → Bool) where
  -- A stable insertion: behind every element that is not above the new one.
  unfoldable pub insert_by : A → List A → List A
  insert_by a [] = a ∷ []
  insert_by a (x ∷ xs) = let rest = insert_by a xs in if less a x then a ∷ x ∷ xs else x ∷ rest

  unfoldable pub sort_back : List A → List A → List A
  sort_back [] done = done
  sort_back (x ∷ xs) done = sort_back xs (insert_by x done)

  -- The elements are inserted from the left, each behind its equals: the sort is stable.
  unfoldable pub sort_by : List A → List A
  unfolding sort_back
  sort_by xs = sort_back xs []

  -- No later element is below an earlier one.
  abbrev pub IsSorted : List A → Type ℓ
  IsSorted [] = Unit
  IsSorted (x ∷ xs) = All (λ y. less y x ≡ false) xs × IsSorted xs

  pub All-insert_by {κ} :
      (P : A → Type κ) (a : A) (xs : List A) → P a → All P xs → All P (insert_by a xs)
  unfolding insert_by
  All-insert_by P a [] p h = (p, tt)
  All-insert_by P a (x ∷ xs) p (px, h) = elim (Bool-cases (less a x)) [
    | inl e ↦ rw e (p, (px, h))
    | inr e ↦ rw e (px, All-insert_by P a xs p h)
  ]

  All-sort_back {κ} :
      (P : A → Type κ) (xs done : List A) → All P xs → All P done → All P (sort_back xs done)
  unfolding sort_back
  All-sort_back P [] done h k = k
  All-sort_back P (x ∷ xs) done (p, h) k =
      All-sort_back P xs (insert_by x done) h (All-insert_by P x done p k)

  pub All-sort_by {κ} : (P : A → Type κ) (xs : List A) → All P xs → All P (sort_by xs)
  unfolding sort_by
  All-sort_by P xs h = All-sort_back P xs [] h tt

  -- What a strict weak order promises.
  pub record IsOrder : Type ℓ where
    pub asym : (a b : A) → less a b ≡ true → less b a ≡ false
    pub trans : (a b c : A) → less b a ≡ false → less c b ≡ false → less c a ≡ false

  module _ (order : IsOrder) where
    All-below :
        (a b : A) (xs : List A)
        → less b a ≡ false
        → All (λ y. less y b ≡ false) xs
        → All (λ y. less y a ≡ false) xs
    All-below a b [] h k = tt
    All-below a b (x ∷ xs) h (p, k) = (order.trans a b x h p, All-below a b xs h k)

    pub IsSorted-insert_by : (a : A) (xs : List A) → IsSorted xs → IsSorted (insert_by a xs)
    unfolding insert_by
    IsSorted-insert_by a [] s = (tt, tt)
    IsSorted-insert_by a (x ∷ xs) (h, s) = elim (Bool-cases (less a x)) [
      | inl e ↦ rw e ((order.asym a x e, All-below a x xs (order.asym a x e) h), (h, s))
      | inr e ↦ rw e (All-insert_by (λ y. less y x ≡ false) a xs e h, IsSorted-insert_by a xs s)
    ]

    IsSorted-sort_back : (xs done : List A) → IsSorted done → IsSorted (sort_back xs done)
    unfolding sort_back
    IsSorted-sort_back [] done s = s
    IsSorted-sort_back (x ∷ xs) done s =
        IsSorted-sort_back xs (insert_by x done) (IsSorted-insert_by x done s)

    pub IsSorted-sort_by : (xs : List A) → IsSorted (sort_by xs)
    unfolding sort_by
    IsSorted-sort_by xs = IsSorted-sort_back xs [] tt

module _ {A : Type 0} (less : A → A → Bool) where
  In-insert_by : (b a : A) (xs : List A) → (b ≡ a) ⊎ In b xs → In b (insert_by less a xs)
  unfolding insert_by
  In-insert_by b a [] h = h
  In-insert_by b a (x ∷ xs) h = elim (Bool-cases (less a x)) [
    | inl e ↦ rw e h
    | inr e ↦ rw e (elim h [
      | inl p ↦ inr (In-insert_by b a xs (inl p))
      | inr (inl p) ↦ inl p
      | inr (inr i) ↦ inr (In-insert_by b a xs (inr i))
    ])
  ]

  In-sort_back : (b : A) (xs done : List A) → In b xs ⊎ In b done → In b (sort_back less xs done)
  unfolding sort_back
  In-sort_back b [] done h = elim h [ inl i ↦ absurd i | inr i ↦ i ]
  In-sort_back b (x ∷ xs) done h = In-sort_back b xs (insert_by less x done) (elim h [
    | inl (inl p) ↦ inr (In-insert_by b x done (inl p))
    | inl (inr i) ↦ inl i
    | inr i ↦ inr (In-insert_by b x done (inr i))
  ])

  pub In-sort_by : (b : A) (xs : List A) → In b xs → In b (sort_by less xs)
  unfolding sort_by
  In-sort_by b xs h = In-sort_back b xs [] (inl h)

  pub In-of_sort_by : (b : A) (xs : List A) → In b (sort_by less xs) → In b xs
  In-of_sort_by b xs h =
      All-In (λ y. In y xs) (sort_by less xs) b
        (All-sort_by less (λ y. In y xs) xs (All-of_In (λ y. In y xs) xs (λ a i. i))) h
