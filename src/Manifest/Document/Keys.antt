-- ===== src/Manifest/Document/Keys.antt =====
-- internal/model/manifest.go: a document as a map from images to entries.
use image_updater.Prelude.{
  ◌≡◌, ◌⊎◌, refl, subst, sym, ap, ◌∙◌, true, false, List, [], ◌∷◌, ◌++◌, Option, none, some, arith,
  inl, inr, if◌then◌else◌, Bool-cases, find, sort_by, sort_back, insert_by, IsSorted, IsOrder, All,
  IsSorted-insert_by, IsSorted-sort_by, append_assoc, append-nil,
}
use image_updater.Text.{Text, text_eq, text_eq_iff, text_eq_refl}
use image_updater.Text.Order.{text_lt, text_lt_irrefl, text_lt-IsOrder}
use image_updater.Label.Labels.{ImageManifest}
use image_updater.Manifest.Document.{
  ImageManifestDocument, image_lt, replace_first, stamp, placed, upsert,
}

-- The first entry of an image.
unfoldable pub entry_of : Text → List ImageManifest → Option ImageManifest
unfolding text_eq
entry_of image = find (λ (e : ImageManifest). text_eq e.image image)

image_lt-IsOrder : IsOrder image_lt
unfolding image_lt
image_lt-IsOrder = record {
  asym = λ a b. text_lt-IsOrder.asym a.image b.image;
  trans = λ a b c. text_lt-IsOrder.trans a.image b.image c.image;
}

entry_of-append :
    (k : Text) (xs : List ImageManifest) (y : ImageManifest)
    → entry_of k (xs ++ y ∷ [])
      ≡ elim (entry_of k xs) [ some e ↦ some e | none ↦ if text_eq y.image k then some y else none ]
unfolding entry_of
entry_of-append k [] y = refl
entry_of-append k (x ∷ xs) y = ground (arith, entry_of-append k xs y)

-- Nothing above an entry has its key.
entry_of-above :
    (k : Text) (x : ImageManifest) (ys : List ImageManifest)
    → text_lt k x.image ≡ true
    → All (λ y. image_lt y x ≡ false) ys
    → entry_of k ys ≡ none
unfolding entry_of image_lt
entry_of-above k x [] h a = refl
entry_of-above k x (y ∷ ys) h (b, a) = elim (Bool-cases (text_eq y.image k)) [
  | inl e ↦ absurd (ground (arith, (text_eq_iff y.image k).0 e, h, b))
  | inr e ↦ rw (e, entry_of-above k x ys h a)
]

-- The first entry of two lists: that of the first list, if it has one.
abbrev or_else : Option ImageManifest → Option ImageManifest → Option ImageManifest
or_else (some e) o = some e
or_else none o = o

entry_of-insert_by :
    (k : Text) (x : ImageManifest) (ys : List ImageManifest)
    → IsSorted image_lt ys
    → entry_of k (insert_by image_lt x ys)
      ≡ or_else (entry_of k ys) (if text_eq x.image k then some x else none)
unfolding entry_of insert_by
entry_of-insert_by k x [] s = ground arith
entry_of-insert_by k x (y ∷ ys) (b, s) = elim (Bool-cases (image_lt x y)) [
  | inl e ↦ elim (Bool-cases (text_eq x.image k)) [
    | inl f ↦ rw (
      e,
      f,
      entry_of-above k y (y ∷ ys) (unfold image_lt in rw (sym ((text_eq_iff x.image k).0 f)) e)
          (unfold image_lt in (text_lt_irrefl y.image, b)),
    )
    | inr f ↦ ground (arith, e, f)
  ]
  | inr e ↦ ground (arith, e, entry_of-insert_by k x ys s)
]

-- Sorting keeps the first entry of every image.
entry_of-sort_back :
    (k : Text) (xs done : List ImageManifest)
    → IsSorted image_lt done
    → entry_of k (sort_back image_lt xs done) ≡ or_else (entry_of k done) (entry_of k xs)
unfolding sort_back entry_of
entry_of-sort_back k [] done s = ground arith
entry_of-sort_back k (x ∷ xs) done s = ground (
  arith,
  entry_of-sort_back k xs (insert_by image_lt x done)
      (IsSorted-insert_by image_lt image_lt-IsOrder x done s),
  entry_of-insert_by k x done s,
)

entry_of-sort_by :
    (k : Text) (xs : List ImageManifest) → entry_of k (sort_by image_lt xs) ≡ entry_of k xs
unfolding sort_by entry_of
entry_of-sort_by k xs = entry_of-sort_back k xs [] tt

entry_of-replaced :
    (k : Text) (m : ImageManifest) (xs : List ImageManifest)
    → (replace_first m xs).1 ≡ true
    → entry_of k (replace_first m xs).0 ≡ (if text_eq m.image k then some m else entry_of k xs)
unfolding replace_first entry_of
entry_of-replaced k m [] h = cc
entry_of-replaced k m (x ∷ xs) h = ground (
  arith,
  entry_of-replaced k m xs,
  text_eq_iff x.image m.image,
  text_eq_iff x.image k,
  text_eq_iff m.image k,
)

entry_of-absent :
    (m : ImageManifest) (xs : List ImageManifest)
    → (replace_first m xs).1 ≡ false
    → entry_of m.image xs ≡ none
unfolding replace_first entry_of
entry_of-absent m [] h = refl
entry_of-absent m (x ∷ xs) h = ground (arith, entry_of-absent m xs)

entry_of-placed :
    (k : Text) (m : ImageManifest) (xs : List ImageManifest)
    → entry_of k (placed m xs) ≡ (if text_eq m.image k then some m else entry_of k xs)
unfolding placed
entry_of-placed k m xs = elim (Bool-cases (replace_first m xs).1) [
  | inl e ↦ rw e (entry_of-replaced k m xs e)
  | inr e ↦
      rw e
        (entry_of-append k xs m ∙ absent (entry_of-absent m xs e) (Bool-cases (text_eq m.image k)))
]
  where
    absent :
        entry_of m.image xs ≡ none
        → (text_eq m.image k ≡ true) ⊎ (text_eq m.image k ≡ false)
        → elim (entry_of k xs) as (λ _. Option ImageManifest) [
          | some e ↦ some e
          | none ↦ if text_eq m.image k then some m else none
        ]
          ≡ (if text_eq m.image k then some m else entry_of k xs)
    absent n (inl t) =
        let n' : entry_of k xs ≡ none =
          subst (λ z. entry_of z xs ≡ none) ((text_eq_iff m.image k).0 t) n in
        ground (arith, n', t)
    absent n (inr f) = ground (arith, f)

-- `Upsert` writes one entry of a map from images to entries: the image has the new entry, every other
-- image the entry that it had, and the entries are in ascending order of their images.
pub entry_of-upsert :
    (d : ImageManifestDocument) (m : ImageManifest)
    → ((k : Text)
        → entry_of k (upsert d m).images
          ≡ (if text_eq m.image k then some m else entry_of k d.images))
      × IsSorted image_lt (upsert d m).images
unfolding upsert
entry_of-upsert d m = (
  λ k. entry_of-sort_by k (placed m d.images) ∙ entry_of-placed k m d.images,
  IsSorted-sort_by image_lt image_lt-IsOrder (placed m d.images),
)

-- An insertion behind everything that is not above it.
insert_by-end :
    (x : ImageManifest) (ys : List ImageManifest)
    → All (λ y. image_lt x y ≡ false) ys
    → insert_by image_lt x ys ≡ ys ++ x ∷ []
unfolding insert_by
insert_by-end x [] h = refl
insert_by-end x (y ∷ ys) (b, h) = rw (b, insert_by-end x ys h)

IsSorted-front :
    (done : List ImageManifest) (x : ImageManifest) (xs : List ImageManifest)
    → IsSorted image_lt (done ++ x ∷ xs)
    → All (λ y. image_lt x y ≡ false) done
IsSorted-front [] x xs s = tt
IsSorted-front (y ∷ done) x xs (b, s) = (first done b, IsSorted-front done x xs s)
  where
    first :
        (zs : List ImageManifest)
        → All (λ z. image_lt z y ≡ false) (zs ++ x ∷ xs)
        → image_lt x y ≡ false
    first [] (h, _) = h
    first (z ∷ zs) (_, h) = first zs h

sort_back-of_IsSorted :
    (xs done : List ImageManifest)
    → IsSorted image_lt (done ++ xs)
    → sort_back image_lt xs done ≡ done ++ xs
unfolding sort_back
sort_back-of_IsSorted [] done s = sym (append-nil done)
sort_back-of_IsSorted (x ∷ xs) done s =
    ap (sort_back image_lt xs) (insert_by-end x done (IsSorted-front done x xs s))
    ∙ sort_back-of_IsSorted xs (done ++ x ∷ [])
        (subst (IsSorted image_lt) (sym (append_assoc done (x ∷ []) xs)) s)
    ∙ append_assoc done (x ∷ []) xs

replace_first-same :
    (m : ImageManifest) (xs : List ImageManifest)
    → entry_of m.image xs ≡ some m
    → replace_first m xs ≡ (xs, true)
unfolding replace_first entry_of
replace_first-same m [] h = cc
replace_first-same m (x ∷ xs) h = elim (Bool-cases (text_eq x.image m.image)) [
  | inl e ↦ let same : x ≡ m = ground (arith, e, h) in rw (e, same)
  | inr e ↦ ground (arith, e, h, replace_first-same m xs)
]

-- Replacing the entry of an image by itself.
placed-same :
    (m : ImageManifest) (xs : List ImageManifest) → entry_of m.image xs ≡ some m → placed m xs ≡ xs
unfolding placed
placed-same m xs h = rw (replace_first-same m xs h)

sort_by-of_IsSorted : (xs : List ImageManifest) → IsSorted image_lt xs → sort_by image_lt xs ≡ xs
unfolding sort_by
sort_by-of_IsSorted xs s = sort_back-of_IsSorted xs [] s

-- `Upsert` of an entry that it wrote changes nothing.
pub upsert-upsert :
    (d : ImageManifestDocument) (m : ImageManifest) → upsert (upsert d m) m ≡ upsert d m
unfolding upsert
upsert-upsert d m =
    ap (λ xs. record (stamp d) { images = xs })
      (ap (sort_by image_lt) (placed-same m sorted mine)
        ∙ sort_by-of_IsSorted sorted
            (IsSorted-sort_by image_lt image_lt-IsOrder (placed m d.images)))
  where
    sorted : List ImageManifest
    sorted = sort_by image_lt (placed m d.images)

    mine : entry_of m.image sorted ≡ some m
    mine =
        entry_of-sort_by m.image (placed m d.images)
        ∙ entry_of-placed m.image m d.images
        ∙ rw (text_eq_refl m.image)
