-- ===== src/Updater/Targets/Normal.antt =====
-- internal/application/updater/service.go: what `normalizeManifestTargets` returns.
use image_updater.Prelude.{
  ◌≡◌, refl, sym, subst, true, false, List, [], ◌∷◌, ◌⊎◌, inl, inr, arith, All, In, IsSorted,
  sort_by, IsSorted-sort_by, In-sort_by, In-of_sort_by, Bool-cases, All-In, All-of_In, ◌∙◌,
}
use image_updater.Text.{Text, text_eq, text_eq_iff}
use image_updater.Text.Order.{text_lt, text_lt_irrefl}
use image_updater.Model.Errors.{Error, Result, ok, err}
use image_updater.Updater.Types.{ManifestTarget}
use image_updater.Updater.Targets.{
  target_lt, conflicts, unique_from, unique, prepend, normalize_manifest_targets,
}
use image_updater.Updater.Targets.Order.{target_lt-IsOrder, dir_lt, dir_lt_later}

-- Strictly ascending directories.
abbrev pub Ascending : List ManifestTarget → Type 0
Ascending [] = Unit
Ascending (t ∷ ts) = All (λ u. text_lt t.location.dir u.location.dir ≡ true) ts × Ascending ts

-- The same directory, with nothing that contradicts.
pub record Agrees (t u : ManifestTarget) : Type 0 where
  pub dir : t.location.dir ≡ u.location.dir
  pub settings : conflicts t u ≡ false

-- `us` is `ts` with one target for each directory.
pub record IsNormal (ts us : List ManifestTarget) : Type 0 where
  pub ascending : Ascending us
  pub taken : (u : ManifestTarget) → In u us → In u ts
  pub covered : (t : ManifestTarget) → In t ts → (u : ManifestTarget) × In u us × Agrees u t

-- Two targets of one directory that contradict one another.
pub Contradiction : List ManifestTarget → Type 0
Contradiction ts =
    (t : ManifestTarget) × (u : ManifestTarget) × In t ts
    × In u ts
    × (t.location.dir ≡ u.location.dir)
    × (conflicts t u ≡ true)

conflicts_refl : (t : ManifestTarget) → conflicts t t ≡ false
unfolding conflicts
conflicts_refl t = ground (arith, (text_eq_iff t.env t.env).1 refl)

conflicts_trans :
    (a b c : ManifestTarget) → conflicts a b ≡ false → conflicts b c ≡ false → conflicts a c ≡ false
unfolding conflicts
conflicts_trans a b c h k =
    ground (arith, text_eq_iff a.env b.env, text_eq_iff b.env c.env, text_eq_iff a.env c.env)

Agrees-trans : (a b c : ManifestTarget) → Agrees a b → Agrees b c → Agrees a c
Agrees-trans a b c h k = record {
  dir = h.dir ∙ k.dir;
  settings = conflicts_trans a b c h.settings k.settings;
}

Outcome : List ManifestTarget → Result (List ManifestTarget) → Type 0
Outcome ts (ok us) = IsNormal ts us
Outcome ts (err e) = Contradiction ts

-- The first of the sorted targets is kept.
unique_from-Outcome :
    (url : Text) (p : ManifestTarget) (ts : List ManifestTarget)
    → IsSorted target_lt (p ∷ ts)
    → Outcome (p ∷ ts) (unique_from url p ts)
unfolding unique_from Outcome Contradiction
unique_from-Outcome url p [] s = record {
  ascending = (tt, tt);
  taken = λ u i. i;
  covered = λ t i. elim i [
    | inl e ↦ (
      p,
      inl refl,
      subst (λ x. Agrees p x) (sym e) (record { dir = refl; settings = conflicts_refl p }),
    )
    | inr i ↦ absurd i
  ];
}
unique_from-Outcome url p (t ∷ ts) (h, s) =
    elim (Bool-cases (text_eq p.location.dir t.location.dir)) [
      | inl same ↦ elim (Bool-cases (conflicts p t)) [
        | inl bad ↦
            rw (same, bad, unique_from)
              (
                p,
                t,
                inl refl,
                inr (inl refl),
                (text_eq_iff p.location.dir t.location.dir).0 same,
                bad,
              )
        | inr good ↦
            rw (same, good, unique_from)
              (skip same good (unique_from url p ts) (unique_from-Outcome url p ts (h.1, s.1)))
      ]
      | inr other ↦
          rw (other, unique_from)
            (keep other (unique_from url t ts) (unique_from-Outcome url t ts s))
    ]
  where
    skip :
        text_eq p.location.dir t.location.dir ≡ true
        → conflicts p t ≡ false
        → (r : Result (List ManifestTarget)) → Outcome (p ∷ ts) r
        → Outcome (p ∷ t ∷ ts) r
    skip same good (ok us) o = record {
      ascending = o.ascending;
      taken = λ u i. elim (o.taken u i) [ inl e ↦ inl e | inr j ↦ inr (inr j) ];
      covered = λ x i. elim i [
        | inl e ↦ o.covered x (inl e)
        | inr (inl e) ↦
            let (u, j, a) = o.covered p (inl refl) in
            (
              u,
              j,
              subst (λ y. Agrees u y) (sym e)
                  (Agrees-trans u p t a (record {
                    dir = (text_eq_iff p.location.dir t.location.dir).0 same;
                    settings = good;
                  })),
            )
        | inr (inr j) ↦ o.covered x (inr j)
      ];
    }
    skip same good (err e) (a, b, i, j, d, c) = (
      a,
      b,
      elim i [ inl q ↦ inl q | inr q ↦ inr (inr q) ],
      elim j [ inl q ↦ inl q | inr q ↦ inr (inr q) ],
      d,
      c,
    )

    keep :
        text_eq p.location.dir t.location.dir ≡ false
        → (r : Result (List ManifestTarget)) → Outcome (t ∷ ts) r
        → Outcome (p ∷ t ∷ ts) (prepend p r)
    keep other (ok us) o = record {
      ascending = (
        All-of_In (λ u. text_lt p.location.dir u.location.dir ≡ true) us
            (λ u i. above u (o.taken u i)),
        o.ascending,
      );
      taken = λ u i. elim i [ inl e ↦ inl e | inr j ↦ inr (o.taken u j) ];
      covered = λ x i. elim i [
        | inl e ↦ (
          p,
          inl refl,
          subst (λ y. Agrees p y) (sym e) (record { dir = refl; settings = conflicts_refl p }),
        )
        | inr j ↦ let (u, k, a) = o.covered x j in (u, inr k, a)
      ];
    }
      where
        above : (u : ManifestTarget) → In u (t ∷ ts) → text_lt p.location.dir u.location.dir ≡ true
        above u (inl e) =
            subst (λ y. text_lt p.location.dir y.location.dir ≡ true) (sym e) (dir_lt p t h.0 other)
        above u (inr j) =
            dir_lt_later p t u (dir_lt p t h.0 other)
              (All-In (λ y. target_lt y t ≡ false) ts u s.0 j)
    keep other (err e) (a, b, i, j, d, c) = (a, b, inr i, inr j, d, c)

unique-Outcome :
    (url : Text) (ts : List ManifestTarget) → IsSorted target_lt ts → Outcome ts (unique url ts)
unfolding unique Outcome
unique-Outcome url [] s = record { ascending = tt; taken = λ u i. i; covered = λ t i. absurd i }
unique-Outcome url (t ∷ ts) s = unique_from-Outcome url t ts s

-- The outcome depends only on which targets there are.
Outcome-same :
    (ts vs : List ManifestTarget)
    → ((t : ManifestTarget) → In t vs → In t ts)
    → ((t : ManifestTarget) → In t ts → In t vs)
    → (r : Result (List ManifestTarget)) → Outcome vs r
    → Outcome ts r
unfolding Outcome Contradiction
Outcome-same ts vs to from (ok us) o = record {
  ascending = o.ascending;
  taken = λ u i. to u (o.taken u i);
  covered = λ t i. o.covered t (from t i);
}
Outcome-same ts vs to from (err e) (a, b, i, j, d, c) = (a, b, to a i, to b j, d, c)

normalize-Outcome :
    (url : Text) (ts : List ManifestTarget) → Outcome ts (normalize_manifest_targets url ts)
unfolding normalize_manifest_targets
normalize-Outcome url ts =
    Outcome-same ts (sort_by target_lt ts) (λ t. In-of_sort_by target_lt t ts)
      (λ t. In-sort_by target_lt t ts) (unique url (sort_by target_lt ts))
      (unique-Outcome url (sort_by target_lt ts) (IsSorted-sort_by target_lt target_lt-IsOrder ts))

-- Ascending targets of one directory are one target.
pub Ascending-unique :
    (us : List ManifestTarget) (a b : ManifestTarget)
    → Ascending us
    → In a us
    → In b us
    → a.location.dir ≡ b.location.dir
    → a ≡ b
Ascending-unique [] a b s i j e = absurd i
Ascending-unique (u ∷ us) a b (h, s) (inl p) (inl q) e = p ∙ sym q
Ascending-unique (u ∷ us) a b (h, s) (inl p) (inr j) e = absurd (
    cc (
      All-In (λ y. text_lt u.location.dir y.location.dir ≡ true) us b h j,
      text_lt_irrefl b.location.dir,
      e,
      p,
    ))
Ascending-unique (u ∷ us) a b (h, s) (inr i) (inl q) e = absurd (
    cc (
      All-In (λ y. text_lt u.location.dir y.location.dir ≡ true) us a h i,
      text_lt_irrefl a.location.dir,
      e,
      q,
    ))
Ascending-unique (u ∷ us) a b (h, s) (inr i) (inr j) e = Ascending-unique us a b s i j e

conflicts_sym : (a b : ManifestTarget) → conflicts a b ≡ conflicts b a
unfolding conflicts
conflicts_sym a b = ground (arith, text_eq_iff a.env b.env, text_eq_iff b.env a.env)

IsNormal-agrees : (ts us : List ManifestTarget) → IsNormal ts us → ¬ (Contradiction ts)
unfolding Contradiction
IsNormal-agrees ts us n (a, b, i, j, d, c) =
    let (x, k, p) = n.covered a i in
    let (y, l, q) = n.covered b j in
    let same = Ascending-unique us x y n.ascending k l (p.dir ∙ d ∙ sym q.dir) in
    cc (
      c,
      conflicts_trans a x b (conflicts_sym a x ∙ p.settings)
          (subst (λ z. conflicts z b ≡ false) (sym same) q.settings),
    )

-- `normalizeManifestTargets` returns one of the given targets for each directory, with directories
-- strictly ascending and the settings of every given target of that directory; and it fails exactly
-- where two given targets of one directory differ in environment or in writing the manifest block.
pub normalize_manifest_targets-IsNormal :
    (url : Text) (ts : List ManifestTarget)
    → ((us : List ManifestTarget) × (normalize_manifest_targets url ts ≡ ok us)
        × IsNormal ts us
        × (¬ Contradiction ts))
      ⊎ ((e : Error) × (normalize_manifest_targets url ts ≡ err e) × Contradiction ts)
unfolding Outcome
normalize_manifest_targets-IsNormal url ts =
    judge (normalize_manifest_targets url ts) (normalize-Outcome url ts) refl
  where
    judge :
        (r : Result (List ManifestTarget))
        → Outcome ts r
        → normalize_manifest_targets url ts ≡ r
        → ((us : List ManifestTarget) × (normalize_manifest_targets url ts ≡ ok us)
            × IsNormal ts us
            × (¬ Contradiction ts))
          ⊎ ((e : Error) × (normalize_manifest_targets url ts ≡ err e) × Contradiction ts)
    judge (ok us) o e = inl (us, e, o, IsNormal-agrees ts us o)
    judge (err x) o e = inr (x, e, o)
