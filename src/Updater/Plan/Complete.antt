-- ===== src/Updater/Plan/Complete.antt =====
-- internal/application/updater/service.go: the second loop of `plan`, over the repositories.
use image_updater.Prelude.{
  ◌≡◌, refl, sym, ◌∙◌, true, false, List, [], ◌∷◌, inl, inr, arith, All, All-of_In, In, subst,
  Bool-cases, insert_by, sort_back, sort_by, IsSorted, IsOrder, IsSorted-sort_by, All-insert_by,
}
use image_updater.Text.{Text, text_eq, text_eq_iff}
use image_updater.Text.Order.{text_lt, text_lt_total, text_lt-IsOrder}
use image_updater.Std.{Std}
use image_updater.Model.Errors.{ok, ok-of_>>=, ok-injective}
use image_updater.Model.Image.{ImagePushEvent}
use image_updater.Updater.Types.{ManifestTarget, RepositoryPlan}
use image_updater.Updater.Branch.{is_invalid_branch, validate_branch}
use image_updater.Updater.Targets.{normalize_manifest_targets}
use image_updater.Updater.Targets.Normal.{IsNormal, normalize_manifest_targets-IsNormal}
use image_updater.Updater.Plan.{key_lt, complete, complete_all, name_branch, branch_for}
use image_updater.Updater.Plan.Group.{key, DistinctKeys}

IsNormal-of_ok :
    (url : Text) (ts : List ManifestTarget) {us : List ManifestTarget}
    → normalize_manifest_targets url ts ≡ ok us
    → IsNormal ts us
IsNormal-of_ok url ts {us} h = elim (normalize_manifest_targets-IsNormal url ts) [
  | inl (vs, e, n, _) ↦ subst (IsNormal ts) (cc (e, h)) n
  | inr (e, p, _) ↦ absurd (cc (p, h))
]

-- A repository that is ready for its update.
pub record IsReady (std : Std) (p q : RepositoryPlan) : Type 0 where
  pub place : q.location ≡ p.location
  pub normal : IsNormal p.targets q.targets
  pub branch : is_invalid_branch q.branch ≡ false

name_branch-IsReady :
    (std : Std) (event : ImagePushEvent) (p : RepositoryPlan) (ts : List ManifestTarget)
    → {q : RepositoryPlan} → IsNormal p.targets ts
    → name_branch std event p ts ≡ ok q
    → IsReady std p q
unfolding name_branch
name_branch-IsReady std event p ts {q} n h =
    elim (Bool-cases (is_invalid_branch (branch_for std event p ts))) [
      | inl bad ↦ absurd (unfold validate_branch in ground (arith, bad, h))
      | inr good ↦
          subst (IsReady std p)
            (unfold validate_branch in ok-injective (rw (good, validate_branch) at h))
            (record { place = refl; normal = n; branch = good })
    ]

complete-IsReady :
    (std : Std) (event : ImagePushEvent) (p : RepositoryPlan) {q : RepositoryPlan}
    → complete std event p ≡ ok q
    → IsReady std p q
unfolding complete
complete-IsReady std event p h =
    let (ts, n, k) =
      ok-of_>>= (normalize_manifest_targets p.location.repository_url p.targets) _ h in
    name_branch-IsReady std event p ts (IsNormal-of_ok p.location.repository_url p.targets n) k

-- Every plan of the list, in order, is made ready.
pub data AllReady (std : Std) : List RepositoryPlan → List RepositoryPlan → Type 0 where
  none : AllReady std [] []
  next :
      {p q : RepositoryPlan} {ps qs : List RepositoryPlan}
      → IsReady std p q
      → AllReady std ps qs
      → AllReady std (p ∷ ps) (q ∷ qs)

pub complete_all-AllReady :
    (std : Std) (event : ImagePushEvent) (ps : List RepositoryPlan) {qs : List RepositoryPlan}
    → complete_all std event ps ≡ ok qs
    → AllReady std ps qs
unfolding complete_all
complete_all-AllReady std event [] h = subst (AllReady std []) (cc h) none
complete_all-AllReady std event (p ∷ ps) h =
    let (q, e, k) = ok-of_>>= (complete std event p) _ h in
    let (qs, f, m) = ok-of_>>= (complete_all std event ps) _ k in
    subst (AllReady std (p ∷ ps)) (cc m)
      (next (complete-IsReady std event p e) (complete_all-AllReady std event ps f))

pub AllReady-In :
    {std : Std} {ps qs : List RepositoryPlan}
    → AllReady std ps qs
    → (p : RepositoryPlan) → In p ps
    → (q : RepositoryPlan) × In q qs × IsReady std p q
AllReady-In none p i = absurd i
AllReady-In {std} (next {q = q} r a) p (inl e) =
    (q, inl refl, subst (λ x. IsReady std x q) (sym e) r)
AllReady-In (next r a) p (inr i) = let (q, j, k) = AllReady-In a p i in (q, inr j, k)

-- A property of the plans before gives one of the plans after.
pub AllReady-All :
    {std : Std} {ps qs : List RepositoryPlan} (P Q : RepositoryPlan → Type 0)
    → ((p q : RepositoryPlan) → IsReady std p q → P p → Q q)
    → AllReady std ps qs
    → All P ps
    → All Q qs
AllReady-All P Q f none h = tt
AllReady-All P Q f (next {p = p} {q = q} r a) (hp, h) = (f p q r hp, AllReady-All P Q f a h)

-- The keys of the repositories are strictly ascending.
abbrev pub KeysAscend : Std → List RepositoryPlan → Type 0
KeysAscend std [] = Unit
KeysAscend std (p ∷ ps) = All (λ q. text_lt (key std p) (key std q) ≡ true) ps × KeysAscend std ps

text_eq_sym : (s t : Text) → text_eq s t ≡ text_eq t s
text_eq_sym s t = ground (arith, text_eq_iff s t, text_eq_iff t s)

module _ (std : Std) where
  insert-DistinctKeys :
      (p : RepositoryPlan) (ps : List RepositoryPlan)
      → All (λ q. text_eq (key std p) (key std q) ≡ false) ps
      → DistinctKeys std ps
      → DistinctKeys std (insert_by (key_lt std) p ps)
  unfolding insert_by
  insert-DistinctKeys p [] h d = (tt, tt)
  insert-DistinctKeys p (q ∷ qs) (hq, h) (dq, d) = elim (Bool-cases (key_lt std p q)) [
    | inl e ↦ rw e ((hq, h), (dq, d))
    | inr e ↦ rw e (
      All-insert_by (key_lt std) (λ r. text_eq (key std q) (key std r) ≡ false) p qs
          (text_eq_sym (key std q) (key std p) ∙ hq) dq,
      insert-DistinctKeys p qs h d,
    )
  ]

  sort_back-DistinctKeys :
      (ps done : List RepositoryPlan)
      → DistinctKeys std ps
      → DistinctKeys std done
      → All (λ p. All (λ q. text_eq (key std p) (key std q) ≡ false) done) ps
      → DistinctKeys std (sort_back (key_lt std) ps done)
  unfolding sort_back
  sort_back-DistinctKeys [] done d e c = e
  sort_back-DistinctKeys (p ∷ ps) done (dp, d) e (cp, c) =
      sort_back-DistinctKeys ps (insert_by (key_lt std) p done) d (insert-DistinctKeys p done cp e)
        (cross ps dp c)
    where
      cross :
          (rs : List RepositoryPlan)
          → All (λ q. text_eq (key std p) (key std q) ≡ false) rs
          → All (λ r. All (λ q. text_eq (key std r) (key std q) ≡ false) done) rs
          → All
              (λ r.
                All (λ q. text_eq (key std r) (key std q) ≡ false) (insert_by (key_lt std) p done))
              rs
      cross [] a b = tt
      cross (r ∷ rs) (a, al) (b, bl) = (
        All-insert_by (key_lt std) (λ q. text_eq (key std r) (key std q) ≡ false) p done
            (text_eq_sym (key std r) (key std p) ∙ a) b,
        cross rs al bl,
      )

  key_lt-IsOrder : IsOrder (key_lt std)
  unfolding key_lt
  key_lt-IsOrder = record {
    asym = λ p q. text_lt-IsOrder.asym (key std p) (key std q);
    trans = λ p q r. text_lt-IsOrder.trans (key std p) (key std q) (key std r);
  }

  sorted-KeysAscend :
      (ps : List RepositoryPlan)
      → IsSorted (key_lt std) ps
      → DistinctKeys std ps
      → KeysAscend std ps
  unfolding key_lt
  sorted-KeysAscend [] s d = tt
  sorted-KeysAscend (p ∷ ps) (h, s) (dp, d) = (strict ps h dp, sorted-KeysAscend ps s d)
    where
      strict :
          (qs : List RepositoryPlan)
          → All (λ q. key_lt std q p ≡ false) qs
          → All (λ q. text_eq (key std p) (key std q) ≡ false) qs
          → All (λ q. text_lt (key std p) (key std q) ≡ true) qs
      strict [] a b = tt
      strict (q ∷ qs) (a, al) (b, bl) = (
        ground (arith, text_eq_iff (key std p) (key std q), text_lt_total (key std p) (key std q)),
        strict qs al bl,
      )

  pub sort_by-KeysAscend :
      (ps : List RepositoryPlan) → DistinctKeys std ps → KeysAscend std (sort_by (key_lt std) ps)
  unfolding sort_by
  sort_by-KeysAscend ps d =
      sorted-KeysAscend (sort_back (key_lt std) ps [])
        (IsSorted-sort_by (key_lt std) key_lt-IsOrder ps)
        (sort_back-DistinctKeys ps [] d tt (All-of_In _ ps (λ p i. tt)))

  pub AllReady-KeysAscend :
      {ps qs : List RepositoryPlan} → AllReady std ps qs → KeysAscend std ps → KeysAscend std qs
  AllReady-KeysAscend none h = tt
  AllReady-KeysAscend (next {p = p} {q = q} r a) (hp, h) = (
    AllReady-All (λ x. text_lt (key std p) (key std x) ≡ true)
        (λ x. text_lt (key std q) (key std x) ≡ true) (λ x y i e. rw (r.place, i.place) e) a hp,
    AllReady-KeysAscend a h,
  )
