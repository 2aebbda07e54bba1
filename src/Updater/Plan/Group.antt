-- ===== src/Updater/Plan/Group.antt =====
-- internal/application/updater/service.go: the grouping of targets by repository in `plan`.
use image_updater.Prelude.{
  ◌≡◌, ◌≢◌, refl, sym, ◌∙◌, false, List, [], ◌∷◌, ◌++◌, inl, inr, All, All-append, In,
  In-append_left, In-append_right, Bool-cases, subst, ap,
}
use image_updater.Text.{Text, text_eq, text_eq_iff}
use image_updater.Std.{Std}
use image_updater.Model.Image.{ImagePushEvent}
use image_updater.Updater.Types.{ManifestTarget, RepositoryPlan}
use image_updater.Updater.Branch.{manifest_repository_key}
use image_updater.Updater.Plan.{add_target}

module _ (std : Std) where
  -- The key of a plan's repository.
  abbrev pub key : RepositoryPlan → Text
  key p = manifest_repository_key std p.location

  abbrev pub target_key : ManifestTarget → Text
  target_key t = manifest_repository_key std t.location

  -- No two plans are of one repository.
  abbrev pub DistinctKeys : List RepositoryPlan → Type 0
  DistinctKeys [] = Unit
  DistinctKeys (p ∷ ps) = All (λ q. text_eq (key p) (key q) ≡ false) ps × DistinctKeys ps

  -- The targets of a plan are of its repository, and there is one.
  pub record IsHome (p : RepositoryPlan) : Type 0 where
    pub own : All (λ t. target_key t ≡ key p) p.targets
    pub some_target : p.targets ≢ []

  -- A plan of the target's repository holds it.
  unfoldable pub Holds : ManifestTarget → List RepositoryPlan → Type 0
  Holds t ps = (p : RepositoryPlan) × In p ps × In t p.targets × (key p ≡ target_key t)

  module _ (event : ImagePushEvent) (t : ManifestTarget) where
    abbrev fresh : RepositoryPlan
    fresh = record { event = event; location = t.location; targets = t ∷ []; env = []; branch = [] }

    fresh-IsHome : IsHome fresh
    fresh-IsHome = record { own = (refl, tt); some_target = λ e. cc }

    -- What holds of the new plan and of a plan with one more of its targets holds of all.
    All-add_target :
        (P : RepositoryPlan → Type 0) (ps : List RepositoryPlan)
        → P fresh
        → ((p : RepositoryPlan)
            → key p ≡ target_key t
            → P p
            → P (record p { targets = p.targets ++ t ∷ [] }))
        → All P ps
        → All P (add_target std event t ps)
    unfolding add_target
    All-add_target P [] new more h = (new, tt)
    All-add_target P (p ∷ ps) new more (hp, h) =
        elim (Bool-cases (text_eq (key p) (target_key t))) [
          | inl e ↦ rw e (more p ((text_eq_iff (key p) (target_key t)).0 e) hp, h)
          | inr e ↦ rw e (hp, All-add_target P ps new more h)
        ]

    pub add_target-IsHome :
        (ps : List RepositoryPlan) → All IsHome ps → All IsHome (add_target std event t ps)
    add_target-IsHome ps h =
        All-add_target IsHome ps fresh-IsHome
          (λ p e q. record {
            own = All-append (λ x. target_key x ≡ key p) p.targets (t ∷ []) q.own (sym e, tt);
            some_target = λ z. append-ne-nil p.targets z;
          })
          h
      where
        append-ne-nil : (xs : List ManifestTarget) → xs ++ t ∷ [] ≢ []
        append-ne-nil [] z = cc
        append-ne-nil (x ∷ xs) z = cc

    pub add_target-DistinctKeys :
        (ps : List RepositoryPlan) → DistinctKeys ps → DistinctKeys (add_target std event t ps)
    unfolding add_target
    add_target-DistinctKeys [] d = (tt, tt)
    add_target-DistinctKeys (p ∷ ps) (h, d) = elim (Bool-cases (text_eq (key p) (target_key t))) [
      | inl e ↦ rw e (h, d)
      | inr e ↦ rw e (
        All-add_target (λ q. text_eq (key p) (key q) ≡ false) ps e (λ q _ z. z) h,
        add_target-DistinctKeys ps d,
      )
    ]

    pub add_target-Holds_self : (ps : List RepositoryPlan) → Holds t (add_target std event t ps)
    unfolding add_target Holds
    add_target-Holds_self [] = (fresh, inl refl, inl refl, refl)
    add_target-Holds_self (p ∷ ps) = elim (Bool-cases (text_eq (key p) (target_key t))) [
      | inl e ↦ rw e (
        record p { targets = p.targets ++ t ∷ [] },
        inl refl,
        In-append_right t p.targets (t ∷ []) (inl refl),
        (text_eq_iff (key p) (target_key t)).0 e,
      )
      | inr e ↦ let (q, i, j, k) = add_target-Holds_self ps in rw e (q, inr i, j, k)
    ]

    pub add_target-Holds :
        (u : ManifestTarget) (ps : List RepositoryPlan)
        → Holds u ps
        → Holds u (add_target std event t ps)
    unfolding add_target Holds
    add_target-Holds u [] (q, i, j, k) = absurd i
    add_target-Holds u (p ∷ ps) (q, inl e, j, k) =
        elim (Bool-cases (text_eq (key p) (target_key t))) [
          | inl z ↦ rw z (
            record p { targets = p.targets ++ t ∷ [] },
            inl refl,
            In-append_left u p.targets (t ∷ []) (subst (λ x. In u x.targets) e j),
            ap key (sym e) ∙ k,
          )
          | inr z ↦ rw z (q, inl e, j, k)
        ]
    add_target-Holds u (p ∷ ps) (q, inr i, j, k) =
        elim (Bool-cases (text_eq (key p) (target_key t))) [
          | inl z ↦ rw z (q, inr i, j, k)
          | inr z ↦ let (r, a, b, c) = add_target-Holds u ps (q, i, j, k) in rw z (r, inr a, b, c)
        ]
