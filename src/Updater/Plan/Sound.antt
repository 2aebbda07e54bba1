-- ===== src/Updater/Plan/Sound.antt =====
-- internal/application/updater/service.go: what a plan holds.
use image_updater.Prelude.{
  ◌≡◌, ◌≢◌, refl, sym, ◌∙◌, true, false, List, [], ◌∷◌, Option, none, some, inl, inr, arith, All,
  All-In, In, subst, ap, sort_by, In-sort_by, All-sort_by, ◌⊎◌,
}
use image_updater.Std.{Std}
use image_updater.Model.Errors.{Error, ok, ok-of_>>=, Result-cases, is_ok, ok-injective}
use image_updater.Model.Image.{ImagePushEvent}
use image_updater.Rule.Types.{ManifestLocation}
use image_updater.Rule.Tag.{validate_tag}
use image_updater.Rule.Select.{MatchedRule, matches, matches-ne-nil}
use image_updater.Rule.Location.{location}
use image_updater.Updater.Types.{ManifestTarget, RepositoryPlan, EventPlan}
use image_updater.Updater.Branch.{is_invalid_branch, manifest_repository_key}
use image_updater.Updater.Targets.Normal.{Ascending, Agrees}
use image_updater.Updater.Plan.{
  Planner, target_of, key_lt, or_first, collect, add_target, complete_all, arrange, plan,
}
use image_updater.Updater.Plan.Group.{
  key, target_key, IsHome, Holds, add_target-DistinctKeys, add_target-IsHome, add_target-Holds_self,
}
use image_updater.Updater.Plan.Collect.{Planned, collect-IsCollected}
use image_updater.Updater.Plan.Complete.{
  IsReady, AllReady, complete_all-AllReady, AllReady-In, AllReady-All, KeysAscend,
  sort_by-KeysAscend, AllReady-KeysAscend,
}

-- The plan of one repository: its targets are of it, there is one, their directories ascend, and its
-- branch is one that `validateBranch` accepts.
pub record IsSound (std : Std) (q : RepositoryPlan) : Type 0 where
  pub own : (t : ManifestTarget) → In t q.targets → target_key std t ≡ key std q
  pub some_target : q.targets ≢ []
  pub ascending : Ascending q.targets
  pub branch : is_invalid_branch q.branch ≡ false

-- A rule's manifests are in the plan: its location is known, and the plan of that repository has a
-- target of the same directory with the rule's settings.
pub Covered : Planner → MatchedRule → List RepositoryPlan → Type 0
Covered s m qs =
    (l : ManifestLocation) × (q : RepositoryPlan) × (u : ManifestTarget) × (location s.std m ≡ ok l)
    × In q qs
    × In u q.targets
    × (key s.std q ≡ target_key s.std (target_of s m l))
    × Agrees u (target_of s m l)

pub record IsPlan (s : Planner) (event : ImagePushEvent) (qs : List RepositoryPlan) : Type 0 where
  pub matched : List MatchedRule
  pub found : matches s.rules event ≡ ok matched
  pub ascend : KeysAscend s.std qs
  pub sound : All (IsSound s.std) qs
  pub covered :
      (m : MatchedRule)
      → In m matched
      → is_ok (validate_tag m.compiled m.event.tag) ≡ true
      → Covered s m qs

ready-IsSound : (std : Std) (p q : RepositoryPlan) → IsReady std p q → IsHome std p → IsSound std q
ready-IsSound std p q r h = record {
  own = λ t i.
      All-In (λ x. target_key std x ≡ key std p) p.targets t h.own (r.normal.taken t i)
      ∙ ap (λ l. manifest_repository_key std l) (sym r.place);
  some_target = λ none. first p.targets h.some_target (λ t i. r.normal.covered t i) none;
  ascending = r.normal.ascending;
  branch = r.branch;
}
  where
    first :
        (ts : List ManifestTarget)
        → ts ≢ []
        → ((t : ManifestTarget) → In t ts → (u : ManifestTarget) × In u q.targets × Agrees u t)
        → ¬ (q.targets ≡ [])
    first [] n c e = n refl
    first (t ∷ ts) n c e = let (u, i, a) = c t (inl refl) in subst (In u) e i

Planned-Covered :
    (s : Planner) (m : MatchedRule) (ps qs : List RepositoryPlan)
    → Planned s m ps
    → AllReady s.std (sort_by (key_lt s.std) ps) qs
    → Covered s m qs
unfolding Planned Holds Covered
Planned-Covered s m ps qs (l, e, (p, i, j, k)) a =
    let (q, b, r) = AllReady-In a p (In-sort_by (key_lt s.std) p ps i) in
    let (u, c, g) = r.normal.covered (target_of s m l) j in
    (l, q, u, e, b, c, ap (λ x. manifest_repository_key s.std x) r.place ∙ k, g)

arrange-AllReady :
    (s : Planner) (event : ImagePushEvent) (p : RepositoryPlan) (ps : List RepositoryPlan)
    → (te : Option Error) {ep : EventPlan} → arrange s event (p ∷ ps) te ≡ ok ep
    → AllReady s.std (sort_by (key_lt s.std) (p ∷ ps)) ep.repositories
unfolding arrange
arrange-AllReady s event p ps te h =
    let (qs, e, k) = ok-of_>>= (complete_all s.std event (sort_by (key_lt s.std) (p ∷ ps))) _ h in
    subst (AllReady s.std (sort_by (key_lt s.std) (p ∷ ps)))
      (ap (λ (x : EventPlan). x.repositories) (ok-injective k))
      (complete_all-AllReady s.std event (sort_by (key_lt s.std) (p ∷ ps)) e)

-- With no plan in hand and a rule left, the first tag error is there.
or_first-some :
    (o : Option Error) (e : Error) (p : Option Error)
    → or_first o e ≡ p
    → (x : Error) × (p ≡ some x)
unfolding or_first
or_first-some none e p h = (e, sym h)
or_first-some (some d) e p h = (d, sym h)

collect-some_error :
    (s : Planner) (event : ImagePushEvent) (ms : List MatchedRule) (te te' : Option Error)
    → collect s event ms [] te ≡ ok ([], te')
    → ((ms ≡ []) × (te ≡ te')) ⊎ ((e : Error) × (te' ≡ some e))
unfolding collect Holds
collect-some_error s event [] te te' h = inl (refl, ground arith)
collect-some_error s event (m ∷ ms) te te' h =
    elim (Result-cases (validate_tag m.compiled m.event.tag)) [
      | inl (x, p) ↦
          elim (collect-some_error s event ms (or_first te x) te' (rw (p, collect) at h)) [
            | inl (_, same) ↦ inr (or_first-some te x te' same)
            | inr e ↦ inr e
          ]
      | inr (x, p) ↦ elim (Result-cases (location s.std m)) [
        | inl (y, q) ↦ absurd (ground (arith, p, q, h))
        | inr (l, q) ↦ absurd (held (target_of s m l) (ground (arith, p, q, h)))
      ]
    ]
  where
    unheld : {t : ManifestTarget} → ¬ (Holds s.std t [])
    unheld (p, i, j, k) = absurd i

    held : (t : ManifestTarget) → collect s event ms (add_target s.std event t []) te ≢ ok ([], te')
    held t e =
        let c =
          collect-IsCollected s event ms (add_target s.std event t []) te {qs = []} {te' = te'}
            (add_target-DistinctKeys s.std event t [] tt) (add_target-IsHome s.std event t [] tt)
            e in
        unheld (c.kept t (add_target-Holds_self s.std event t []))

-- A plan names each repository once, in the order of the keys; the targets of a repository's plan
-- are of that repository and have strictly ascending directories, there is at least one, and the
-- branch is valid; and every matched rule that accepts the tag has its location covered, by a target
-- of the same directory with the rule's environment and its choice on the manifest block.
pub plan-IsPlan :
    (s : Planner) (event : ImagePushEvent) {ep : EventPlan}
    → plan s event ≡ ok ep
    → IsPlan s event ep.repositories
unfolding plan arrange
plan-IsPlan s event {ep} h =
    let (ms, f, k) = ok-of_>>= (matches s.rules event) _ h in
    let (r, c, a) = ok-of_>>= (collect s event ms [] none) _ k in made ms f r.0 r.1 c a
  where
    made :
        (ms : List MatchedRule)
        → matches s.rules event ≡ ok ms
        → (ps : List RepositoryPlan) (te : Option Error) → collect s event ms [] none ≡ ok (ps, te)
        → arrange s event ps te ≡ ok ep
        → IsPlan s event ep.repositories
    made ms f [] te c a = elim (collect-some_error s event ms none te c) [
      | inl (e, _) ↦ absurd (matches-ne-nil s.rules event (f ∙ ap ok e))
      | inr (x, e) ↦ absurd (unfold arrange in cc (e, a))
    ]
    made ms f (p ∷ ps) te c a =
        let c = collect-IsCollected s event ms [] none {qs = p ∷ ps} {te' = te} tt tt c in
        let ready = arrange-AllReady s event p ps te a in
        record {
          matched = ms;
          found = f;
          ascend = AllReady-KeysAscend s.std ready (sort_by-KeysAscend s.std (p ∷ ps) c.distinct);
          sound =
              AllReady-All (IsHome s.std) (IsSound s.std) (ready-IsSound s.std) ready
                (All-sort_by (key_lt s.std) (IsHome s.std) (p ∷ ps) c.home);
          covered =
              λ m i good. Planned-Covered s m (p ∷ ps) ep.repositories (c.planned m i good) ready;
        }
