-- ===== src/Updater/Plan/Collect.antt =====
-- internal/application/updater/service.go: the loop of `plan` over the matched rules.
use image_updater.Prelude.{◌≡◌, sym, List, [], ◌∷◌, Option, inl, inr, arith, All, In, subst, ap}
use image_updater.Model.Errors.{Error, ok, Result-cases, is_ok}
use image_updater.Model.Image.{ImagePushEvent}
use image_updater.Rule.Types.{ManifestLocation}
use image_updater.Rule.Tag.{validate_tag}
use image_updater.Rule.Select.{MatchedRule}
use image_updater.Rule.Location.{location}
use image_updater.Updater.Types.{ManifestTarget, RepositoryPlan}
use image_updater.Updater.Plan.{Planner, target_of, add_target, or_first, collect}
use image_updater.Updater.Plan.Group.{
  DistinctKeys, IsHome, Holds, add_target-IsHome, add_target-DistinctKeys, add_target-Holds,
  add_target-Holds_self,
}
use mathlib.Core.Bool.{true}

module _ (s : Planner) where
  -- The rule has a location, and a plan holds its target.
  unfoldable pub Planned : MatchedRule → List RepositoryPlan → Type 0
  Planned m ps =
      (l : ManifestLocation) × (location s.std m ≡ ok l) × Holds s.std (target_of s m l) ps

module _ (s : Planner) (event : ImagePushEvent) where
  -- What the loop makes of the plans that it starts from.
  pub record IsCollected (ms : List MatchedRule) (before after : List RepositoryPlan) : Type 0 where
    pub distinct : DistinctKeys s.std after
    pub home : All (IsHome s.std) after
    pub kept : (t : ManifestTarget) → Holds s.std t before → Holds s.std t after
    pub planned :
        (m : MatchedRule)
        → In m ms
        → is_ok (validate_tag m.compiled m.event.tag) ≡ true
        → Planned s m after

  pub collect-IsCollected :
      (ms : List MatchedRule) (ps : List RepositoryPlan) (te : Option Error)
      → {qs : List RepositoryPlan} {te' : Option Error} → DistinctKeys s.std ps
      → All (IsHome s.std) ps
      → collect s event ms ps te ≡ ok (qs, te')
      → IsCollected ms ps qs
  unfolding collect Planned
  collect-IsCollected [] ps te {qs} d h e =
      let same : ps ≡ qs = ground (arith, e) in
      record {
        distinct = subst (DistinctKeys s.std) same d;
        home = subst (All (IsHome s.std)) same h;
        kept = λ t k. subst (Holds s.std t) same k;
        planned = λ m i. absurd i;
      }
  collect-IsCollected (m ∷ ms) ps te {qs} {te'} d h e =
      elim (Result-cases (validate_tag m.compiled m.event.tag)) [
        | inl (x, p) ↦
            let c =
              collect-IsCollected ms ps (or_first te x) {qs = qs} {te' = te'} d h
                (rw (p, collect) at e) in
            record {
              distinct = c.distinct;
              home = c.home;
              kept = c.kept;
              planned = λ n i good. elim i [
                | inl same ↦ absurd (
                    cc (
                      ap (λ (z : MatchedRule). is_ok (validate_tag z.compiled z.event.tag)) same,
                      p,
                      good,
                    ))
                | inr j ↦ c.planned n j good
              ];
            }
        | inr (x, p) ↦ elim (Result-cases (location s.std m)) [
          | inl (y, q) ↦ absurd (ground (arith, p, q, e))
          | inr (l, q) ↦
              let c =
                collect-IsCollected ms (add_target s.std event (target_of s m l) ps) te {qs = qs}
                  {te' = te'} (add_target-DistinctKeys s.std event (target_of s m l) ps d)
                  (add_target-IsHome s.std event (target_of s m l) ps h)
                  (ground (arith, p, q, e)) in
              record {
                distinct = c.distinct;
                home = c.home;
                kept = λ t k. c.kept t (add_target-Holds s.std event (target_of s m l) t ps k);
                planned = λ n i good. elim i [
                  | inl same ↦
                      subst (λ z. Planned s z qs) (sym same)
                        (
                          l,
                          q,
                          c.kept (target_of s m l)
                              (add_target-Holds_self s.std event (target_of s m l) ps),
                        )
                  | inr j ↦ c.planned n j good
                ];
              }
        ]
      ]
