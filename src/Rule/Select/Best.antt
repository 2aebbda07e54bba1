-- ===== src/Rule/Select/Best.antt =====
-- internal/model/rule.go: `RuleSet.Matches` against a description by the greatest weight.
use Prim.Native.Nat.{max}
use image_updater.Prelude.{
  ℕ, suc, ◌<◌, ◌≤◌, ◌≡◌, refl, List, [], ◌∷◌, ◌++◌, append_assoc, append-nil, none, some, ltb, ◌==◌,
  if◌then◌else◌, arith, Option-cases, Bool-cases, false, inl, inr,
}
use image_updater.Model.Errors.{sentinel, wrap, no_matching_rule, ok, err}
use image_updater.Model.Image.{ImagePushEvent, reference, to_text}
use image_updater.Rule.Types.{CompiledRule}
use image_updater.Rule.Select.{match, MatchedRule, select, matches}

module _ (event : ImagePushEvent) where
  -- One more than the weight of a rule that covers the event, and 0 for any other rule.
  pub score : CompiledRule → ℕ
  score c = elim (match c event) [ none ↦ 0 | some weight ↦ suc weight ]

  -- The greatest score of the rules.
  pub top : List CompiledRule → ℕ
  top [] = 0
  top (c ∷ cs) = max (score c) (top cs)

  -- The rules with a given score, in the order of declaration.
  pub rated : ℕ → List CompiledRule → List MatchedRule
  rated n [] = []
  rated n (c ∷ cs) =
      let rest = rated n cs in
      if score c == n then record { compiled = c; event = event } ∷ rest else rest

  pub score-le-top : (c : CompiledRule) (cs : List CompiledRule) → score c ≤ top (c ∷ cs)
  unfolding top
  score-le-top c cs = omega arith

  select-rated :
      (rules : List CompiledRule) (best : ℕ) (ms : List MatchedRule)
      → 0 < best
      → select event rules best ms
        ≡ (if ltb best (top rules) then rated (top rules) rules else ms ++ rated best rules)
  unfolding select top rated score
  select-rated [] best ms h = ground (arith, append-nil ms)
  select-rated (c ∷ cs) best ms h = elim (Option-cases (match c event)) [
    | inl e ↦ ground (arith, select-rated cs best ms h)
    | inr (w, e) ↦ ground (
      arith,
      select-rated cs best ms h,
      select-rated cs (suc w) (record { compiled = c; event = event } ∷ []) (omega arith),
      select-rated cs best (ms ++ record { compiled = c; event = event } ∷ []) h,
      append_assoc ms (record { compiled = c; event = event } ∷ []) (rated best cs),
    )
  ]

  select-top :
      (rules : List CompiledRule)
      → select event rules 0 [] ≡ (if top rules == 0 then [] else rated (top rules) rules)
  unfolding select top rated score
  select-top [] = refl
  select-top (c ∷ cs) = elim (Option-cases (match c event)) [
    | inl e ↦ ground (arith, select-top cs)
    | inr (w, e) ↦
        ground (
          arith,
          select-rated cs (suc w) (record { compiled = c; event = event } ∷ []) (omega arith),
        )
  ]

  -- The best score is reached.
  pub rated-top_cons :
      (rules : List CompiledRule)
      → 0 < top rules
      → (m : MatchedRule) × (ms : List MatchedRule) × (rated (top rules) rules ≡ m ∷ ms)
  unfolding top rated
  rated-top_cons [] h = absurd (omega arith)
  rated-top_cons (c ∷ cs) h = elim (Bool-cases (score c == max (score c) (top cs))) [
    | inl e ↦ (record { compiled = c; event = event }, rated (top (c ∷ cs)) cs, rw e)
    | inr e ↦ below e (rated-top_cons cs (ground arith))
  ]
    where
      below :
          (score c == max (score c) (top cs)) ≡ false
          → ((m : MatchedRule) × (ms : List MatchedRule) × (rated (top cs) cs ≡ m ∷ ms))
          → (m : MatchedRule) × (ms : List MatchedRule) × (rated (top (c ∷ cs)) (c ∷ cs) ≡ m ∷ ms)
      below e (m, ms, p) = (m, ms, ground arith)

  -- `Matches` yields the rules that cover the event with the greatest number of literal segments,
  -- all of them and in the order of declaration; and ErrNoMatchingRule if no rule covers it.
  pub matches-best :
      (rules : List CompiledRule)
      → matches rules event ≡ (
          if top rules == 0
          then err (wrap (to_text (reference event) ∷ []) (sentinel no_matching_rule))
          else ok (rated (top rules) rules))
  unfolding matches
  matches-best rules = elim (Bool-cases (top rules == 0)) [
    | inl e ↦ rw (select-top, e)
    | inr e ↦ let (m, ms, p) = rated-top_cons rules (ground arith) in rw (select-top, e, p)
  ]
