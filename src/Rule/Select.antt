-- ===== src/Rule/Select.antt =====
-- internal/model/rule.go: `compiledRule.match`, `RuleSet.Matches` and `RuleSet.Match`.
pub mod Best
pub mod Fits
use image_updater.Prelude.{
  ◌≢◌, ℕ, zero, suc, Bool, true, false, not, ◌||◌, List, [], ◌∷◌, ◌++◌, Option, none, some, ltb,
  ◌==◌, length, if◌then◌else◌,
}
use image_updater.Text.{Text, codes, text_eq, is_empty}
use image_updater.Model.Errors.{sentinel, wrap, no_matching_rule, Result, ok, err, ◌>>=◌}
use image_updater.Model.Image.{ImagePushEvent, reference, to_text}
use image_updater.Rule.Types.{CompiledRule}
use image_updater.Rule.Path.{split_path, is_variable}

-- segment == wildcardSegment || isVariable(segment)
unfoldable pub is_open : Text → Bool
unfolding text_eq is_variable
is_open segment = text_eq segment (codes "*") || is_variable segment

-- The loop over the segments of a rule; `repository` has as many.
unfoldable pub match_segments : List Text → List Text → ℕ → Option ℕ
unfolding is_open text_eq
match_segments [] repository weight = some weight
match_segments (s ∷ ss) [] weight = none
match_segments (s ∷ ss) (r ∷ rs) weight =
    let skipped = match_segments ss rs weight in
    let counted = match_segments ss rs (suc weight) in
    if is_open s then skipped else if not (text_eq s r) then none else counted

-- compiledRule.match
unfoldable pub match : CompiledRule → ImagePushEvent → Option ℕ
unfolding is_empty text_eq split_path match_segments
match c event =
    let repository = split_path event.repository in
    if is_empty event.host || not (text_eq event.host c.host)
    then none
    else if not (length repository == length c.segments)
    then none
    else match_segments c.segments repository 0

-- MatchedRule
pub record MatchedRule : Type 0 where
  pub compiled : CompiledRule
  pub event : ImagePushEvent

-- The loop of `Matches`: `best` is bestWeight + 1, so 0 stands for the initial -1.
select : ImagePushEvent → List CompiledRule → ℕ → List MatchedRule → List MatchedRule
unfolding match
select event [] best matches = matches
select event (rule ∷ rules) best matches = elim (match rule event) [
  | none ↦ select event rules best matches
  | some weight ↦
      let matched : MatchedRule = record { compiled = rule; event = event } in
      let skipped = select event rules best matches in
      let better = select event rules (suc weight) (matched ∷ []) in
      let tied = select event rules best (matches ++ matched ∷ []) in
      if ltb (suc weight) best then skipped else if ltb best (suc weight) then better else tied
]

found : ImagePushEvent → List MatchedRule → Result (List MatchedRule)
unfolding reference to_text
found event [] = err (wrap (to_text (reference event) ∷ []) (sentinel no_matching_rule))
found event (m ∷ ms) = ok (m ∷ ms)

-- RuleSet.Matches
unfoldable pub matches : List CompiledRule → ImagePushEvent → Result (List MatchedRule)
unfolding select found
matches rules event = found event (select event rules 0 [])

found-ne-nil : (event : ImagePushEvent) (ms : List MatchedRule) → found event ms ≢ ok []
unfolding found
found-ne-nil event [] h = cc
found-ne-nil event (m ∷ ms) h = cc

-- A successful match is not empty.
pub matches-ne-nil :
    (rules : List CompiledRule) (event : ImagePushEvent) → matches rules event ≢ ok []
unfolding matches
matches-ne-nil rules event = found-ne-nil event (select event rules 0 [])

first : List MatchedRule → Result MatchedRule
first [] = err (sentinel no_matching_rule)
first (m ∷ ms) = ok m

-- RuleSet.Match
unfoldable pub match_first : List CompiledRule → ImagePushEvent → Result MatchedRule
unfolding first
match_first rules event = do ms ← matches rules event; first ms
