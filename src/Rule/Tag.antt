-- ===== src/Rule/Tag.antt =====
-- internal/model/rule.go: `newTagMatcher`, `tagMatcher.empty`, `tagMatcher.matches` and
-- `MatchedRule.ValidateTag`.
pub mod Verdict
use image_updater.Prelude.{
  ℕ, suc, Bool, false, not, ◌&&◌, List, [], ◌∷◌, none, some, get_or, if◌then◌else◌,
}
use image_updater.Text.{Text, codes, text_eq, is_empty, cut_prefix}
use image_updater.Text.Utf8.{trim_space}
use image_updater.Model.Errors.{
  plain, sentinel, wrap, image_tag_not_allowed, image_tag_denied, Result, ok, err,
}
use image_updater.Std.{Std}
use image_updater.Rule.Types.{TagMatcher, CompiledRule}

-- newTagMatcher
unfoldable pub new_tag_matcher : Std → Text → Result TagMatcher
unfolding trim_space cut_prefix
new_tag_matcher std raw =
    let pattern = trim_space raw in
    let (expr, is_regexp) = cut_prefix (codes "regexp:") pattern in
    if not is_regexp
    then ok (record { literal = pattern; re = none })
    else elim (std.compile (trim_space expr)) [
      | none ↦ err (plain (pattern ∷ []))
      | some re ↦ ok (record { literal = []; re = some re })
    ]

-- tagMatcher.empty
unfoldable pub empty : TagMatcher → Bool
unfolding is_empty
empty m = elim m.re [ some re ↦ false | none ↦ is_empty m.literal ]

-- tagMatcher.matches
unfoldable pub matches : TagMatcher → Text → Bool
unfolding text_eq
matches m tag = elim m.re [ some re ↦ re tag | none ↦ text_eq m.literal tag ]

-- The loop over the deny patterns: `i` is the index in the compiled list, and the message quotes
-- the pattern at that index of the configured one.
unfoldable pub check_denied : CompiledRule → Text → ℕ → List TagMatcher → Result (Unit {0})
unfolding matches
check_denied c tag i [] = ok tt
check_denied c tag i (m ∷ ms) =
    let rest = check_denied c tag (suc i) ms in
    if matches m tag
    then err (wrap (tag ∷ get_or c.rule.deny_tags i [] ∷ []) (sentinel image_tag_denied))
    else rest

-- MatchedRule.ValidateTag
unfoldable pub validate_tag : CompiledRule → Text → Result (Unit {0})
unfolding check_denied empty matches
validate_tag c tag =
    if not (empty c.allow) && not (matches c.allow tag)
    then err (wrap (tag ∷ c.rule.allow_tag ∷ []) (sentinel image_tag_not_allowed))
    else check_denied c tag 0 c.deny
