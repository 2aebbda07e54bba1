-- ===== src/Rule/Compile.antt =====
-- internal/model/rule.go: `compileRule` and `NewRuleSet`.
pub mod Deny
pub mod All
use image_updater.Prelude.{Bool, true, false, List, [], ◌∷◌, ◌++◌, if◌then◌else◌}
use image_updater.Text.{Text, is_empty}
use image_updater.Model.Errors.{plain, wrap, Result, ok, err, ◌>>=◌}
use image_updater.Std.{Std}
use image_updater.Rule.Types.{Rule, TagMatcher, CompiledRule}
use image_updater.Rule.Path.{split_image_pattern, is_blank}
use image_updater.Rule.Url.{parse_manifest_url}
use image_updater.Rule.Tag.{new_tag_matcher, empty}

-- The loop over the deny patterns, which drops the empty ones.
compile_deny : Std → List Text → List TagMatcher → Result (List TagMatcher)
unfolding new_tag_matcher empty
compile_deny std [] deny = ok deny
compile_deny std (pattern ∷ patterns) deny = do
  matcher ← new_tag_matcher std pattern
  compile_deny std patterns (if empty matcher then deny else deny ++ matcher ∷ [])

is_nil : List Text → Bool
is_nil [] = true
is_nil (s ∷ ss) = false

-- compileRule
unfoldable pub compile_rule : Std → Rule → Result CompiledRule
unfolding split_image_pattern is_blank is_empty parse_manifest_url new_tag_matcher compile_deny
    is_nil
compile_rule std rule =
    let (host, segments, tag_pieces) = split_image_pattern rule.image_pattern in
    if is_empty host
    then err (plain [])
    else if is_nil segments
    then err (plain [])
    else if is_blank rule.manifest_url
    then err (plain [])
    else do
      _ ← parse_manifest_url std rule.manifest_url
      allow ← new_tag_matcher std rule.allow_tag
      deny ← compile_deny std rule.deny_tags []
      ok (record {
        rule = rule;
        host = host;
        segments = segments;
        tag_pieces = tag_pieces;
        allow = allow;
        deny = deny;
      })

-- The loop of `NewRuleSet`; the message names the rule's index, which is not kept.
compile_all : Std → List Rule → List CompiledRule → Result (List CompiledRule)
unfolding compile_rule
compile_all std [] compiled = ok compiled
compile_all std (rule ∷ rules) compiled = elim (compile_rule std rule) [
  | err e ↦ err (wrap (rule.image_pattern ∷ []) e)
  | ok c ↦ compile_all std rules (compiled ++ c ∷ [])
]

-- NewRuleSet
unfoldable pub new_rule_set : Std → List Rule → Result (List CompiledRule)
unfolding compile_all
new_rule_set std rules = compile_all std rules []
