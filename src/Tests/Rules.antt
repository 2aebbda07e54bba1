-- ===== src/Tests/Rules.antt =====
-- The rules of the small world, compiled and matched.
use image_updater.Prelude.{
  ◌<◌, length, get_or, ◌≡◌, refl, ◌↔◌, ◌⊎◌, true, false, List, [], ◌∷◌, ◌++◌, none, some, any, ◌||◌,
  ◌==◌, if◌then◌else◌,
}
use image_updater.Text.{codes, is_empty}
use image_updater.Model.Errors.{
  Error, sentinel, wrap, image_tag_denied, image_tag_not_allowed, no_matching_rule, ok, err,
}
use image_updater.Model.Image.{reference, to_text}
use image_updater.Rule.Types.{Rule, ManifestLocation, CompiledRule}
use image_updater.Rule.Path.{split_path}
use image_updater.Rule.Url.{parse_manifest_url}
use image_updater.Rule.Url.Safe.{IsInside, parse_manifest_url-IsInside}
use image_updater.Rule.Tag.{validate_tag}
use image_updater.Rule.Tag
use image_updater.Rule.Tag.Verdict.{failure, failure-validate_tag, accepts, is_unset}
use image_updater.Rule.Compile.{compile_rule, new_rule_set}
use image_updater.Rule.Compile.Deny.{validate_tag-compile_rule, set_patterns, validate_tag-quotes}
use image_updater.Rule.Compile.All.{Compiled, new_rule_set-all_or_first}
use image_updater.Rule.Select.{match, matches}
use image_updater.Rule.Select.Best.{top, rated, matches-best}
use image_updater.Rule.Select.Fits.{Fits, match-Fits}
use image_updater.Tests.World.{
  small_std, api_dev, demo_rules, compiled_as, api_segments, demo_compiled, pushed_image,
}

abbrev api_location : ManifestLocation
api_location = record {
  repository_url = codes "https://github.com/acme/infra";
  owner = codes "acme";
  repository = codes "infra";
  dir = codes "apps/$1/dev";
}

parses : parse_manifest_url small_std api_dev.manifest_url ≡ ok api_location
unfolding parse_manifest_url small_std
parses = refl

parse_manifest_url-IsInside_example : IsInside api_location
parse_manifest_url-IsInside_example =
    parse_manifest_url-IsInside small_std api_dev.manifest_url parses

matches-best_example : matches demo_compiled pushed_image ≡ (
    if top pushed_image demo_compiled == 0
    then err (wrap (to_text (reference pushed_image) ∷ []) (sentinel no_matching_rule))
    else ok (rated pushed_image (top pushed_image demo_compiled) demo_compiled))
matches-best_example = matches-best pushed_image demo_compiled

match-Fits_example : (match (compiled_as api_dev api_segments) pushed_image ≡ some 1) ↔ (
    (is_empty pushed_image.host ≡ false)
    × (pushed_image.host ≡ codes "ghcr.io")
    × Fits api_segments (split_path pushed_image.repository) 1)
unfolding compiled_as
match-Fits_example = match-Fits (compiled_as api_dev api_segments) pushed_image 1

failure-validate_tag_example :
    failure (validate_tag (compiled_as api_dev api_segments) (codes "v0")) ≡ (
      if Tag.empty (compiled_as api_dev api_segments).allow
        || Tag.matches (compiled_as api_dev api_segments).allow (codes "v0")
      then if any (λ m. Tag.matches m (codes "v0")) (compiled_as api_dev api_segments).deny
        then some image_tag_denied
        else none
      else some image_tag_not_allowed)
failure-validate_tag_example = failure-validate_tag (compiled_as api_dev api_segments) (codes "v0")

compiles : compile_rule small_std api_dev ≡ ok (compiled_as api_dev api_segments)
unfolding compile_rule small_std compiled_as
compiles = refl

validate_tag-compile_rule_example :
    failure (validate_tag (compiled_as api_dev api_segments) (codes "v0")) ≡ (
      if is_unset api_dev.allow_tag || accepts small_std (codes "v0") api_dev.allow_tag
      then if any (accepts small_std (codes "v0")) api_dev.deny_tags
        then some image_tag_denied
        else none
      else some image_tag_not_allowed)
validate_tag-compile_rule_example =
    validate_tag-compile_rule small_std api_dev (codes "v0") compiles

pattern_accepts : accepts small_std (codes "v0") (codes "v0") ≡ true
unfolding accepts small_std
pattern_accepts = refl

allowed : (is_unset api_dev.allow_tag || accepts small_std (codes "v0") api_dev.allow_tag) ≡ true
unfolding is_unset accepts small_std
allowed = refl

blank_accepts : any (accepts small_std (codes "v0")) (codes " " ∷ []) ≡ false
unfolding accepts small_std
blank_accepts = refl

validate_tag-quotes_example :
    (validate_tag (compiled_as api_dev api_segments) (codes "v0")
      ≡ err (
          wrap
            (codes "v0" ∷ get_or api_dev.deny_tags (set_patterns (codes " " ∷ [])) [] ∷ [])
            (sentinel image_tag_denied)))
    × (((any is_unset (codes " " ∷ []) ≡ false)
          × (get_or api_dev.deny_tags (set_patterns (codes " " ∷ [])) [] ≡ codes "v0"))
        ⊎ ((any is_unset (codes " " ∷ []) ≡ true)
            × (set_patterns (codes " " ∷ []) < length (codes " " ∷ []))))
validate_tag-quotes_example =
    validate_tag-quotes small_std api_dev (codes " " ∷ []) (codes "v0") [] (codes "v0") compiles
      refl blank_accepts pattern_accepts allowed

new_rule_set-all_or_first_example :
    ((cs : List CompiledRule) × (new_rule_set small_std demo_rules ≡ ok cs)
      × Compiled small_std demo_rules cs)
    ⊎ ((before : List Rule) × (bad : Rule) × (after : List Rule) × (cs : List CompiledRule)
        × (e : Error) × (demo_rules ≡ before ++ (bad ∷ after))
        × Compiled small_std before cs
        × (compile_rule small_std bad ≡ err e)
        × (new_rule_set small_std demo_rules ≡ err (wrap (bad.image_pattern ∷ []) e)))
new_rule_set-all_or_first_example = new_rule_set-all_or_first small_std demo_rules
