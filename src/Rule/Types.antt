-- ===== src/Rule/Types.antt =====
-- internal/model/rule.go: `Rule`, `ManifestLocation`, `compiledRule`, `tagMatcher`.
use image_updater.Prelude.{Bool, Option, List}
use image_updater.Text.{Text}

-- Rule
pub record Rule : Type 0 where
  pub image_pattern : Text
  pub manifest_url : Text
  pub env : Text
  pub allow_tag : Text
  pub deny_tags : List Text
  pub write_image_manifest : Option Bool

-- ManifestLocation
pub record ManifestLocation : Type 0 where
  pub repository_url : Text
  pub owner : Text
  pub repository : Text
  pub dir : Text

-- tagMatcher; the regular expression is what it matches
pub record TagMatcher : Type 0 where
  pub literal : Text
  pub re : Option (Text → Bool)

-- compiledRule
pub record CompiledRule : Type 0 where
  pub rule : Rule
  pub host : Text
  pub segments : List Text
  pub tag_pieces : List Text
  pub allow : TagMatcher
  pub deny : List TagMatcher
