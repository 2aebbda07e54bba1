-- ===== src/Tests/World.antt =====
-- A small registry, two manifest repositories and the rules between them. No code of the repository
-- is modelled here.
use image_updater.Prelude.{◌≡◌, refl, false, List, [], ◌∷◌, Option, none, some, ltb, if◌then◌else◌}
use image_updater.Text.{Text, codes, cut_prefix, contains}
use image_updater.Std.{Url, Std}
use image_updater.Model.Errors.{ok}
use image_updater.Model.Image.{ImagePushEvent}
use image_updater.Rule.Types.{Rule, TagMatcher, CompiledRule}
use image_updater.Rule.Compile.{new_rule_set}

-- Reads the URLs of one site.
unfoldable pub read_url : Text → Option Url
unfolding cut_prefix
read_url text =
    let (path, found) = cut_prefix (codes "https://github.com") text in
    if found
    then some (record {
      scheme = codes "https";
      host = codes "github.com";
      user = false;
      raw_query = [];
      fragment = [];
      path = path;
      text = text;
    })
    else none

-- A library whose regular expressions are literal texts.
unfoldable pub small_std : Std
unfolding contains read_url
small_std = record {
  compile = λ pattern. some (λ tag. contains pattern tag);
  parse_url = read_url;
  iterate = λ entries. entries;
  lower = λ t. t;
  digest = λ t. codes "0123456789abcdef";
  is_print = λ c. ltb 0x1F c;
  two_decimals = λ a b. codes "1.00";
}

abbrev pub api_dev : Rule
api_dev = record {
  image_pattern = codes "ghcr.io/acme/$1";
  manifest_url = codes "https://github.com/acme/infra/apps/$1/dev";
  env = codes "dev";
  allow_tag = codes "regexp:v";
  deny_tags = codes " " ∷ codes "v0" ∷ [];
  write_image_manifest = none;
}

abbrev pub api_prod : Rule
api_prod = record api_dev {
  manifest_url = codes "https://github.com/acme/infra/apps/$1/prod";
  env = codes "prod";
  write_image_manifest = some false;
}

abbrev pub api_copy : Rule
api_copy = record api_dev { manifest_url = codes "https://github.com/Acme/copy/**" }

abbrev pub catch_all : Rule
catch_all = record api_dev {
  image_pattern = codes "ghcr.io/*/*";
  manifest_url = codes "https://github.com/acme/rest/apps";
  allow_tag = [];
}

abbrev pub demo_rules : List Rule
demo_rules = api_dev ∷ catch_all ∷ api_prod ∷ api_copy ∷ []

-- What a text of the configuration compiles to.
unfoldable pub prefix_matcher : TagMatcher
unfolding contains
prefix_matcher = record { literal = []; re = some (λ tag. contains (codes "v") tag) }

abbrev pub denied : TagMatcher
denied = record { literal = codes "v0"; re = none }

unfoldable pub compiled_as : Rule → List Text → CompiledRule
unfolding prefix_matcher
compiled_as rule segments = record {
  rule = rule;
  host = codes "ghcr.io";
  segments = segments;
  tag_pieces = [];
  allow = prefix_matcher;
  deny = denied ∷ [];
}

abbrev pub api_segments : List Text
api_segments = codes "acme" ∷ codes "$1" ∷ []

unfoldable pub catch_all_compiled : CompiledRule
unfolding compiled_as
catch_all_compiled = record (compiled_as catch_all (codes "*" ∷ codes "*" ∷ [])) {
  allow = record { literal = []; re = none };
}

unfoldable pub demo_compiled : List CompiledRule
unfolding compiled_as catch_all_compiled
demo_compiled =
    compiled_as api_dev api_segments
    ∷ catch_all_compiled
    ∷ compiled_as api_prod api_segments
    ∷ compiled_as api_copy api_segments
    ∷ []

pub demo_compiles : new_rule_set small_std demo_rules ≡ ok demo_compiled
unfolding new_rule_set small_std demo_compiled
demo_compiles = refl

abbrev pub pushed_image : ImagePushEvent
pushed_image = record {
  kind = codes "oci";
  host = codes "ghcr.io";
  repository = codes "acme/api";
  tag = codes "v1.2.3";
  digest = [];
}
