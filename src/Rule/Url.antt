-- ===== src/Rule/Url.antt =====
-- internal/model/rule.go: `parseManifestURL` and `validateManifestPath`.
pub mod Safe
use image_updater.Prelude.{
  ℕ, ◌+◌, Bool, not, List, [], ◌∷◌, ◌++◌, none, some, ◌||◌, ltb, if◌then◌else◌,
}
use image_updater.Text.{Text, codes, text_eq, is_empty, contains_any, has_prefix}
use image_updater.Model.Errors.{plain, sentinel, wrap, incomplete_rule, Result, ok, err, ◌>>=◌}
use image_updater.Std.{Url, Std}
use image_updater.Rule.Types.{ManifestLocation}
use image_updater.Rule.Path.{split_path, path_join}

-- What a segment that is no ** may not hold.
abbrev pub wildcard_characters : Text
wildcard_characters = codes "\\*?[]"

-- The loop of `validateManifestPath`: the number of ** segments.
count_wildcards : List Text → ℕ → Result ℕ
unfolding text_eq contains_any
count_wildcards [] n = ok n
count_wildcards (s ∷ ss) n =
    let again = count_wildcards ss (if text_eq s (codes "**") then n + 1 else n) in
    if text_eq s (codes ".") || text_eq s (codes "..")
    then err (plain (s ∷ []))
    else if text_eq s (codes "**")
    then again
    else if contains_any wildcard_characters s
    then err (plain (s ∷ []))
    else again

-- validateManifestPath
unfoldable pub validate_manifest_path : List Text → Result (Unit {0})
unfolding count_wildcards
validate_manifest_path segments = do
  wildcards ← count_wildcards segments 0
  if ltb 1 wildcards then err (plain []) else ok tt

-- The test on the parts of the URL.
unfoldable pub is_github_url : Url → Bool
unfolding text_eq is_empty
is_github_url u = not (
    not (text_eq u.scheme (codes "https"))
    || (not (text_eq u.host (codes "github.com"))
        || (u.user || (not (is_empty u.raw_query) || not (is_empty u.fragment)))))

-- The test that the directory stays in the repository.
unfoldable pub escapes : Text → Bool
unfolding has_prefix text_eq
escapes dir =
    has_prefix (codes "/") dir || (text_eq dir (codes "..") || has_prefix (codes "../") dir)

-- The location that the segments of the path name. An error of the path check is in the message
-- only, so `errors.Is` does not see it.
unfoldable pub locate : Text → List Text → Result ManifestLocation
unfolding validate_manifest_path path_join escapes
locate raw (owner ∷ repository ∷ segments) = elim (validate_manifest_path segments) [
  | err e ↦ err (wrap (raw ∷ []) (sentinel incomplete_rule))
  | ok _ ↦
      let dir = path_join segments in
      if escapes dir
      then err (wrap (raw ∷ []) (sentinel incomplete_rule))
      else ok (record {
        repository_url = codes "https://github.com/" ++ (owner ++ (b'/' ∷ repository));
        owner = owner;
        repository = repository;
        dir = dir;
      })
]
locate raw _ = err (wrap (raw ∷ []) (sentinel incomplete_rule))

-- parseManifestURL
unfoldable pub parse_manifest_url : Std → Text → Result ManifestLocation
unfolding is_github_url split_path locate
parse_manifest_url std raw = elim (std.parse_url raw) [
  | none ↦ err (wrap (raw ∷ []) (sentinel incomplete_rule))
  | some u ↦
      if is_github_url u
      then locate raw (split_path u.path)
      else err (wrap (raw ∷ []) (sentinel incomplete_rule))
]
