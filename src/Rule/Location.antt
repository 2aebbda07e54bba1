-- ===== src/Rule/Location.antt =====
-- internal/model/rule.go: `compiledRule.variables`, `expandVariables` and `MatchedRule.Location`.
pub mod Inside
use image_updater.Prelude.{
  Bool, not, ◌||◌, List, [], ◌∷◌, ltb, ◌==◌, length, if◌then◌else◌, sort_by,
}
use image_updater.Text.{Text, codes, text_eq, contains_any, has_byte, replace_all}
use image_updater.Text.Split.{split}
use image_updater.Model.Errors.{sentinel, wrap, incomplete_rule, Result, ok, err, ◌>>=◌}
use image_updater.Model.Image.{ImagePushEvent}
use image_updater.Std.{Std}
use image_updater.Rule.Types.{CompiledRule, ManifestLocation}
use image_updater.Rule.Path.{split_path, is_variable}
use image_updater.Rule.Url.{parse_manifest_url}
use image_updater.Rule.Select.{MatchedRule}

-- The captures: a map from names to values.
abbrev pub Captures : Type 0
Captures = List (Text × Text)

-- variables[name] = value
unfoldable pub put : Text → Text → Captures → Captures
unfolding text_eq
put name value [] = (name, value) ∷ []
put name value ((n, v) ∷ captures) =
    let rest = put name value captures in
    if text_eq n name then (n, value) ∷ captures else (n, v) ∷ rest

-- The loop over the segments of the pattern; `repository` has as many.
capture_segments : List Text → List Text → Captures → Captures
unfolding is_variable put
capture_segments [] repository captures = captures
capture_segments (s ∷ ss) [] captures = captures
capture_segments (s ∷ ss) (r ∷ rs) captures =
    capture_segments ss rs (if is_variable s then put s r captures else captures)

-- The loop over the pieces of the tag pattern, with what is left of the pieces of the tag.
capture_pieces : List Text → List Text → Captures → Result Captures
unfolding is_variable put
capture_pieces [] pieces captures = ok captures
capture_pieces (p ∷ ps) [] captures =
    let rest = capture_pieces ps [] captures in
    if is_variable p then err (wrap (p ∷ []) (sentinel incomplete_rule)) else rest
capture_pieces (p ∷ ps) (t ∷ ts) captures =
    capture_pieces ps ts (if is_variable p then put p t captures else captures)

-- compiledRule.variables
unfoldable pub variables : CompiledRule → ImagePushEvent → Result Captures
unfolding split_path capture_segments capture_pieces split
variables c event =
    let repository = split_path event.repository in
    if not (length repository == length c.segments)
    then err (wrap (event.repository ∷ c.rule.image_pattern ∷ []) (sentinel incomplete_rule))
    else capture_pieces c.tag_pieces (split b'.' event.tag)
        (capture_segments c.segments repository [])

-- The test on a captured value.
unfoldable pub is_unsafe : Text → Bool
unfolding text_eq contains_any
is_unsafe value =
    text_eq value (codes ".")
    || (text_eq value (codes "..") || contains_any (codes "/\\*?[]") value)

-- The loop over the captures.
check_captures : Captures → Result (Unit {0})
unfolding is_unsafe
check_captures [] = ok tt
check_captures ((n, v) ∷ captures) =
    let rest = check_captures captures in
    if is_unsafe v then err (wrap (n ∷ v ∷ []) (sentinel incomplete_rule)) else rest

-- len(names[i]) > len(names[j])
unfoldable pub longer : Text × Text → Text × Text → Bool
longer (n, v) (m, w) = ltb (length m) (length n)

-- The substitutions, one name after the other.
substitute : Text → Captures → Text
unfolding replace_all
substitute template [] = template
substitute template ((n, v) ∷ captures) = substitute (replace_all template n v) captures

-- expandVariables, from the entries in the order in which the map yields them
unfoldable pub expand_variables : Text → Captures → Text
unfolding substitute longer sort_by
expand_variables template captures = substitute template (sort_by longer captures)

-- MatchedRule.Location
unfoldable pub location : Std → MatchedRule → Result ManifestLocation
unfolding variables check_captures expand_variables has_byte parse_manifest_url
location std m = do
  captures ← variables m.compiled m.event
  _ ← check_captures (std.iterate captures)
  let expanded = expand_variables m.compiled.rule.manifest_url (std.iterate captures)
  if has_byte b'$' expanded
      then err (wrap (expanded ∷ []) (sentinel incomplete_rule))
      else parse_manifest_url std expanded
