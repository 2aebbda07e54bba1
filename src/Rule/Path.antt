-- ===== src/Rule/Path.antt =====
-- internal/model/rule.go: `splitPath`, `isVariable`, `splitImagePattern`; `path.Clean` and
-- `path.Join` of Go's library.
pub mod Clean
use image_updater.Prelude.{
  ◌≡◌, refl, Bool, true, false, not, List, [], ◌∷◌, ◌||◌, if◌then◌else◌, keep,
}
use mathlib.Core.List.{reverse}
use image_updater.Text.{Text, codes, text_eq, is_empty, has_byte, has_prefix}
use image_updater.Text.Utf8.{trim_space}
use image_updater.Text.Split.{split, join, cut}

-- strings.TrimSpace(segment) == ""
unfoldable pub is_blank : Text → Bool
unfolding is_empty trim_space
is_blank s = is_empty (trim_space s)

-- splitPath
unfoldable pub split_path : Text → List Text
unfolding split is_blank
split_path raw = keep (λ s. not (is_blank s)) (split b'/' raw)

-- isVariable
unfoldable pub is_variable : Text → Bool
unfolding has_byte
is_variable s = has_byte b'$' s

-- The segments of an image pattern, the last one cut at its colon, and the pieces of what stands
-- behind the colon.
split_last : List Text → List Text × List Text
unfolding cut split
split_last [] = ([], [])
split_last (last ∷ []) =
    let (repository, tag_pattern, found) = cut b':' last in
    if found then (repository ∷ [], split b'.' tag_pattern) else (last ∷ [], [])
split_last (s ∷ t ∷ segments) = let (rest, pieces) = split_last (t ∷ segments) in (s ∷ rest, pieces)

-- splitImagePattern: the host, the segments and the tag pieces
unfoldable pub split_image_pattern : Text → Text × List Text × List Text
unfolding split_path split_last
split_image_pattern pattern = elim (split_path pattern) [
  | [] ↦ ([], [], [])
  | host ∷ segments ↦ let (rest, pieces) = split_last segments in (host, rest, pieces)
]

-- path.Clean: a `..` takes the component before it away, unless that is a `..` itself or there is
-- none. `rooted` tells that the path begins with a slash; the components kept stand last first.
pop : Bool → List Text → List Text
unfolding text_eq
pop true [] = []
pop false [] = codes ".." ∷ []
pop rooted (o ∷ out) = if text_eq o (codes "..") then codes ".." ∷ o ∷ out else out

clean_onto : Bool → List Text → List Text → List Text
unfolding is_empty text_eq pop
clean_onto rooted out [] = out
clean_onto rooted out (s ∷ ss) =
    clean_onto rooted
      (if is_empty s || text_eq s (codes ".")
        then out
        else if text_eq s (codes "..")
        then pop rooted out
        else s ∷ out)
      ss

-- path.Clean
unfoldable pub clean : Text → Text
unfolding has_prefix split join clean_onto is_empty
clean path =
    let rooted = has_prefix (codes "/") path in
    let kept = join (codes "/") (reverse (clean_onto rooted [] (split b'/' path))) in
    if rooted then b'/' ∷ kept else if is_empty kept then codes "." else kept

-- path.Join: the elements from the first that is not empty on
drop_empty : List Text → List Text
unfolding is_empty
drop_empty [] = []
drop_empty (s ∷ ss) = let rest = drop_empty ss in if is_empty s then rest else s ∷ ss

join_elements : List Text → Text
unfolding join clean
join_elements [] = []
join_elements (s ∷ ss) = clean (join (codes "/") (s ∷ ss))

unfoldable pub path_join : List Text → Text
unfolding drop_empty join_elements
path_join elements = join_elements (drop_empty elements)

cleaned : path_join (codes "a" ∷ codes "../b" ∷ codes "./c/" ∷ []) ≡ codes "b/c"
unfolding path_join
cleaned = refl

pattern_parts :
    split_image_pattern (codes "host.io/apps/$1:$2.*")
    ≡ (codes "host.io", codes "apps" ∷ codes "$1" ∷ [], codes "$2" ∷ codes "*" ∷ [])
unfolding split_image_pattern
pattern_parts = refl
