-- ===== src/Rule/Path/Clean.antt =====
-- `path.Join` of segments that are plain names.
use mathlib.Core.List.{reverse_aux, reverse-reverse}
use image_updater.Prelude.{◌≡◌, refl, Bool, false, List, [], ◌∷◌, ◌++◌, arith, All, append-nil}
use image_updater.Text.{Text, codes, text_eq, is_empty, has_prefix}
use image_updater.Text.Split.{join, Lacks, split-join}
use image_updater.Rule.Path.{clean_onto, path_join}

-- A name of a file or a directory.
pub record IsName (s : Text) : Type 0 where
  pub not_empty : is_empty s ≡ false
  pub not_here : text_eq s (codes ".") ≡ false
  pub not_up : text_eq s (codes "..") ≡ false
  pub no_slash : Lacks b'/' s

clean_onto-names :
    (rooted : Bool) (out ss : List Text)
    → All IsName ss
    → clean_onto rooted out ss ≡ reverse_aux ss out
unfolding clean_onto
clean_onto-names rooted out [] h = refl
clean_onto-names rooted out (s ∷ ss) (n, h) =
    rw (n.not_empty, n.not_here, n.not_up) (clean_onto-names rooted (s ∷ out) ss h)

All-no_slash : (ss : List Text) → All IsName ss → All (Lacks b'/') ss
All-no_slash [] h = tt
All-no_slash (s ∷ ss) (n, h) = (n.no_slash, All-no_slash ss h)

relative :
    (s : Text) (rest : Text)
    → is_empty s ≡ false
    → Lacks b'/' s
    → has_prefix (codes "/") (s ++ rest) ≡ false
unfolding is_empty has_prefix
relative [] rest e h = cc
relative (c ∷ s) rest e (n, h) = ground arith

join-relative :
    (s : Text) (ss : List Text)
    → IsName s
    → has_prefix (codes "/") (join (codes "/") (s ∷ ss)) ≡ false
unfolding join
join-relative s [] n = rw (← append-nil s) (relative s [] n.not_empty n.no_slash)
join-relative s (t ∷ ss) n = relative s _ n.not_empty n.no_slash

join-not_empty :
    (s : Text) (ss : List Text) → is_empty s ≡ false → is_empty (join (codes "/") (s ∷ ss)) ≡ false
unfolding join is_empty
join-not_empty [] ss h = cc
join-not_empty (c ∷ s) [] h = refl
join-not_empty (c ∷ s) (t ∷ ss) h = refl

-- Cleaning changes nothing where every element is a name.
pub path_join-names : (ss : List Text) → All IsName ss → path_join ss ≡ join (codes "/") ss
unfolding path_join
path_join-names [] h = refl
path_join-names (s ∷ ss) (n, h) = rw (n.not_empty) (
    rw (
      join-relative s ss n,
      split-join b'/' s ss (All-no_slash (s ∷ ss) (n, h)),
      clean_onto-names false [] (s ∷ ss) (n, h),
      reverse-reverse,
      join-not_empty s ss n.not_empty,
    ))
