-- ===== src/Rule/Url/Safe.antt =====
-- internal/model/rule.go: what the location of a manifest URL may name.
use image_updater.Prelude.{
  ℕ, ◌+◌, ◌≤◌, ◌≡◌, refl, true, false, not, List, [], ◌∷◌, ◌++◌, arith, count, All, keep, ◌⊎◌, inl,
  inr, Bool-cases, sym, subst, Option-cases,
}
use image_updater.Text.{Text, codes, text_eq, contains_any, is_empty}
use image_updater.Text.Split.{split, join, Lacks, split-Lacks}
use image_updater.Model.Errors.{ok, Result-cases}
use image_updater.Std.{Std}
use image_updater.Rule.Types.{ManifestLocation}
use image_updater.Rule.Path.{split_path, path_join, is_blank}
use image_updater.Rule.Path.Clean.{IsName, path_join-names}
use image_updater.Rule.Url.{wildcard_characters, count_wildcards, locate, parse_manifest_url}

-- A segment of a manifest path: no step up, and a wildcard only as the whole segment **.
pub record IsSegment (s : Text) : Type 0 where
  pub not_here : text_eq s (codes ".") ≡ false
  pub not_up : text_eq s (codes "..") ≡ false
  pub plain_or_recursive :
      (text_eq s (codes "**") ≡ true) ⊎ (contains_any wildcard_characters s ≡ false)

abbrev pub wildcards : List Text → ℕ
wildcards = count (λ s. text_eq s (codes "**"))

count_wildcards-IsSegment :
    (ss : List Text) (n : ℕ) {m : ℕ}
    → count_wildcards ss n ≡ ok m
    → All IsSegment ss × (m ≡ n + wildcards ss)
unfolding count_wildcards
count_wildcards-IsSegment [] n {m} h = (tt, ground arith)
count_wildcards-IsSegment (s ∷ ss) n {m} h = elim (Bool-cases (text_eq s (codes "**"))) [
  | inl e ↦
      let (a, k) = count_wildcards-IsSegment ss (n + 1) {m = m} (ground arith) in
      (
        (record { not_here = ground arith; not_up = ground arith; plain_or_recursive = inl e }, a),
        rw e (omega (arith, k)),
      )
  | inr e ↦
      let (a, k) = count_wildcards-IsSegment ss n {m = m} (ground arith) in
      (
        (
          record {
            not_here = ground arith;
            not_up = ground arith;
            plain_or_recursive = inr (ground arith);
          },
          a,
        ),
        rw e k,
      )
]

-- A segment of a path that was split at its slashes.
pub record IsPart (s : Text) : Type 0 where
  pub not_blank : is_blank s ≡ false
  pub no_slash : Lacks b'/' s

All-keep : (ss : List Text) → All (Lacks b'/') ss → All IsPart (keep (λ s. not (is_blank s)) ss)
All-keep [] h = tt
All-keep (s ∷ ss) (n, h) = elim (Bool-cases (is_blank s)) [
  | inl e ↦ rw e (All-keep ss h)
  | inr e ↦ rw e (record { not_blank = e; no_slash = n }, All-keep ss h)
]

-- No segment of a path is blank or holds a slash.
pub split_path-IsPart : (raw : Text) → All IsPart (split_path raw)
unfolding split_path
split_path-IsPart raw = All-keep (split b'/' raw) (split-Lacks b'/' raw)

blank_of_empty : (s : Text) → is_blank s ≡ false → is_empty s ≡ false
unfolding is_blank
blank_of_empty [] h = absurd (cc h)
blank_of_empty (c ∷ s) h = refl

All-IsName : (ss : List Text) → All IsPart ss → All IsSegment ss → All IsName ss
All-IsName [] h k = tt
All-IsName (s ∷ ss) (p, h) (q, k) = (
  record {
    not_empty = blank_of_empty s p.not_blank;
    not_here = q.not_here;
    not_up = q.not_up;
    no_slash = p.no_slash;
  },
  All-IsName ss h k,
)

-- A location inside its repository.
pub record IsInside (l : ManifestLocation) : Type 0 where
  pub owner_part : IsPart l.owner
  pub repository_part : IsPart l.repository
  pub url : l.repository_url ≡ codes "https://github.com/" ++ (l.owner ++ (b'/' ∷ l.repository))
  pub segments : List Text
  pub dir_segments : l.dir ≡ join (codes "/") segments
  pub names : All IsName segments
  pub limited : All IsSegment segments
  pub one_wildcard : wildcards segments ≤ 1

abbrev place : Text → Text → List Text → ManifestLocation
place owner repository segments = record {
  repository_url = codes "https://github.com/" ++ (owner ++ (b'/' ∷ repository));
  owner = owner;
  repository = repository;
  dir = path_join segments;
}

locate-eq-ok :
    (raw o r : Text) (ss : List Text) {l : ManifestLocation}
    → locate raw (o ∷ r ∷ ss) ≡ ok l
    → (n : ℕ) × (count_wildcards ss 0 ≡ ok n) × (n ≤ 1) × (l ≡ place o r ss)
unfolding locate
locate-eq-ok raw o r ss {l} k = elim (Result-cases (count_wildcards ss 0)) [
  | inl (e, p) ↦ absurd (ground (arith, p))
  | inr (n, p) ↦ (n, p, ground (arith, p), ground (arith, p))
]

locate-IsInside :
    (raw : Text) (parts : List Text) {l : ManifestLocation}
    → All IsPart parts
    → locate raw parts ≡ ok l
    → IsInside l
locate-IsInside raw [] h k = absurd (unfold locate in cc k)
locate-IsInside raw (o ∷ []) h k = absurd (unfold locate in cc k)
locate-IsInside raw (o ∷ r ∷ ss) {l} (po, (pr, ps)) k =
    let (n, p, few, e) = locate-eq-ok raw o r ss k in
    let (segments, total) = count_wildcards-IsSegment ss 0 {m = n} p in
    subst IsInside (sym e) (record {
      owner_part = po;
      repository_part = pr;
      url = refl;
      segments = ss;
      dir_segments = path_join-names ss (All-IsName ss ps segments);
      names = All-IsName ss ps segments;
      limited = segments;
      one_wildcard = omega (arith, total, few);
    })

-- Whatever URL `url.Parse` finds in a text, a location that is read from it lies inside one GitHub
-- repository: the owner and the repository are single segments that are not blank, and the directory
-- is a path of plain names, without `.`, `..` or an empty segment, with at most one ** segment and no
-- other wildcard character.
pub parse_manifest_url-IsInside :
    (std : Std) (raw : Text) {l : ManifestLocation} → parse_manifest_url std raw ≡ ok l → IsInside l
unfolding parse_manifest_url
parse_manifest_url-IsInside std raw h = elim (Option-cases (std.parse_url raw)) [
  | inl e ↦ absurd (ground (arith, e))
  | inr (u, e) ↦
      locate-IsInside raw (split_path u.path) (split_path-IsPart u.path) (ground (arith, e))
]
