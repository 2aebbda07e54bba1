-- ===== src/Rule/Tag/Verdict.antt =====
-- `ValidateTag` against a description by the configured patterns, and which pattern its message
-- quotes.
use image_updater.Prelude.{
  ℕ, suc, ◌≡◌, refl, Bool, false, not, ◌&&◌, ◌||◌, List, [], ◌∷◌, Option, none, some, arith, any,
  if◌then◌else◌, inl, inr, Bool-cases, List-cases,
}
use image_updater.Text.{Text, codes, text_eq, is_empty, has_prefix, cut_prefix}
use image_updater.Text.Utf8.{trim_space}
use image_updater.Model.Errors.{
  Sentinel, Error, sentinel, plain, wrap, join, image_tag_not_allowed, image_tag_denied, Result, ok,
  err,
}
use image_updater.Std.{Std}
use image_updater.Rule.Types.{TagMatcher, CompiledRule}
use image_updater.Rule.Tag.{new_tag_matcher, empty, matches, check_denied, validate_tag}

-- The sentinel that an error wraps first.
abbrev pub cause : Error → Option Sentinel
cause (sentinel s) = some s
cause (plain _) = none
cause (wrap _ e) = cause e
cause (join d e) = cause d

abbrev pub failure {ℓ} : {A : Type ℓ} → Result A → Option Sentinel
failure (ok a) = none
failure (err e) = cause e

failure-check_denied :
    (c : CompiledRule) (tag : Text) (i : ℕ) (ms : List TagMatcher)
    → failure (check_denied c tag i ms)
      ≡ (if any (λ m. matches m tag) ms then some image_tag_denied else none)
unfolding check_denied
failure-check_denied c tag i [] = refl
failure-check_denied c tag i (m ∷ ms) = ground (arith, failure-check_denied c tag (suc i) ms)

-- A pattern of the configuration that says nothing: it is blank.
unfoldable pub is_unset : Text → Bool
unfolding is_empty trim_space
is_unset pattern = is_empty (trim_space pattern)

-- A pattern of the configuration matches a tag: as a regular expression behind `regexp:`, and as the
-- tag itself otherwise, unless it is blank.
unfoldable pub accepts : Std → Text → Text → Bool
unfolding is_unset cut_prefix trim_space text_eq
accepts std tag pattern =
    let (expr, is_regexp) = cut_prefix (codes "regexp:") (trim_space pattern) in
    if is_regexp
    then elim (std.compile (trim_space expr)) [ none ↦ false | some re ↦ re tag ]
    else not (is_unset pattern) && text_eq (trim_space pattern) tag

no_prefix : (s : Text) → s ≡ [] → (cut_prefix (codes "regexp:") s).1 ≡ false
unfolding cut_prefix has_prefix
no_prefix s e = rw e refl

-- A matcher is empty exactly if its pattern is blank, and matches what its pattern accepts.
pub new_tag_matcher-accepts :
    (std : Std) (tag pattern : Text) {m : TagMatcher}
    → new_tag_matcher std pattern ≡ ok m
    → (empty m ≡ is_unset pattern) × ((not (empty m) && matches m tag) ≡ accepts std tag pattern)
unfolding new_tag_matcher empty matches is_unset accepts is_empty
new_tag_matcher-accepts std tag pattern h =
    elim (Bool-cases (cut_prefix (codes "regexp:") (trim_space pattern)).1) [
      | inr e ↦ (ground (arith, e, h), ground (arith, e, h))
      | inl e ↦ elim (List-cases (trim_space pattern)) [
        | inl z ↦ absurd (ground (arith, no_prefix (trim_space pattern) z, e))
        | inr (c, cs, z) ↦ (ground (arith, e, h, z), ground (arith, e, h))
      ]
    ]

-- `ValidateTag` accepts a tag that the allow pattern matches, or any tag if there is none, unless a
-- deny pattern matches it; the sentinel tells which of the two failed, the allow pattern first.
pub failure-validate_tag :
    (c : CompiledRule) (tag : Text)
    → failure (validate_tag c tag) ≡ (
        if empty c.allow || matches c.allow tag
        then if any (λ m. matches m tag) c.deny then some image_tag_denied else none
        else some image_tag_not_allowed)
unfolding validate_tag
failure-validate_tag c tag = ground (arith, failure-check_denied c tag 0 c.deny)
