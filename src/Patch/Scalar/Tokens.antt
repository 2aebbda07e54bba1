-- ===== src/Patch/Scalar/Tokens.antt =====
-- internal/infrastructure/manifest/kustomize/document.go: how far `scalarTokenLength` reaches.
use image_updater.Prelude.{
  ℕ, zero, suc, ◌+◌, ◌≤◌, ◌≡◌, ◌⊎◌, refl, sym, ap, ◌∙◌, Bool, true, false, ◌&&◌, [], ◌∷◌, ◌++◌,
  some, ◌==◌, all, length, drop, arith, inl, inr, Bool-cases, Option-cases,
}
use image_updater.Text.{Text, codes, is_empty, has_prefix, trim_right}
use image_updater.Model.Errors.{ok}
use image_updater.Patch.Yaml.{
  Style, plain_style, single_quoted, double_quoted, other_style, YamlLibrary,
}
use image_updater.Patch.Scalar.{
  is_blank_byte, before_comment, plain_token_length, starts_with, quoted_from, quoted_token_length,
  scalar_token_length, is_safe_byte, is_safe_plain_scalar, format_scalar, of_option,
}

length-trim_right : (p : ℕ → Bool) (s : Text) → length (trim_right p s) ≤ length s
unfolding trim_right
length-trim_right p [] = omega arith
length-trim_right p (c ∷ s) = ground (arith, length-trim_right p s)

length-before_comment : (s : Text) → length (before_comment s) ≤ length s
unfolding before_comment
length-before_comment [] = omega arith
length-before_comment (c ∷ s) = ground (arith, length-before_comment s)

plain_token_length-le : (s : Text) → plain_token_length s ≤ length s
unfolding plain_token_length
plain_token_length-le s =
    omega (arith, length-trim_right is_blank_byte (before_comment s), length-before_comment s)

-- One step of the loop.
quoted_from-cases :
    (quote i c : ℕ) (s : Text)
    → (quoted_from zero quote i (c ∷ s) ≡ quoted_from zero quote (suc i) s)
      ⊎ ((quoted_from zero quote i (c ∷ s) ≡ quoted_from 1 quote (suc i) s)
          ⊎ (quoted_from zero quote i (c ∷ s) ≡ some (suc i)))
unfolding quoted_from
quoted_from-cases quote i c s = elim (Bool-cases (c == b'\\')) [
  | inl e ↦ elim (Bool-cases (quote == b'"')) [
    | inl q ↦ inr (inl (rw (e, q)))
    | inr q ↦ inl (rw (e, q))
  ]
  | inr e ↦ elim (Bool-cases (c == quote)) [
    | inr q ↦ inl (rw (e, q))
    | inl q ↦ elim (Bool-cases (quote == b'\'' && starts_with b'\'' s)) [
      | inl d ↦ inr (inl (rw (e, q, d)))
      | inr d ↦ inr (inr (rw (e, q, d)))
    ]
  ]
]

quoted_from-le :
    (k quote i : ℕ) (s : Text) {n : ℕ} → quoted_from k quote i s ≡ some n → n ≤ length s + i
unfolding quoted_from
quoted_from-le k quote i [] h = absurd (cc h)
quoted_from-le (suc k) quote i (c ∷ s) h = omega (arith, quoted_from-le k quote (suc i) s h)
quoted_from-le zero quote i (c ∷ s) h = elim (quoted_from-cases quote i c s) [
  | inl e ↦ omega (arith, quoted_from-le zero quote (suc i) s (sym e ∙ h))
  | inr (inl e) ↦ omega (arith, quoted_from-le 1 quote (suc i) s (sym e ∙ h))
  | inr (inr e) ↦ ground (arith, e, h)
]

quoted_token_length-le :
    (s : Text) (quote : ℕ) {n : ℕ} → quoted_token_length s quote ≡ ok n → n ≤ length s
unfolding quoted_token_length of_option
quoted_token_length-le [] quote h = absurd (cc h)
quoted_token_length-le (c ∷ s) quote h = elim (Option-cases (quoted_from zero quote 1 s)) [
  | inl e ↦ absurd (ground (arith, e, h))
  | inr (k, e) ↦ ground (arith, quoted_from-le zero quote 1 s e, e, h)
]

-- The text that is replaced ends inside its line.
pub scalar_token_length-le :
    (rest : Text) (style : Style) {n : ℕ} → scalar_token_length rest style ≡ ok n → n ≤ length rest
unfolding scalar_token_length
scalar_token_length-le rest single_quoted h = quoted_token_length-le rest b'\'' h
scalar_token_length-le rest double_quoted h = quoted_token_length-le rest b'"' h
scalar_token_length-le rest plain_style h = ground (arith, plain_token_length-le rest, h)
scalar_token_length-le rest other_style h = absurd (cc h)

plain_token_length-cases :
    (c : ℕ) (s : Text)
    → (plain_token_length (c ∷ s) ≡ 0) ⊎ (plain_token_length (c ∷ s) ≡ suc (plain_token_length s))
unfolding plain_token_length before_comment trim_right has_prefix
plain_token_length-cases c s = elim (Bool-cases (has_prefix (codes " #") (c ∷ s))) [
  | inl e ↦ inl (rw e refl)
  | inr e ↦
      elim (Bool-cases
        (is_empty (trim_right is_blank_byte (before_comment s)) && is_blank_byte c)) [
          | inl q ↦ inl (rw (e, q))
          | inr q ↦ inr (rw (e, q))
        ]
]

-- Behind a plain scalar there is none.
pub plain_token_length-drop : (s : Text) → plain_token_length (drop (plain_token_length s) s) ≡ 0
unfolding plain_token_length before_comment trim_right
plain_token_length-drop [] = refl
plain_token_length-drop (c ∷ s) = elim (plain_token_length-cases c s) [
  | inl e ↦ ap (λ n. plain_token_length (drop n (c ∷ s))) e ∙ e
  | inr e ↦ ap (λ n. plain_token_length (drop n (c ∷ s))) e ∙ plain_token_length-drop s
]

safe_not_blank : (c : ℕ) → is_safe_byte c ≡ true → ((c == b' ') ≡ false) × ((c == 0x09) ≡ false)
unfolding is_safe_byte
safe_not_blank c h = (ground (arith, h), ground (arith, h))

plain_token_length-safe :
    (c : ℕ) (s : Text)
    → is_safe_byte c ≡ true
    → plain_token_length (c ∷ s) ≡ suc (plain_token_length s)
unfolding plain_token_length before_comment trim_right has_prefix is_blank_byte
plain_token_length-safe c s h =
    let (blank, tab) = safe_not_blank c h in
    elim (Bool-cases (is_empty (trim_right is_blank_byte (before_comment s)))) [
      | inl e ↦ rw (blank, e, blank, tab)
      | inr e ↦ rw (blank, e)
    ]

-- A safe value in front of text without a scalar is the scalar.
pub plain_token_length-append :
    (v gap : Text)
    → all is_safe_byte v ≡ true
    → plain_token_length gap ≡ 0
    → plain_token_length (v ++ gap) ≡ length v
unfolding plain_token_length before_comment trim_right
plain_token_length-append [] gap h g = g
plain_token_length-append (c ∷ v) gap h g =
    plain_token_length-safe c (v ++ gap) (ground (arith, h))
    ∙ ap suc (plain_token_length-append v gap (ground (arith, h)) g)

safe_bytes :
    (yaml : YamlLibrary) (v : Text) → is_safe_plain_scalar yaml v ≡ true → all is_safe_byte v ≡ true
unfolding is_safe_plain_scalar
safe_bytes yaml [] h = refl
safe_bytes yaml (c ∷ v) h = elim (Bool-cases (all is_safe_byte (c ∷ v))) [
  | inl e ↦ e
  | inr e ↦ absurd (ground (arith, e, h))
]

-- A value that is safe is written as it is.
pub format_scalar-safe :
    (yaml : YamlLibrary) (v : Text)
    → is_safe_plain_scalar yaml v ≡ true
    → (format_scalar yaml v ≡ v) × (all is_safe_byte v ≡ true)
unfolding format_scalar
format_scalar-safe yaml v h = (rw h, safe_bytes yaml v h)
