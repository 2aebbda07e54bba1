-- ===== src/Patch/Scalar.antt =====
-- internal/infrastructure/manifest/kustomize/document.go: the length of a scalar in its line, and how a
-- value is written.
pub mod Tokens
use image_updater.Prelude.{
  ℕ, zero, suc, ◌≡◌, refl, Bool, true, false, not, ◌&&◌, ◌||◌, List, [], ◌∷◌, ◌++◌, Option, none,
  some, ◌==◌, leb, all, length, if◌then◌else◌,
}
use image_updater.Text.{Text, codes, is_empty, has_prefix, trim_right}
use image_updater.Model.Errors.{plain, Result, ok, err}
use image_updater.Patch.Yaml.{
  Style, plain_style, single_quoted, double_quoted, other_style, YamlLibrary,
}

-- A blank or a tab.
unfoldable pub is_blank_byte : ℕ → Bool
is_blank_byte c = c == b' ' || c == 0x09

-- The text in front of the first " #".
unfoldable pub before_comment : Text → Text
unfolding has_prefix
before_comment [] = []
before_comment (c ∷ s) =
    let rest = before_comment s in if has_prefix (codes " #") (c ∷ s) then [] else c ∷ rest

-- plainTokenLength
unfoldable pub plain_token_length : Text → ℕ
unfolding before_comment trim_right is_blank_byte
plain_token_length rest = length (trim_right is_blank_byte (before_comment rest))

-- Whether the next byte is this one.
unfoldable pub starts_with : ℕ → Text → Bool
starts_with b [] = false
starts_with b (c ∷ s) = c == b

-- The loop of `quotedTokenLength` at the index `i`: the first argument counts the bytes that the loop
-- has stepped over.
unfoldable pub quoted_from : ℕ → ℕ → ℕ → Text → Option ℕ
unfolding starts_with
quoted_from k quote i [] = none
quoted_from zero quote i (c ∷ s) =
    let next = quoted_from zero quote (suc i) s in
    let skip = quoted_from 1 quote (suc i) s in
    if c == b'\\'
    then if quote == b'"' then skip else next
    else if c == quote
    then if quote == b'\'' && starts_with b'\'' s then skip else some (suc i)
    else next
quoted_from (suc k) quote i (c ∷ s) = quoted_from k quote (suc i) s

of_option : Option ℕ → Result ℕ
of_option none = err (plain [])
of_option (some n) = ok n

-- quotedTokenLength
unfoldable pub quoted_token_length : Text → ℕ → Result ℕ
unfolding quoted_from of_option
quoted_token_length [] quote = err (plain [])
quoted_token_length (c ∷ s) quote =
    if not (c == quote) then err (plain []) else of_option (quoted_from zero quote 1 s)

-- scalarTokenLength
unfoldable pub scalar_token_length : Text → Style → Result ℕ
unfolding quoted_token_length plain_token_length
scalar_token_length rest single_quoted = quoted_token_length rest b'\''
scalar_token_length rest double_quoted = quoted_token_length rest b'"'
scalar_token_length rest plain_style = ok (plain_token_length rest)
scalar_token_length rest other_style = err (plain [])

-- A byte that needs no quotes.
unfoldable pub is_safe_byte : ℕ → Bool
is_safe_byte c =
    (leb b'a' c && leb c b'z')
    || ((leb b'A' c && leb c b'Z')
        || ((leb b'0' c && leb c b'9') || (c == b'_' || (c == b'.' || c == b'-'))))

-- isSafePlainScalar
unfoldable pub is_safe_plain_scalar : YamlLibrary → Text → Bool
unfolding is_safe_byte
is_safe_plain_scalar yaml [] = false
is_safe_plain_scalar yaml (c ∷ s) =
    if c == b'.' || c == b'-'
    then false
    else if all is_safe_byte (c ∷ s)
    then yaml.reads_string (c ∷ s)
    else false

-- formatScalar
unfoldable pub format_scalar : YamlLibrary → Text → Text
unfolding is_safe_plain_scalar
format_scalar yaml value = if is_safe_plain_scalar yaml value then value else yaml.quote value

commented : plain_token_length (codes "v1.2  # the tag") ≡ 4
unfolding plain_token_length
commented = refl

single : quoted_token_length (codes "'it''s' # x") b'\'' ≡ ok 7
unfolding quoted_token_length
single = refl
