-- ===== src/Label/Value.antt =====
-- internal/model/label_value.go: the normalisation of one label value.
pub mod Grammar
use image_updater.Prelude.{
  ℕ, Bool, true, false, not, ◌&&◌, ◌||◌, List, [], ◌∷◌, ◌++◌, none, some, ◌==◌, ltb, leb, ◌≡◌, refl,
  if◌then◌else◌, length, any, take,
}
use image_updater.Text.{Text, codes, text_eq, is_empty, has_byte, trim_right}
use image_updater.Text.Utf8.{
  rune_error, chunks, unchunk, runes, rune_count, encode_rune, is_space, trim_space,
}
use image_updater.Std.{Std, Url}

abbrev pub max_label_text_length : ℕ
max_label_text_length = 512

abbrev pub max_label_url_length : ℕ
max_label_url_length = 2048

abbrev pub max_label_handle_length : ℕ
max_label_handle_length = 39

abbrev pub max_label_token_length : ℕ
max_label_token_length = 256

-- tokenExtraCharacters
abbrev pub token_extra_characters : Text
token_extra_characters = codes "._-/:+"

-- truncateRunes
unfoldable pub truncate_runes : Text → ℕ → Text
unfolding rune_count chunks unchunk trim_right
truncate_runes value limit =
    if leb (rune_count value) limit
    then value
    else trim_right (λ c. c == b' ') (unchunk (take limit (chunks value)))

-- A rune that is dropped but still separates words.
unfoldable pub is_gap : Std → ℕ → Bool
unfolding is_space
is_gap std char = (char == rune_error || not (std.is_print char)) || is_space char

-- The loop of `sanitizeLabelText`: what was written, and whether a space is pending.
unfoldable pub normalise : Std → List ℕ → Text → Bool → Text
unfolding is_gap is_empty encode_rune
normalise std [] out pending = out
normalise std (char ∷ cs) out pending =
    normalise std cs
      (if is_gap std char
        then out
        else (if pending then out ++ b' ' ∷ [] else out) ++ encode_rune char)
      (if is_gap std char then not (is_empty out) else false)

-- sanitizeLabelText
unfoldable pub sanitize_label_text : Std → Text → Text
unfolding normalise runes truncate_runes
sanitize_label_text std value =
    truncate_runes (normalise std (runes value) [] false) max_label_text_length

-- A URL that may be published.
unfoldable pub is_publishable : Url → Bool
unfolding text_eq is_empty
is_publishable u =
    (text_eq u.scheme (codes "http") || text_eq u.scheme (codes "https"))
    && (not (is_empty u.host) && not u.user)

-- sanitizeLabelURL
unfoldable pub sanitize_label_url : Std → Text → Text
unfolding trim_space is_empty runes is_space is_publishable
sanitize_label_url std raw =
    let value = trim_space raw in
    if is_empty value || ltb max_label_url_length (length value)
    then []
    else if any (λ char. is_space char || not (std.is_print char)) (runes value)
    then []
    else elim (std.parse_url value) [ none ↦ [] | some u ↦ if is_publishable u then u.text else [] ]

-- isASCIIAlphanumeric
unfoldable pub is_ascii_alphanumeric : ℕ → Bool
is_ascii_alphanumeric c =
    (leb b'a' c && leb c b'z') || ((leb b'A' c && leb c b'Z') || (leb b'0' c && leb c b'9'))

-- The loop of `sanitizeLabelHandle`: whether the first rune is still to come, and whether the last
-- was a hyphen. The value is accepted unless it ends on one.
unfoldable pub is_login_from : List ℕ → Bool → Bool → Bool
unfolding is_ascii_alphanumeric
is_login_from [] first hyphen = not hyphen
is_login_from (char ∷ cs) first hyphen =
    let next = is_login_from cs false (not (is_ascii_alphanumeric char)) in
    if is_ascii_alphanumeric char
    then next
    else if char == b'-' && (not first && not hyphen)
    then next
    else false

-- sanitizeLabelHandle
unfoldable pub sanitize_label_handle : Text → Text
unfolding trim_space is_empty runes is_login_from
sanitize_label_handle raw =
    let value = trim_space raw in
    if is_empty value || ltb max_label_handle_length (length value)
    then []
    else if is_login_from (runes value) true false
    then value
    else []

-- sanitizeLabelNumber
unfoldable pub sanitize_label_number : Text → Text
unfolding trim_space is_empty runes
sanitize_label_number raw =
    let value = trim_space raw in
    if is_empty value || ltb max_label_token_length (length value)
    then []
    else if any (λ char. ltb char b'0' || ltb b'9' char) (runes value)
    then []
    else value

-- A rune that a token may hold.
unfoldable pub is_token_rune : ℕ → Bool
unfolding is_ascii_alphanumeric has_byte
is_token_rune char = is_ascii_alphanumeric char || has_byte char token_extra_characters

-- sanitizeLabelToken
unfoldable pub sanitize_label_token : Text → Text
unfolding trim_space is_empty runes is_token_rune
sanitize_label_token raw =
    let value = trim_space raw in
    if is_empty value || ltb max_label_token_length (length value)
    then []
    else if any (λ char. not (is_token_rune char)) (runes value)
    then []
    else value

login : sanitize_label_handle (codes " a-b1 ") ≡ codes "a-b1"
unfolding sanitize_label_handle
login = refl

no_login : sanitize_label_handle (codes "a--b") ≡ []
unfolding sanitize_label_handle
no_login = refl
