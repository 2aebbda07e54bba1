-- ===== src/Text/Utf8.antt =====
-- `unicode/utf8` and `range` over a string: decoding, encoding, and `unicode.IsSpace`.
use image_updater.Prelude.{
  ℕ, zero, suc, ◌+◌, ◌-◌, ◌*◌, ◌/◌, ◌%◌, Bool, ◌&&◌, ◌||◌, List, [], ◌∷◌, ◌++◌, ◌≡◌, refl, ◌==◌,
  ltb, leb, if◌then◌else◌, length, take, map,
}

-- utf8.RuneError
abbrev pub rune_error : ℕ
rune_error = 0xFFFD

within : ℕ → ℕ → ℕ → Bool
within lo hi b = leb lo b && leb b hi

is_tail : ℕ → Bool
unfolding within
is_tail b = within 0x80 0xBF b

decode_two : ℕ → List ℕ → ℕ × ℕ
unfolding is_tail
decode_two a (b ∷ _) = if is_tail b then ((a - 0xC0) * 64 + (b - 0x80), 2) else (rune_error, 1)
decode_two a [] = (rune_error, 1)

-- The bounds of the second byte exclude overlong forms and surrogates.
decode_three : ℕ → List ℕ → ℕ × ℕ
unfolding is_tail
decode_three a (b ∷ c ∷ _) =
    if within (if a == 0xE0 then 0xA0 else 0x80) (if a == 0xED then 0x9F else 0xBF) b && is_tail c
    then ((a - 0xE0) * 4096 + (b - 0x80) * 64 + (c - 0x80), 3)
    else (rune_error, 1)
decode_three a _ = (rune_error, 1)

decode_four : ℕ → List ℕ → ℕ × ℕ
unfolding is_tail
decode_four a (b ∷ c ∷ d ∷ _) =
    if within (if a == 0xF0 then 0x90 else 0x80) (if a == 0xF4 then 0x8F else 0xBF) b
      && (is_tail c && is_tail d)
    then ((a - 0xF0) * 262144 + (b - 0x80) * 4096 + (c - 0x80) * 64 + (d - 0x80), 4)
    else (rune_error, 1)
decode_four a _ = (rune_error, 1)

-- utf8.DecodeRune of a text that begins with the byte `a`: the rune and its width.
unfoldable pub decode_rune : ℕ → List ℕ → ℕ × ℕ
unfolding decode_two decode_three decode_four
decode_rune a rest =
    if ltb a 0x80
    then (a, 1)
    else if within 0xC2 0xDF a
    then decode_two a rest
    else if within 0xE0 0xEF a
    then decode_three a rest
    else if within 0xF0 0xF4 a
    then decode_four a rest
    else (rune_error, 1)

-- `range` over a string: each rune with the bytes it was read from. The first argument counts the
-- bytes of the last rune that are still to be passed over.
unfoldable pub chunks_from : ℕ → List ℕ → List (ℕ × List ℕ)
unfolding decode_rune
chunks_from k [] = []
chunks_from zero (a ∷ s) =
    let (r, w) = decode_rune a s in (r, take w (a ∷ s)) ∷ chunks_from (w - 1) s
chunks_from (suc k) (a ∷ s) = chunks_from k s

unfoldable pub chunks : List ℕ → List (ℕ × List ℕ)
unfolding chunks_from
chunks s = chunks_from zero s

-- The runes that `range` yields.
unfoldable pub runes : List ℕ → List ℕ
unfolding chunks
runes s = map (λ c. c.0) (chunks s)

-- utf8.RuneCountInString
unfoldable pub rune_count : List ℕ → ℕ
unfolding runes
rune_count s = length (runes s)

-- utf8.AppendRune, strings.Builder.WriteRune
unfoldable pub encode_rune : ℕ → List ℕ
unfolding within
encode_rune r =
    if ltb r 0x80
    then r ∷ []
    else if ltb r 0x800
    then (0xC0 + r / 64) ∷ (0x80 + r % 64) ∷ []
    else if within 0xD800 0xDFFF r || ltb 0x10FFFF r
    then 0xEF ∷ 0xBF ∷ 0xBD ∷ []
    else if ltb r 0x10000
    then (0xE0 + r / 4096) ∷ (0x80 + r / 64 % 64) ∷ (0x80 + r % 64) ∷ []
    else (0xF0 + r / 262144) ∷ (0x80 + r / 4096 % 64) ∷ (0x80 + r / 64 % 64) ∷ (0x80 + r % 64) ∷ []

unfoldable pub encode : List ℕ → List ℕ
unfolding encode_rune
encode [] = []
encode (r ∷ rs) = encode_rune r ++ encode rs

-- unicode.IsSpace
unfoldable pub is_space : ℕ → Bool
unfolding within
is_space r =
    within 0x09 0x0D r
    || r == 0x20
    || r == 0x85
    || r == 0xA0
    || r == 0x1680
    || within 0x2000 0x200A r
    || r == 0x2028
    || r == 0x2029
    || r == 0x202F
    || r == 0x205F
    || r == 0x3000

-- The text of some chunks.
unfoldable pub unchunk : List (ℕ × List ℕ) → List ℕ
unchunk [] = []
unchunk ((r, b) ∷ cs) = b ++ unchunk cs

drop_space : List (ℕ × List ℕ) → List (ℕ × List ℕ)
unfolding is_space
drop_space [] = []
drop_space (c ∷ cs) = let rest = drop_space cs in if is_space c.0 then rest else c ∷ cs

drop_space_right : List (ℕ × List ℕ) → List (ℕ × List ℕ)
unfolding is_space
drop_space_right [] = []
drop_space_right (c ∷ cs) = elim (drop_space_right cs) [
  | [] ↦ if is_space c.0 then [] else c ∷ []
  | d ∷ ds ↦ c ∷ d ∷ ds
]

-- strings.TrimSpace
unfoldable pub trim_space : List ℕ → List ℕ
unfolding chunks unchunk drop_space drop_space_right
trim_space s = unchunk (drop_space_right (drop_space (chunks s)))

kanji : runes (0xE6 ∷ 0x97 ∷ 0xA5 ∷ 0x41 ∷ 0xFF ∷ []) ≡ 0x65E5 ∷ 0x41 ∷ 0xFFFD ∷ []
unfolding runes
kanji = refl

encoded : encode (0x65E5 ∷ 0x1F4E6 ∷ []) ≡ 0xE6 ∷ 0x97 ∷ 0xA5 ∷ 0xF0 ∷ 0x9F ∷ 0x93 ∷ 0xA6 ∷ []
unfolding encode
encoded = refl

trimmed : trim_space (0x20 ∷ 0xC2 ∷ 0xA0 ∷ 0x61 ∷ 0x20 ∷ 0x62 ∷ 0x0A ∷ []) ≡ 0x61 ∷ 0x20 ∷ 0x62 ∷ []
unfolding trim_space
trimmed = refl
