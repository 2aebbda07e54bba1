-- ===== src/Text.antt =====
-- Go strings as lists of bytes, with the functions of `strings` and `unicode/utf8` that the program
-- calls. A separator is a single byte wherever the program's is one.
pub mod Utf8
pub mod Split
pub mod Order
use image_updater.Prelude.{
  ℕ, zero, suc, ◌+◌, ◌-◌, Bool, true, false, ◌&&◌, ◌||◌, List, [], ◌∷◌, ◌++◌, ◌≡◌, ◌↔◌, refl, arith,
  ◌==◌, ltb, if◌then◌else◌, length, any, drop,
}
use Prim.Native.Char.{code}
use Prim.Native.String.{String}

abbrev pub Text : Type 0
Text = List ℕ

-- The bytes of an ASCII literal.
abbrev pub codes : String → Text
codes String.[] = []
codes (String.◌∷◌ c s) = code c ∷ codes s

-- s == t
unfoldable pub text_eq : Text → Text → Bool
text_eq [] [] = true
text_eq (a ∷ s) (b ∷ t) = (a == b) && text_eq s t
text_eq _ _ = false

pub text_eq_iff : (s t : Text) → (text_eq s t ≡ true) ↔ (s ≡ t)
unfolding text_eq
text_eq_iff [] [] = (λ _. refl, λ _. refl)
text_eq_iff [] (b ∷ t) = (λ h. cc, λ h. cc)
text_eq_iff (a ∷ s) [] = (λ h. cc, λ h. cc)
text_eq_iff (a ∷ s) (b ∷ t) = ground (arith, text_eq_iff s t)

pub text_eq_refl : (s : Text) → text_eq s s ≡ true
text_eq_refl s = (text_eq_iff s s).1 refl

-- s == ""
unfoldable pub is_empty : Text → Bool
is_empty [] = true
is_empty (c ∷ s) = false

-- strings.Contains(s, b) for one byte b
unfoldable pub has_byte : ℕ → Text → Bool
has_byte b s = any (λ c. c == b) s

-- strings.ContainsAny(s, set) for ASCII bytes
unfoldable pub contains_any : Text → Text → Bool
unfolding has_byte
contains_any set s = any (λ c. has_byte c set) s

-- strings.HasPrefix(s, prefix)
unfoldable pub has_prefix : Text → Text → Bool
has_prefix [] s = true
has_prefix (p ∷ ps) [] = false
has_prefix (p ∷ ps) (c ∷ s) = (c == p) && has_prefix ps s

-- strings.HasSuffix(s, suffix)
unfoldable pub has_suffix : Text → Text → Bool
unfolding text_eq
has_suffix suffix s =
    if ltb (length s) (length suffix)
    then false
    else text_eq (drop (length s - length suffix) s) suffix

-- strings.Contains(s, part)
unfoldable pub contains : Text → Text → Bool
unfolding has_prefix
contains part [] = has_prefix part []
contains part (c ∷ s) = has_prefix part (c ∷ s) || contains part s

-- strings.CutPrefix(s, prefix); `found` is the second component.
unfoldable pub cut_prefix : Text → Text → Text × Bool
unfolding has_prefix
cut_prefix prefix s = if has_prefix prefix s then (drop (length prefix) s, true) else (s, false)

-- strings.ReplaceAll(s, old, new) for an `old` that is not empty: the first argument counts the
-- bytes of the last match that are still to be passed over.
replace_from : ℕ → Text → Text → Text → Text
unfolding has_prefix
replace_from k old new [] = []
replace_from zero old new (c ∷ s) =
    let matched = new ++ replace_from (length old - 1) old new s in
    let copied = c ∷ replace_from zero old new s in
    if has_prefix old (c ∷ s) then matched else copied
replace_from (suc k) old new (c ∷ s) = replace_from k old new s

unfoldable pub replace_all : Text → Text → Text → Text
unfolding replace_from
replace_all s old new = replace_from zero old new s

-- strings.TrimLeft and strings.Trim for bytes that satisfy a test.
unfoldable pub trim_left : (ℕ → Bool) → Text → Text
trim_left p [] = []
trim_left p (c ∷ s) = let rest = trim_left p s in if p c then rest else c ∷ s

-- The text without its longest suffix of bytes that satisfy the test.
unfoldable pub trim_right : (ℕ → Bool) → Text → Text
unfolding is_empty
trim_right p [] = []
trim_right p (c ∷ s) = let rest = trim_right p s in if is_empty rest && p c then [] else c ∷ rest

unfoldable pub trim : (ℕ → Bool) → Text → Text
unfolding trim_left trim_right
trim p s = trim_right p (trim_left p s)

hello : replace_all (codes "a$1/b$1$2") (codes "$1") (codes "xy") ≡ codes "axy/bxy$2"
unfolding replace_all
hello = refl

trims : trim (λ c. c == b'/') (codes "//a/b/") ≡ codes "a/b"
unfolding trim
trims = refl

suffixes : has_suffix (codes ".lock") (codes "a.lock") ≡ true
unfolding has_suffix
suffixes = refl
