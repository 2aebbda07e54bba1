-- ===== src/Patch/Document/Replace.antt =====
-- internal/infrastructure/manifest/kustomize/document.go: what `replaceScalar` changes.
pub mod Again
use image_updater.Prelude.{
  ℕ, zero, suc, ◌+◌, ◌-◌, ◌≤◌, ◌<◌, ◌≡◌, ◌≢◌, refl, sym, ap, ◌∙◌, subst, Bool, true, false, not,
  ◌&&◌, ◌||◌, List, [], ◌∷◌, ◌++◌, Option, none, some, ◌==◌, ltb, length, take, drop, get_or, arith,
  inl, inr, Bool-cases, Option-cases, append-take-drop, all, length-take, length-drop,
  length-append, take-append_self, drop-append_self, drop-drop, if◌then◌else◌,
}
use image_updater.Text.{Text, codes, text_eq, text_eq_iff, has_suffix}
use image_updater.Text.Split.{split, join, join-split}
use image_updater.Model.Errors.{plain, wrap, Result, ok, err, ◌>>=◌, Result-cases}
use image_updater.Manifest.Comment.{newline}
use image_updater.Patch.Yaml.{
  Kind, scalar, Style, plain_style, Mark, Node, Nodes, nil, cons, mark, content, YamlLibrary,
}
use image_updater.Patch.Scalar.{
  scalar_token_length, plain_token_length, format_scalar, is_safe_plain_scalar, is_safe_byte,
}
use image_updater.Patch.Scalar.Tokens.{
  plain_token_length-drop, plain_token_length-append, format_scalar-safe, scalar_token_length-le,
}
use image_updater.Patch.Document.{
  Document, is_mapping, is_sequence, is_scalar, trim_newline, opened, find_images, parse_content,
  parse, bytes, set_line, with_scalar, replace_scalar,
}

-- The line that a scalar is on.
abbrev pub line_of : Document → Mark → Text
line_of d m = get_or d.lines (m.line - 1) []

-- The document with a scalar of some length replaced.
abbrev pub put_scalar : YamlLibrary → Document → Mark → Text → ℕ → Document
put_scalar yaml d m v n = record d {
  lines =
      set_line (m.line - 1) (with_scalar (line_of d m) (m.column - 1) n (format_scalar yaml v))
        d.lines;
}

pub length-set_line :
    (i : ℕ) (line : Text) (ls : List Text) → length (set_line i line ls) ≡ length ls
unfolding set_line
length-set_line i line [] = refl
length-set_line zero line (l ∷ ls) = refl
length-set_line (suc i) line (l ∷ ls) = ap suc (length-set_line i line ls)

pub get_or-set_line :
    (i j : ℕ) (line : Text) (ls : List Text)
    → i < length ls
    → get_or (set_line i line ls) j [] ≡ (if j == i then line else get_or ls j [])
unfolding set_line
get_or-set_line i j line [] h = absurd (omega arith)
get_or-set_line zero zero line (l ∷ ls) h = refl
get_or-set_line zero (suc j) line (l ∷ ls) h = ground arith
get_or-set_line (suc i) zero line (l ∷ ls) h = ground arith
get_or-set_line (suc i) (suc j) line (l ∷ ls) h =
    get_or-set_line i j line ls (omega arith) ∙ ground arith

pub set_line-set_line :
    (i : ℕ) (a b : Text) (ls : List Text) → set_line i a (set_line i b ls) ≡ set_line i a ls
unfolding set_line
set_line-set_line i a b [] = refl
set_line-set_line zero a b (l ∷ ls) = refl
set_line-set_line (suc i) a b (l ∷ ls) = ap (λ t. l ∷ t) (set_line-set_line i a b ls)

pub put :
    (yaml : YamlLibrary) (d : Document) (m : Mark) (v : Text) (n : ℕ)
    → (is_scalar m.kind ≡ true)
    → ((m.line == 0 || not (ltb (m.line - 1) (length d.lines))) ≡ false)
    → ((m.column == 0 || ltb (length (line_of d m)) (m.column - 1)) ≡ false)
    → (scalar_token_length (drop (m.column - 1) (line_of d m)) m.style ≡ ok n)
    → replace_scalar yaml d m v ≡ ok (put_scalar yaml d m v n)
unfolding replace_scalar
put yaml d m v n a b c f = rw (a, b, c, f, replace_scalar)

-- What a success is.
pub replaced :
    (yaml : YamlLibrary) (d : Document) (m : Mark) (v : Text) {d' : Document}
    → replace_scalar yaml d m v ≡ ok d'
    → (is_scalar m.kind ≡ true)
      × ((m.line == 0 || not (ltb (m.line - 1) (length d.lines))) ≡ false)
      × ((m.column == 0 || ltb (length (line_of d m)) (m.column - 1)) ≡ false)
      × (n : ℕ) × (scalar_token_length (drop (m.column - 1) (line_of d m)) m.style ≡ ok n)
      × (d' ≡ put_scalar yaml d m v n)
unfolding replace_scalar
replaced yaml d m v h = elim (Bool-cases (is_scalar m.kind)) [
  | inr a ↦ absurd (ground (arith, a, h))
  | inl a ↦ elim (Bool-cases (m.line == 0 || not (ltb (m.line - 1) (length d.lines)))) [
    | inl b ↦ absurd (ground (arith, a, b, h))
    | inr b ↦ elim (Bool-cases (m.column == 0 || ltb (length (line_of d m)) (m.column - 1))) [
      | inl c ↦ absurd (ground (arith, a, b, c, h))
      | inr c ↦
          elim (Result-cases (scalar_token_length (drop (m.column - 1) (line_of d m)) m.style)) [
            | inl (_, f) ↦ absurd (ground (arith, a, b, c, f, h))
            | inr (n, f) ↦ (a, b, c, n, f, same_ok (sym (put yaml d m v n a b c f) ∙ h))
          ]
    ]
  ]
]
  where
    same_ok : {x y : Document} → ◌≡◌ {A = Result Document} (ok x) (ok y) → y ≡ x
    same_ok e = cc e

-- Only the line of the scalar differs: the value takes the place of the scalar's bytes, which are
-- inside the line.
pub OneLine : YamlLibrary → Document → Mark → Text → Document → Type 0
OneLine yaml d m v d' =
    (n : ℕ) × (scalar_token_length (drop (m.column - 1) (line_of d m)) m.style ≡ ok n)
    × (m.column - 1 + n ≤ length (line_of d m))
    × (length d'.lines ≡ length d.lines)
    × ((j : ℕ)
        → get_or d'.lines j [] ≡ (
            if j == m.line - 1
            then take (m.column - 1) (line_of d m)
              ++ (format_scalar yaml v ++ drop (m.column - 1 + n) (line_of d m))
            else get_or d.lines j []))

OneLine-put_scalar :
    (yaml : YamlLibrary) (d : Document) (m : Mark) (v : Text) (n : ℕ)
    → ((m.line == 0 || not (ltb (m.line - 1) (length d.lines))) ≡ false)
    → ((m.column == 0 || ltb (length (line_of d m)) (m.column - 1)) ≡ false)
    → (scalar_token_length (drop (m.column - 1) (line_of d m)) m.style ≡ ok n)
    → OneLine yaml d m v (put_scalar yaml d m v n)
unfolding OneLine with_scalar
OneLine-put_scalar yaml d m v n b c f = (
  n,
  f,
  inside (scalar_token_length-le (drop (m.column - 1) (line_of d m)) m.style f),
  length-set_line (m.line - 1) _ d.lines,
  λ j. get_or-set_line (m.line - 1) j _ d.lines (ground (arith, b)),
)
  where
    inside :
        n ≤ length (drop (m.column - 1) (line_of d m)) → m.column - 1 + n ≤ length (line_of d m)
    inside le = ground (arith, length-drop (m.column - 1) (line_of d m), c, le)

-- A replacement that succeeds changes one line only, on which the value takes the place of the bytes
-- of the scalar, which are inside the line.
pub replace_scalar-frame :
    (yaml : YamlLibrary) (d : Document) (m : Mark) (v : Text) {d' : Document}
    → replace_scalar yaml d m v ≡ ok d'
    → OneLine yaml d m v d'
replace_scalar-frame yaml d m v h =
    let (a, b, c, n, f, same) = replaced yaml d m v h in
    subst (OneLine yaml d m v) (sym same) (OneLine-put_scalar yaml d m v n b c f)
