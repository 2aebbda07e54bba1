-- ===== src/Patch/Document/Replace/Again.antt =====
-- internal/infrastructure/manifest/kustomize/document.go: `replaceScalar` run twice on one scalar.
use image_updater.Prelude.{
  ℕ, ◌+◌, ◌-◌, ◌≤◌, ◌≡◌, sym, ap, ◌∙◌, subst, true, false, not, ◌||◌, ◌++◌, ◌==◌, ltb, length, take,
  drop, arith, all, length-take, length-append, take-append_self, drop-append_self, drop-drop,
}
use image_updater.Text.{Text}
use image_updater.Model.Errors.{Result, ok}
use image_updater.Patch.Yaml.{plain_style, Mark, YamlLibrary}
use image_updater.Patch.Scalar.{
  scalar_token_length, plain_token_length, format_scalar, is_safe_plain_scalar, is_safe_byte,
}
use image_updater.Patch.Scalar.Tokens.{
  plain_token_length-drop, plain_token_length-append, format_scalar-safe,
}
use image_updater.Patch.Document.{Document, is_scalar, set_line, with_scalar, replace_scalar}
use image_updater.Patch.Document.Replace.{
  line_of, put_scalar, length-set_line, get_or-set_line, set_line-set_line, put, replaced,
}

-- The line with a safe value in place of a plain scalar, cut again where the value stands.
module _ (line v : Text) (start : ℕ) (inside : start ≤ length line)
    (safe : all is_safe_byte v ≡ true) where
  abbrev size : ℕ
  size = plain_token_length (drop start line)

  abbrev edited : Text
  edited = take start line ++ (v ++ drop (start + size) line)

  edited_front : take start edited ≡ take start line
  edited_front =
      ap (λ k. take k edited) (sym (length-take start line inside))
      ∙ take-append_self (take start line) (v ++ drop (start + size) line)

  edited_behind : drop start edited ≡ v ++ drop (start + size) line
  edited_behind =
      ap (λ k. drop k edited) (sym (length-take start line inside))
      ∙ drop-append_self (take start line) (v ++ drop (start + size) line)

  edited_size : plain_token_length (drop start edited) ≡ length v
  edited_size =
      ap plain_token_length edited_behind
      ∙ plain_token_length-append v (drop (start + size) line) safe (
          ap plain_token_length (sym (drop-drop size start line))
          ∙ plain_token_length-drop (drop start line))

  edited_rest : drop (start + length v) edited ≡ drop (start + size) line
  edited_rest =
      sym (drop-drop (length v) start edited)
      ∙ ap (drop (length v)) edited_behind
      ∙ drop-append_self v (drop (start + size) line)

  with_scalar-edited :
      (w : Text) → with_scalar edited start (length v) w ≡ with_scalar line start size w
  unfolding with_scalar
  with_scalar-edited w = rw (edited_front, edited_rest)

  edited_fits : start ≤ length edited
  edited_fits = omega (
    arith,
    length-append (take start line) (v ++ drop (start + size) line),
    length-take start line inside,
  )

module _ (yaml : YamlLibrary) (d : Document) (m : Mark) (v w : Text)
    (safe : all is_safe_byte v ≡ true) (style : m.style ≡ plain_style) (a : is_scalar m.kind ≡ true)
    (b : (m.line == 0 || not (ltb (m.line - 1) (length d.lines))) ≡ false)
    (c : (m.column == 0 || ltb (length (line_of d m)) (m.column - 1)) ≡ false) where
  abbrev old_size : ℕ
  old_size = plain_token_length (drop (m.column - 1) (line_of d m))

  abbrev new_line : Text
  new_line =
      take (m.column - 1) (line_of d m) ++ (v ++ drop (m.column - 1 + old_size) (line_of d m))

  abbrev with_line : Document
  with_line = record d { lines = set_line (m.line - 1) new_line d.lines }

  fits : m.column - 1 ≤ length (line_of d m)
  fits = ground (arith, c)

  line_now : line_of with_line m ≡ new_line
  line_now =
      get_or-set_line (m.line - 1) (m.line - 1) new_line d.lines (ground (arith, b)) ∙ ground arith

  token_now :
      scalar_token_length (drop (m.column - 1) (line_of with_line m)) m.style ≡ ok (length v)
  unfolding scalar_token_length
  token_now =
      ap (λ l. scalar_token_length (drop (m.column - 1) l) m.style) line_now
      ∙ ap (scalar_token_length (drop (m.column - 1) new_line)) style
      ∙ ap ok (edited_size (line_of d m) v (m.column - 1) fits safe)

  put_now : put_scalar yaml with_line m w (length v) ≡ put_scalar yaml d m w old_size
  put_now =
      ap (λ ls. record d { lines = ls })
        (ap
            (λ l.
              set_line (m.line - 1) (with_scalar l (m.column - 1) (length v) (format_scalar yaml w))
                with_line.lines)
            line_now
          ∙ ap (λ l. set_line (m.line - 1) l with_line.lines)
              (with_scalar-edited (line_of d m) v (m.column - 1) fits safe (format_scalar yaml w))
          ∙ set_line-set_line (m.line - 1) _ new_line d.lines)

  replace_now : replace_scalar yaml with_line m w ≡ replace_scalar yaml d m w
  unfolding scalar_token_length
  replace_now =
      put yaml with_line m w (length v) a
        (ground (arith, b, length-set_line (m.line - 1) new_line d.lines))
        (ground
          (arith, c, ap length line_now, edited_fits (line_of d m) v (m.column - 1) fits safe))
        token_now
      ∙ ap ok put_now
      ∙ sym (
          put yaml d m w old_size a b c
            (ap (scalar_token_length (drop (m.column - 1) (line_of d m))) style))

-- The last of two replacements of a plain scalar counts, if the first wrote a value that needs no
-- quotes.
pub replace_scalar-replace_scalar :
    (yaml : YamlLibrary) (d : Document) (m : Mark) (v w : Text) {d' : Document}
    → m.style ≡ plain_style
    → is_safe_plain_scalar yaml v ≡ true
    → replace_scalar yaml d m v ≡ ok d'
    → replace_scalar yaml d' m w ≡ replace_scalar yaml d m w
unfolding scalar_token_length with_scalar
replace_scalar-replace_scalar yaml d m v w {d'} style safe h =
    let (a, b, c, n, f, same) = replaced yaml d m v h in
    let (as_is, bytes_safe) = format_scalar-safe yaml v safe in
    let f' : ok (plain_token_length (drop (m.column - 1) (line_of d m))) ≡ ok n =
      ap (scalar_token_length (drop (m.column - 1) (line_of d m))) (sym style) ∙ f in
    let is_now : d' ≡ with_line yaml d m v w bytes_safe style a b c =
      same
      ∙ ap
          (λ t. record d {
            lines = set_line (m.line - 1) (with_scalar (line_of d m) (m.column - 1) n t) d.lines;
          })
          as_is
      ∙ ap
          (λ k. record d {
            lines = set_line (m.line - 1) (with_scalar (line_of d m) (m.column - 1) k v) d.lines;
          })
          (size_is f') in
    subst (λ d'. replace_scalar yaml d' m w ≡ replace_scalar yaml d m w) (sym is_now)
      (replace_now yaml d m v w bytes_safe style a b c)
  where
    size_is : {x y : ℕ} → ◌≡◌ {A = Result ℕ} (ok x) (ok y) → y ≡ x
    size_is e = cc e
