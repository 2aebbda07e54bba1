-- ===== src/Patch/Document/Lines.antt =====
-- internal/infrastructure/manifest/kustomize/document.go: what `parse` and `bytes` give back.
use image_updater.Prelude.{
  ◌-◌, ◌<◌, ◌≡◌, sym, ap, ◌∙◌, subst, true, [], ◌∷◌, ◌++◌, ◌==◌, ltb, length, take, drop, arith,
  inl, inr, Bool-cases, Option-cases, append-take-drop,
}
use image_updater.Text.{Text, codes, text_eq, text_eq_iff, has_suffix}
use image_updater.Text.Split.{join-split}
use image_updater.Model.Errors.{ok, Result-cases}
use image_updater.Manifest.Comment.{newline}
use image_updater.Patch.Yaml.{Nodes, nil, cons, mark, content, YamlLibrary}
use image_updater.Patch.Document.{
  Document, is_mapping, is_sequence, trim_newline, opened, find_images, parse_content, parse, bytes,
}

last_newline :
    (text : Text)
    → has_suffix (newline ∷ []) text ≡ true
    → take (length text - 1) text ++ newline ∷ [] ≡ text
unfolding has_suffix
last_newline text h = elim (Bool-cases (ltb (length text) 1)) [
  | inl e ↦ absurd (ground (arith, e, h))
  | inr e ↦
      ap (λ t. take (length text - 1) text ++ t)
        (sym ((text_eq_iff (drop (length text - 1) text) (newline ∷ [])).0 (ground (arith, e, h))))
      ∙ append-take-drop (length text - 1) text
]

-- The text of a document that nothing was done to.
bytes-opened : (text : Text) → bytes (opened text) ≡ text
unfolding bytes opened trim_newline
bytes-opened text = elim (Bool-cases (has_suffix (newline ∷ []) text)) [
  | inl e ↦ rw e (
      ap (λ t. t ++ newline ∷ []) (join-split newline (take (length text - 1) text))
      ∙ last_newline text e)
  | inr e ↦ rw e (join-split newline text)
]

-- The lines and the trailing newline are those of the text.
Keeps : Document → Document → Type 0
Keeps d e = (e.lines ≡ d.lines) × (e.has_trailing_newline ≡ d.has_trailing_newline)

find_images-Keeps :
    (yaml : YamlLibrary) (ns : Nodes) (d : Document) {e : Document}
    → find_images yaml ns d ≡ ok e
    → Keeps d e
unfolding find_images Keeps
find_images-Keeps yaml nil d h = ground (arith, h)
find_images-Keeps yaml (cons key nil) d h = ground (arith, h)
find_images-Keeps yaml (cons key (cons value rest)) d h =
    elim (Bool-cases (text_eq (mark key).value (codes "images"))) [
      | inr e ↦ find_images-Keeps yaml rest d (rw (e, find_images) at h)
      | inl e ↦ elim (Bool-cases (is_sequence (mark value).kind)) [
        | inr k ↦ absurd (ground (arith, e, k, h))
        | inl k ↦ elim (Option-cases (yaml.decode_images value)) [
          | inl f ↦ absurd (ground (arith, e, k, f, h))
          | inr (images, f) ↦ ground (arith, e, k, f, h)
        ]
      ]
    ]

bytes-Keeps : (d e : Document) → Keeps d e → bytes e ≡ bytes d
unfolding bytes Keeps
bytes-Keeps d e (lines, newline_kept) = rw (lines, newline_kept)

parse_content-Keeps :
    (yaml : YamlLibrary) (text : Text) (ns : Nodes) {d : Document}
    → parse_content yaml text ns ≡ ok d
    → Keeps (opened text) d × (0 < d.images_key_line)
unfolding parse_content
parse_content-Keeps yaml text nil h = absurd (cc h)
parse_content-Keeps yaml text (cons root rest) {d} h =
    elim (Bool-cases (is_mapping (mark root).kind)) [
      | inr e ↦ absurd (ground (arith, e, h))
      | inl e ↦ elim (Result-cases (find_images yaml (content root) (opened text))) [
        | inl (_, f) ↦ absurd (ground (arith, e, f, h))
        | inr (doc, f) ↦ elim (Bool-cases (doc.images_key_line == 0)) [
          | inl k ↦ absurd (ground (arith, e, f, k, h))
          | inr k ↦
              let same : doc ≡ d = ground (arith, e, f, k, h) in
              subst (λ d. Keeps (opened text) d × (0 < d.images_key_line)) same
                (find_images-Keeps yaml (content root) (opened text) f, ground (arith, k))
        ]
      ]
    ]

-- A document that is parsed and written is the text it was parsed from, and its images key has a line.
pub bytes-parse :
    (yaml : YamlLibrary) (text : Text) {d : Document}
    → parse yaml text ≡ ok d
    → (bytes d ≡ text) × (0 < d.images_key_line)
unfolding parse
bytes-parse yaml text {d} h = elim (Option-cases (yaml.unmarshal text)) [
  | inl e ↦ absurd (ground (arith, e, h))
  | inr (root, e) ↦
      let (kept, line) = parse_content-Keeps yaml text (content root) (ground (arith, e, h)) in
      (bytes-Keeps (opened text) d kept ∙ bytes-opened text, line)
]
