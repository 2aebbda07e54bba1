-- ===== src/Patch/Tags/Retag.antt =====
-- internal/infrastructure/manifest/kustomize/patcher.go: `replaceTag` on entries in parts.
use image_updater.Prelude.{
  ◌≡◌, refl, ap, Bool, true, false, not, ◌&&◌, ◌||◌, List, [], ◌∷◌, ◌++◌, All, map, any, arith,
  if◌then◌else◌, ℕ,
}
use image_updater.Text.{Text, has_byte, text_eq, text_eq_iff}
use image_updater.Text.Split.{Lacks}
use image_updater.Model.Errors.{ok, err, wrap, sentinel, image_not_managed}
use image_updater.Patch.Tags.{
  ImageEntry, tag_identifier, has_identifier, replace_entry, replace_entries, replace_tag,
}
use image_updater.Patch.Tags.Reference.{
  Reference, written, path, IsReference, repository_path-written, before-append, before-Lacks,
}

-- A tag, with the identifier in front of its first dot if it has one.
pub data Tag : Type 0 where
  plain : Text → Tag
  dotted : Text → Text → Tag

abbrev pub spelled : Tag → Text
spelled (plain t) = t
spelled (dotted identifier rest) = identifier ++ b'.' ∷ rest

abbrev pub IsTag : Tag → Type 0
IsTag (plain t) = Lacks b'.' t
IsTag (dotted identifier rest) = Lacks b'.' identifier

abbrev pub is_dotted : Tag → Bool
is_dotted (plain t) = false
is_dotted (dotted identifier rest) = true

-- The identifier, or the whole tag if it has none.
abbrev pub head : Tag → Text
head (plain t) = t
head (dotted identifier rest) = identifier

pub record Entry : Type 0 where
  pub image : Reference
  pub tag : Tag

pub record IsEntry (e : Entry) : Type 0 where
  pub image : IsReference e.image
  pub tag : IsTag e.tag

pub entry : Entry → ImageEntry
entry e = record { name = written e.image; new_tag = spelled e.tag }

has-Lacks : (c : ℕ) (s : Text) → Lacks c s → has_byte c s ≡ false
unfolding has_byte
has-Lacks c [] h = refl
has-Lacks c (x ∷ s) (n, h) = ground (arith, has-Lacks c s h)

has-append : (c : ℕ) (a b : Text) → has_byte c (a ++ c ∷ b) ≡ true
unfolding has_byte
has-append c [] b = ground arith
has-append c (x ∷ a) b = ground (arith, has-append c a b)

has_identifier-spelled : (t : Tag) → IsTag t → has_identifier (spelled t) ≡ is_dotted t
unfolding has_identifier
has_identifier-spelled (plain t) h = has-Lacks b'.' t h
has_identifier-spelled (dotted i rest) h = has-append b'.' i rest

tag_identifier-spelled : (t : Tag) → IsTag t → tag_identifier (spelled t) ≡ head t
unfolding tag_identifier
tag_identifier-spelled (plain t) h = before-Lacks b'.' t h
tag_identifier-spelled (dotted i rest) h = before-append b'.' i rest h

-- What becomes of the entries of a file.
module _ (r : Reference) (t : Tag) where
  -- An entry of the image's repository, and of its identifier if the new tag has one.
  pub belongs : Entry → Bool
  belongs e =
      text_eq (path e.image) (path r) && (not (is_dotted t) || text_eq (head e.tag) (head t))

  -- The entry with the new tag, if it belongs to the image and has no identifier that the new tag lacks.
  pub retag : Entry → ImageEntry
  unfolding belongs entry
  retag e =
      if belongs e && (is_dotted t || not (is_dotted e.tag))
      then record (entry e) { new_tag = spelled t }
      else entry e

  replace_entry-entry :
      (e : Entry)
      → IsReference r
      → IsTag t
      → IsEntry e
      → replace_entry (written r) (spelled t) (entry e) ≡ (retag e, belongs e)
  unfolding replace_entry retag belongs entry
  replace_entry-entry e i k f = ground (
    arith,
    same,
    repository_path-written r i,
    repository_path-written e.image f.image,
    has_identifier-spelled t k,
    has_identifier-spelled e.tag f.tag,
    tag_identifier-spelled t k,
    tag_identifier-spelled e.tag f.tag,
  )
    where
      same :
          text_eq (spelled e.tag) (spelled t) ≡ true
          → entry e ≡ record (entry e) { new_tag = spelled t }
      same h =
          ap (λ s. record (entry e) { new_tag = s }) ((text_eq_iff (spelled e.tag) (spelled t)).0 h)

  replace_entries-entry :
      (es : List Entry)
      → IsReference r
      → IsTag t
      → All IsEntry es
      → replace_entries (written r) (spelled t) (map entry es) ≡ (map retag es, any belongs es)
  unfolding replace_entries
  replace_entries-entry [] i k h = refl
  replace_entries-entry (e ∷ es) i k (f, h) =
      rw (replace_entry-entry e i k f, replace_entries-entry es i k h)

-- `replaceTag` on entries and an image that are references, each with or without a registry, a tag and
-- a digest: an entry belongs to the image if it names the same repository, whatever the registries, and
-- if its tag has the identifier of the new tag where that has one. The new tag goes to those that
-- belong, but for those with an identifier where the new tag has none; names, order and all other
-- entries stay. It fails, with ErrImageNotManaged, exactly where no entry belongs.
pub replace_tag-entries :
    (es : List Entry) (r : Reference) (t : Tag)
    → All IsEntry es
    → IsReference r
    → IsTag t
    → replace_tag (map entry es) (written r) (spelled t) ≡ (
        if any (belongs r t) es
        then ok (map (retag r t) es)
        else err (wrap (written r ∷ []) (sentinel image_not_managed)))
unfolding replace_tag
replace_tag-entries es r t h i k = rw (replace_entries-entry r t es i k h)
