-- ===== src/Patch/Tags.antt =====
-- internal/infrastructure/manifest/kustomize/patcher.go: `replaceTag`, `repositoryPath`,
-- `isRegistryHost`, `tagIdentifier` and `changedNewTags`.
pub mod Again
pub mod Reference
pub mod Retag
use image_updater.Prelude.{
  ℕ, suc, ◌≡◌, refl, Bool, true, false, not, ◌||◌, List, [], ◌∷◌, if◌then◌else◌,
}
use image_updater.Text.{Text, codes, text_eq, has_byte, contains_any}
use image_updater.Text.Split.{split, join, cut}
use image_updater.Model.Errors.{Result, ok, err, wrap, sentinel, image_not_managed}

-- types.Image, as far as it is read and written
pub record ImageEntry : Type 0 where
  pub name : Text
  pub new_tag : Text

-- isRegistryHost
unfoldable pub is_registry_host : Text → Bool
unfolding contains_any text_eq
is_registry_host segment = contains_any (codes ".:") segment || text_eq segment (codes "localhost")

-- The text before the first such byte.
unfoldable pub before : ℕ → Text → Text
unfolding cut
before separator s = let (head, _, _) = cut separator s in head

-- The segments without a registry host in front, if there are others.
unfoldable pub drop_host : List Text → List Text
unfolding is_registry_host
drop_host [] = []
drop_host (only ∷ []) = only ∷ []
drop_host (host ∷ s ∷ segments) =
    if is_registry_host host then s ∷ segments else host ∷ s ∷ segments

-- The segments, the last one without its tag.
unfoldable pub drop_tag : List Text → List Text
unfolding before
drop_tag [] = []
drop_tag (last ∷ []) = before b':' last ∷ []
drop_tag (s ∷ t ∷ segments) = s ∷ drop_tag (t ∷ segments)

-- repositoryPath
unfoldable pub repository_path : Text → Text
unfolding before split join drop_host drop_tag
repository_path image = join (codes "/") (drop_tag (drop_host (split b'/' (before b'@' image))))

-- tagIdentifier
unfoldable pub tag_identifier : Text → Text
unfolding before
tag_identifier tag = before b'.' tag

-- strings.Contains(tag, tagPieceSeparator)
unfoldable pub has_identifier : Text → Bool
unfolding has_byte
has_identifier tag = has_byte b'.' tag

-- What the loop of `replaceTag` makes of an entry, and whether the entry counts as found.
unfoldable pub replace_entry : Text → Text → ImageEntry → ImageEntry × Bool
unfolding repository_path tag_identifier has_identifier text_eq
replace_entry image new_tag entry =
    if not (text_eq (repository_path entry.name) (repository_path image))
    then (entry, false)
    else if has_identifier new_tag
    then if text_eq (tag_identifier entry.new_tag) (tag_identifier new_tag)
      then (record entry { new_tag = new_tag }, true)
      else (entry, false)
    else if text_eq entry.new_tag new_tag
    then (entry, true)
    else if not (has_identifier entry.new_tag)
    then (record entry { new_tag = new_tag }, true)
    else (entry, true)

-- The loop of `replaceTag`: the updated entries, and whether one was found.
unfoldable pub replace_entries : Text → Text → List ImageEntry → List ImageEntry × Bool
unfolding replace_entry
replace_entries image new_tag [] = ([], false)
replace_entries image new_tag (entry ∷ entries) =
    let (updated, found) = replace_entry image new_tag entry in
    let (rest, rest_found) = replace_entries image new_tag entries in
    (updated ∷ rest, found || rest_found)

-- replaceTag
unfoldable pub replace_tag : List ImageEntry → Text → Text → Result (List ImageEntry)
unfolding replace_entries
replace_tag images image new_tag =
    let (updated, found) = replace_entries image new_tag images in
    if found then ok updated else err (wrap (image ∷ []) (sentinel image_not_managed))

-- The loop of `changedNewTags` from an index on: the indexes with their new tags.
changed_from : ℕ → List ImageEntry → List ImageEntry → List (ℕ × Text)
unfolding text_eq
changed_from i original [] = []
changed_from i [] (u ∷ updated) = []
changed_from i (o ∷ original) (u ∷ updated) =
    let rest = changed_from (suc i) original updated in
    if text_eq o.new_tag u.new_tag then rest else (i, u.new_tag) ∷ rest

-- changedNewTags
unfoldable pub changed_new_tags : List ImageEntry → List ImageEntry → List (ℕ × Text)
unfolding changed_from
changed_new_tags original updated = changed_from 0 original updated

without_host : repository_path (codes "ghcr.io/acme/api:v1@sha256:0") ≡ codes "acme/api"
unfolding repository_path
without_host = refl
