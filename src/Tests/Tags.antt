-- ===== src/Tests/Tags.antt =====
-- The entries of a kustomization file, in parts.
use image_updater.Prelude.{
  ℕ, ◌≡◌, refl, false, none, some, List, [], ◌∷◌, All, map, any, inl, inr, arith, if◌then◌else◌,
}
use image_updater.Text.{Text, codes, has_byte}
use image_updater.Text.Split.{Lacks}
use image_updater.Model.Errors.{ok, err, wrap, sentinel, image_not_managed}
use image_updater.Patch.Tags.{replace_tag}
use image_updater.Patch.Tags.Reference.{Reference, written, IsHost, IsPart, IsReference}
use image_updater.Patch.Tags.Retag.{
  Tag, IsTag, dotted, spelled, Entry, IsEntry, entry, belongs, retag, replace_tag-entries,
}

-- ghcr.io/acme/api:v1@sha256:0
abbrev hosted_image : Reference
hosted_image = record {
  registry = some (codes "ghcr.io");
  front = codes "acme" ∷ [];
  last = codes "api";
  tag = some (codes "v1");
  digest = some (codes "sha256:0");
}

-- acme/api
abbrev bare_image : Reference
bare_image = record {
  registry = none;
  front = codes "acme" ∷ [];
  last = codes "api";
  tag = none;
  digest = none;
}

abbrev entries : List Entry
entries = record { image = hosted_image; tag = dotted (codes "dev") (codes "1") } ∷ []

abbrev next_tag : Tag
next_tag = dotted (codes "dev") (codes "2")

host : IsHost (codes "ghcr.io")
unfolding IsHost has_byte
host = inl refl

no_host : ¬ IsHost (codes "acme")
unfolding IsHost has_byte
no_host h = elim h [ inl e ↦ cc | inr i ↦ elim i [ inl e ↦ cc | inr e ↦ cc ] ]

lacks : (c : ℕ) (s : Text) → has_byte c s ≡ false → Lacks c s
unfolding has_byte
lacks c [] h = tt
lacks c (x ∷ s) h = (ground (arith, h), lacks c s (ground (arith, h)))

part : (s : Text) → has_byte b'/' s ≡ false → has_byte b'@' s ≡ false → IsPart s
part s h k = (lacks b'/' s h, lacks b'@' s k)

hosted_IsReference : IsReference hosted_image
unfolding has_byte
hosted_IsReference = record {
  starts = (host, part (codes "ghcr.io") refl refl);
  front = (part (codes "acme") refl refl, tt);
  last = part (codes "api") refl refl;
  no_port = lacks b':' (codes "api") refl;
  tag = part (codes "v1") refl refl;
}

bare_IsReference : IsReference bare_image
unfolding has_byte
bare_IsReference = record {
  starts = no_host;
  front = (part (codes "acme") refl refl, tt);
  last = part (codes "api") refl refl;
  no_port = lacks b':' (codes "api") refl;
  tag = tt;
}

next_tag-IsTag : IsTag next_tag
unfolding has_byte
next_tag-IsTag = lacks b'.' (codes "dev") refl

all_IsEntry : All IsEntry entries
all_IsEntry = (record { image = hosted_IsReference; tag = next_tag-IsTag }, tt)

replace_tag-entries_example :
    replace_tag (map entry entries) (written bare_image) (spelled next_tag) ≡ (
      if any (belongs bare_image next_tag) entries
      then ok (map (retag bare_image next_tag) entries)
      else err (wrap (written bare_image ∷ []) (sentinel image_not_managed)))
replace_tag-entries_example =
    replace_tag-entries entries bare_image next_tag all_IsEntry bare_IsReference next_tag-IsTag
