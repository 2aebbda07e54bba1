-- ===== src/Model/Image.antt =====
-- internal/model/image.go and event.go: what was pushed, and where. The time of an
-- event is left out; `Kind` and `Digest` are carried for the choice of a registry client and logs.
use image_updater.Prelude.{◌∷◌, ◌++◌, if◌then◌else◌}
use image_updater.Text.{Text, is_empty}

pub record ImageReference : Type 0 where
  pub kind : Text
  pub host : Text
  pub repository : Text
  pub tag : Text

-- ImageReference.Name
unfoldable pub name : ImageReference → Text
unfolding is_empty
name r = if is_empty r.host then r.repository else r.host ++ b'/' ∷ r.repository

-- ImageReference.String
unfoldable pub to_text : ImageReference → Text
unfolding is_empty name
to_text r = if is_empty r.tag then name r else name r ++ b':' ∷ r.tag

pub record ImagePushEvent : Type 0 where
  pub kind : Text
  pub host : Text
  pub repository : Text
  pub tag : Text
  pub digest : Text

-- ImagePushEvent.Reference
unfoldable pub reference : ImagePushEvent → ImageReference
reference e = record { kind = e.kind; host = e.host; repository = e.repository; tag = e.tag }
