-- ===== src/Updater/Types.antt =====
-- internal/application/updater/service.go: `eventPlan`, `repositoryPlan`, `manifestTarget`.
use image_updater.Prelude.{Bool, List}
use image_updater.Text.{Text}
use image_updater.Model.Image.{ImagePushEvent}
use image_updater.Rule.Types.{ManifestLocation}

-- manifestTarget
pub record ManifestTarget : Type 0 where
  pub location : ManifestLocation
  pub env : Text
  pub writes_image_manifest : Bool

-- repositoryPlan
pub record RepositoryPlan : Type 0 where
  pub event : ImagePushEvent
  pub location : ManifestLocation
  pub targets : List ManifestTarget
  pub env : Text
  pub branch : Text

-- eventPlan
pub record EventPlan : Type 0 where
  pub event : ImagePushEvent
  pub repositories : List RepositoryPlan
