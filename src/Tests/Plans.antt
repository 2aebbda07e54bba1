-- ===== src/Tests/Plans.antt =====
-- The plan that the small world's rules make of a push.
use image_updater.Prelude.{◌≡◌, refl, ◌⊎◌, Bool, true, false, List, [], ◌∷◌, ◌++◌, insert_by}
use image_updater.Text.{Text, codes}
use image_updater.Model.Errors.{Error, ok, err}
use image_updater.Rule.Types.{ManifestLocation}
use image_updater.Updater.Types.{ManifestTarget, RepositoryPlan, EventPlan}
use image_updater.Updater.Targets.{normalize_manifest_targets}
use image_updater.Updater.Targets.Normal.{
  IsNormal, Contradiction, normalize_manifest_targets-IsNormal,
}
use image_updater.Updater.Plan.{Planner, plan, target_of}
use image_updater.Updater.Plan.Sound.{IsPlan, plan-IsPlan}
use image_updater.Tests.World.{small_std, demo_compiled, pushed_image}

unfoldable pub demo_planner : Planner
unfolding small_std demo_compiled
demo_planner = record { std = small_std; rules = demo_compiled; annotate_from_labels = true }

abbrev pub at : Text → Text → Text → ManifestLocation
at owner repository dir = record {
  repository_url = codes "https://github.com/" ++ (owner ++ (b'/' ∷ repository));
  owner = owner;
  repository = repository;
  dir = dir;
}

abbrev pub target_in : Text → Text → Text → Text → Bool → ManifestTarget
target_in owner repository dir env writes = record {
  location = at owner repository dir;
  env = env;
  writes_image_manifest = writes;
}

abbrev pub infra_targets : List ManifestTarget
infra_targets =
    target_in (codes "acme") (codes "infra") (codes "apps/api/dev") (codes "dev") true
    ∷ target_in (codes "acme") (codes "infra") (codes "apps/api/prod") (codes "prod") false
    ∷ []

abbrev pub infra_plan : RepositoryPlan
infra_plan = record {
  event = pushed_image;
  location = at (codes "acme") (codes "infra") (codes "apps/api/dev");
  targets = infra_targets;
  env = codes "dev,prod";
  branch = codes "image_updater_api_multi_v1.2.3_0123456789abcdef";
}

abbrev pub copy_plan : RepositoryPlan
copy_plan = record {
  event = pushed_image;
  location = at (codes "Acme") (codes "copy") (codes "**");
  targets = target_in (codes "Acme") (codes "copy") (codes "**") (codes "dev") true ∷ [];
  env = codes "dev";
  branch = codes "image_updater_api_dev_v1.2.3_0123456789abcdef";
}

abbrev pub demo_plan : EventPlan
demo_plan = record { event = pushed_image; repositories = copy_plan ∷ infra_plan ∷ [] }

pub planned : plan demo_planner pushed_image ≡ ok demo_plan
unfolding plan demo_planner target_of insert_by
planned = refl

plan-IsPlan_example : IsPlan demo_planner pushed_image demo_plan.repositories
plan-IsPlan_example = plan-IsPlan demo_planner pushed_image planned

normalize_manifest_targets-IsNormal_example :
    ((us : List ManifestTarget) × (normalize_manifest_targets (codes "infra") infra_targets ≡ ok us)
      × IsNormal infra_targets us
      × (¬ Contradiction infra_targets))
    ⊎ ((e : Error) × (normalize_manifest_targets (codes "infra") infra_targets ≡ err e)
        × Contradiction infra_targets)
normalize_manifest_targets-IsNormal_example =
    normalize_manifest_targets-IsNormal (codes "infra") infra_targets
