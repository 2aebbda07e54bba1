-- ===== src/Updater/Plan.antt =====
-- internal/application/updater/service.go: `Service.plan`.
pub mod Group
pub mod Collect
pub mod Complete
pub mod Sound
use image_updater.Prelude.{
  Bool, true, false, ◌&&◌, List, [], ◌∷◌, ◌++◌, Option, none, some, if◌then◌else◌, sort_by, ltb,
  length,
}
use image_updater.Text.{Text, codes, text_eq}
use image_updater.Text.Order.{text_lt}
use image_updater.Text.Split.{join}
use image_updater.Std.{Std}
use image_updater.Model.Errors.{Error, Result, ok, err, ◌>>=◌}
use image_updater.Model.Image.{ImagePushEvent}
use image_updater.Rule.Types.{CompiledRule, ManifestLocation}
use image_updater.Rule.Tag.{validate_tag}
use image_updater.Rule.Select.{MatchedRule, matches}
use image_updater.Rule.Location.{location}
use image_updater.Updater.Types.{ManifestTarget, RepositoryPlan, EventPlan}
use image_updater.Updater.Branch.{manifest_repository_key, repository_branch_name, validate_branch}
use image_updater.Updater.Targets.{normalize_manifest_targets, environments}

-- MatchedRule.WritesImageManifest
unfoldable pub writes_image_manifest : MatchedRule → Bool
writes_image_manifest m = elim m.compiled.rule.write_image_manifest [ none ↦ true | some b ↦ b ]

-- What a service reads of its configuration while it plans.
pub record Planner : Type 0 where
  pub std : Std
  pub rules : List CompiledRule
  pub annotate_from_labels : Bool

-- The target of a matched rule.
unfoldable pub target_of : Planner → MatchedRule → ManifestLocation → ManifestTarget
unfolding writes_image_manifest
target_of s m l = record {
  location = l;
  env = m.compiled.rule.env;
  writes_image_manifest = s.annotate_from_labels && writes_image_manifest m;
}

-- Adds a target to the plan of its repository. The map from keys to indexes is a search for the
-- plan that was made for the key.
pub add_target : Std → ImagePushEvent → ManifestTarget → List RepositoryPlan → List RepositoryPlan
unfolding manifest_repository_key text_eq
add_target std event t [] =
    record { event = event; location = t.location; targets = t ∷ []; env = []; branch = [] } ∷ []
add_target std event t (p ∷ ps) =
    let rest = add_target std event t ps in
    if text_eq (manifest_repository_key std p.location) (manifest_repository_key std t.location)
    then record p { targets = p.targets ++ t ∷ [] } ∷ ps
    else p ∷ rest

-- The first of two errors.
pub or_first : Option Error → Error → Option Error
or_first none e = some e
or_first (some d) e = some d

-- The loop over the matched rules: the plans so far and the first error about a tag.
pub collect :
    Planner
    → ImagePushEvent
    → List MatchedRule
    → List RepositoryPlan
    → Option Error
    → Result (List RepositoryPlan × Option Error)
unfolding validate_tag location add_target or_first
collect s event [] plans tag_error = ok (plans, tag_error)
collect s event (m ∷ ms) plans tag_error = elim (validate_tag m.compiled m.event.tag) [
  | err e ↦ collect s event ms plans (or_first tag_error e)
  | ok _ ↦ elim (location s.std m) [
    | err e ↦ err e
    | ok l ↦ collect s event ms (add_target s.std event (target_of s m l) plans) tag_error
  ]
]

-- The order of the repositories.
pub key_lt : Std → RepositoryPlan → RepositoryPlan → Bool
unfolding text_lt manifest_repository_key
key_lt std p q =
    text_lt (manifest_repository_key std p.location) (manifest_repository_key std q.location)

-- The environment in the name of a branch.
branch_env : List Text → Text
unfolding join
branch_env envs = if ltb 1 (length envs) then codes "multi" else join (codes ",") envs

-- A repository with its normalised targets.
abbrev pub with_targets : RepositoryPlan → List ManifestTarget → RepositoryPlan
with_targets p targets = record p {
  targets = targets;
  env = join (codes ",") (environments targets);
}

pub branch_for : Std → ImagePushEvent → RepositoryPlan → List ManifestTarget → Text
unfolding repository_branch_name branch_env environments
branch_for std event p targets =
    repository_branch_name std event (branch_env (environments targets)) (with_targets p targets)

pub name_branch :
    Std → ImagePushEvent → RepositoryPlan → List ManifestTarget → Result RepositoryPlan
unfolding branch_for validate_branch
name_branch std event p targets = do
  _ ← validate_branch (branch_for std event p targets)
  ok (record (with_targets p targets) { branch = branch_for std event p targets })

-- The second loop, on one repository.
pub complete : Std → ImagePushEvent → RepositoryPlan → Result RepositoryPlan
unfolding normalize_manifest_targets name_branch
complete std event p = do
  targets ← normalize_manifest_targets p.location.repository_url p.targets
  name_branch std event p targets

pub complete_all : Std → ImagePushEvent → List RepositoryPlan → Result (List RepositoryPlan)
unfolding complete
complete_all std event [] = ok []
complete_all std event (p ∷ ps) = do
  q ← complete std event p
  qs ← complete_all std event ps
  ok (q ∷ qs)

-- What the method returns where no repository was planned: the zero plan with the first error about
-- a tag, which is no error at all where there was none.
no_repository : Option Error → Result EventPlan
no_repository none = ok (record {
  event = record { kind = []; host = []; repository = []; tag = []; digest = [] };
  repositories = [];
})
no_repository (some e) = err e

pub arrange : Planner → ImagePushEvent → List RepositoryPlan → Option Error → Result EventPlan
unfolding no_repository sort_by key_lt complete_all
arrange s event [] tag_error = no_repository tag_error
arrange s event (p ∷ ps) tag_error = do
  qs ← complete_all s.std event (sort_by (key_lt s.std) (p ∷ ps))
  ok (record { event = event; repositories = qs })

-- Service.plan
unfoldable pub plan : Planner → ImagePushEvent → Result EventPlan
unfolding matches collect arrange
plan s event = do
  ms ← matches s.rules event
  (plans, tag_error) ← collect s event ms [] none
  arrange s event plans tag_error
