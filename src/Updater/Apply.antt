-- ===== src/Updater/Apply.antt =====
-- internal/application/updater/service.go: `applyRepository` and what it calls.
pub mod Phase
pub mod Steps
pub mod Protocol
pub mod Outcome
pub mod Success
pub mod Settled
use image_updater.Prelude.{
  Bool, true, false, not, ◌&&◌, ◌||◌, List, [], ◌∷◌, ◌++◌, Option, none, some, if◌then◌else◌,
}
use image_updater.Text.{Text, codes, text_eq, is_empty}
use image_updater.Std.{Std}
use image_updater.Model.Errors.{
  Sentinel, Error, sentinel, plain, wrap, join, is, retryable, manifest_not_found, invalid_manifest,
  incomplete_rule, image_not_managed, no_difference, duplicate_pull_request, invalid_pull_request,
  Result, ok, err,
}
use image_updater.Model.Errors
use image_updater.Model.Image.{ImagePushEvent, reference, name}
use image_updater.Rule.Path.{path_join}
use image_updater.Rule.Types.{ManifestLocation}
use image_updater.Label.Labels.{ImageLabels, no_labels, image_labels_of, new_image_manifest}
use image_updater.Updater.Types.{ManifestTarget, RepositoryPlan, EventPlan}
use image_updater.Updater.Branch.{image_name, legacy_repository_branch_name}
use image_updater.Updater.Targets.{normalize_manifest_targets}
use image_updater.Updater.Plan.{Planner, plan}
use image_updater.Updater.Body.{format_pull_request_body}
use image_updater.Updater.Messages.{MessageRenderer, MessageTemplateData, RenderedMessages, render}
use image_updater.Updater.Ports.{
  ImageUpdate, PullRequest, Ports, History, Exec, make, pure, raise, try, ◌>>=◌, read_metadata,
  find_open_pull_request, checkout, create_pull_request, resolve, patch, create_branch, commit,
  push, close,
}

-- manifestTarget.update
unfoldable pub update : ManifestTarget → ImagePushEvent → ImageLabels → ImageUpdate
unfolding reference name new_image_manifest
update t event labels = record {
  image = name (reference event);
  new_tag = event.tag;
  manifest =
      if t.writes_image_manifest
      then some (new_image_manifest (name (reference event)) labels)
      else none;
}

unfoldable pub actors : Text → List Text
unfolding is_empty
actors actor = if is_empty actor then [] else actor ∷ []

-- repositoryPlan.pullRequest
unfoldable pub pull_request : RepositoryPlan → ImageLabels → RenderedMessages → PullRequest
unfolding actors
pull_request p labels messages = record {
  owner = p.location.owner;
  repository = p.location.repository;
  head = p.branch;
  title = messages.pull_request_title;
  body = messages.pull_request_body;
  assignees = actors labels.build_actor;
  reviewers = actors labels.build_actor;
}

-- The branches under which the update may already be open.
unfoldable pub open_branches : RepositoryPlan → List Text
unfolding legacy_repository_branch_name is_empty text_eq
open_branches p =
    let legacy = legacy_repository_branch_name p.event p.env p in
    p.branch ∷ (if not (is_empty legacy) && not (text_eq legacy p.branch) then legacy ∷ [] else [])

-- The errors after which a target is given up for good.
unfoldable pub is_stable_patch_error : Error → Bool
unfolding is
is_stable_patch_error e =
    is e manifest_not_found || (is e invalid_manifest || is e image_not_managed)

unfoldable pub is_stable_resolve_error : Error → Bool
unfolding is
is_stable_resolve_error e =
    is e manifest_not_found || (is e invalid_manifest || is e incomplete_rule)

-- One manifest target for each directory.
expand : ManifestTarget → List Text → List ManifestTarget
expand source [] = []
expand source (d ∷ ds) =
    record source { location = record source.location { dir = d } } ∷ expand source ds

module _ (ports : Ports) where
  -- The loop of `ensureNoOpenPullRequest`.
  pub search_branches : RepositoryPlan → List Text → Exec (Unit {0})
  unfolding is_empty retryable
  search_branches p [] = pure tt
  search_branches p (b ∷ bs) = do
    r ← try (
        make (find_open_pull_request p.location.owner p.location.repository b)
          (λ h. ports.find_open_pull_request h p.location.owner p.location.repository b))
    elim r [
      | err e ↦ raise (retryable (wrap (b ∷ []) e))
      | ok url ↦
          if is_empty url
          then search_branches p bs
          else raise (wrap (b ∷ url ∷ []) (sentinel duplicate_pull_request))
    ]

  -- ensureNoOpenPullRequest
  pub ensure_no_open_pull_request : RepositoryPlan → Exec (Unit {0})
  unfolding search_branches open_branches
  ensure_no_open_pull_request p = search_branches p (open_branches p)

  -- The loop of `resolveManifestTargets`.
  pub resolve_targets :
      Text → List ManifestTarget → List ManifestTarget → Exec (List ManifestTarget)
  unfolding is_stable_resolve_error retryable expand
  resolve_targets root [] resolved = pure resolved
  resolve_targets root (t ∷ ts) resolved = do
    r ← try (make (resolve root t.location.dir) (λ h. ports.resolve h root t.location.dir))
    elim r [
      | err e ↦ raise (
          if is_stable_resolve_error e
          then wrap (t.location.dir ∷ []) e
          else retryable (wrap (t.location.dir ∷ []) e))
      | ok ds ↦ elim ds [
        | [] ↦ raise (wrap (t.location.dir ∷ []) (sentinel manifest_not_found))
        | d ∷ rest ↦ resolve_targets root ts (resolved ++ expand t (d ∷ rest))
      ]
    ]

  -- resolveManifestTargets
  pub resolve_manifest_targets : Text → RepositoryPlan → Exec (List ManifestTarget)
  unfolding resolve_targets normalize_manifest_targets
  resolve_manifest_targets root p = do
    resolved ← resolve_targets root p.targets []
    λ h. (normalize_manifest_targets p.location.repository_url resolved, h)

  -- The loop over the manifests: whether one of them changed.
  pub patch_all : Text → ImagePushEvent → ImageLabels → List ManifestTarget → Bool → Exec Bool
  unfolding is_stable_patch_error retryable is path_join update
  patch_all root event labels [] changed = pure changed
  patch_all root event labels (t ∷ ts) changed = do
    let dir = path_join (root ∷ t.location.dir ∷ [])
    r ←
        try (
          make (patch dir (update t event labels)) (λ h. ports.patch h dir (update t event labels)))
    elim r [
      | ok _ ↦ patch_all root event labels ts true
      | err e ↦
          let skip = patch_all root event labels ts changed in
          if is e no_difference
          then skip
          else raise (
              if is_stable_patch_error e
              then wrap (t.location.dir ∷ []) e
              else retryable (wrap (t.location.dir ∷ []) e))
    ]

  -- The last step of `applyRepository`.
  pub open_pull_request : RepositoryPlan → ImageLabels → RenderedMessages → Exec (Unit {0})
  unfolding pull_request retryable is
  open_pull_request p labels messages = do
    let pr = pull_request p labels messages
    r ← try (make (create_pull_request pr) (λ h. ports.create_pull_request h pr))
    elim r [
      | ok url ↦ pure tt
      | err e ↦ raise (if is e invalid_pull_request then wrap [] e else retryable (wrap [] e))
    ]

  -- The push, and the search for an open pull request after a rejected one.
  pub push_branch : RepositoryPlan → Exec (Unit {0})
  unfolding retryable is ensure_no_open_pull_request
  push_branch p = do
    r ← try (make (push p.branch) (λ h. ports.push h p.branch))
    elim r [
      | ok _ ↦ pure tt
      | err e ↦
          if is e duplicate_pull_request
          then ensure_no_open_pull_request p
          else raise (retryable (wrap [] e))
    ]

  pub commit_changes : RenderedMessages → Exec (Unit {0})
  unfolding retryable is
  commit_changes messages = do
    r ← try (make (commit messages.commit_message) (λ h. ports.commit h messages.commit_message))
    elim r [
      | ok _ ↦ pure tt
      | err e ↦ raise (if is e no_difference then e else retryable (wrap [] e))
    ]

  pub switch_branch : RepositoryPlan → Exec (Unit {0})
  unfolding retryable
  switch_branch p = do
    r ← try (make (create_branch p.branch) (λ h. ports.create_branch h p.branch))
    elim r [ ok _ ↦ pure tt | err e ↦ raise (retryable (wrap [] e)) ]

  -- What `applyRepository` does when the manifests were patched.
  pub publish : RepositoryPlan → ImageLabels → RenderedMessages → Bool → Exec (Unit {0})
  unfolding commit_changes push_branch open_pull_request
  publish p labels messages changed =
      if not changed
      then raise (wrap (p.location.repository_url ∷ []) (sentinel no_difference))
      else do _ ← commit_changes messages; _ ← push_branch p; open_pull_request p labels messages

  -- What `applyRepository` does in the working copy.
  pub work : RepositoryPlan → ImageLabels → RenderedMessages → Text → Exec (Unit {0})
  unfolding resolve_manifest_targets switch_branch patch_all publish
  work p labels messages root = do
    manifests ← resolve_manifest_targets root p
    _ ← switch_branch p
    changed ← patch_all root p.event labels manifests false
    publish p labels messages changed

  -- The deferred call: the working copy is removed, and a failure to do so is logged only.
  pub close_after : Exec (Unit {0}) → Exec (Unit {0})
  close_after m h =
      let (r, h') = m h in let (closed, h'') = make close (λ x. ports.close x) h' in (r, h'')

  -- The checkout, and what is done in it.
  pub in_checkout : RepositoryPlan → ImageLabels → RenderedMessages → Exec (Unit {0})
  unfolding retryable close_after work
  in_checkout p labels messages = do
    r ← try (
        make (checkout p.location.repository_url) (λ h. ports.checkout h p.location.repository_url))
    elim r [
      | err e ↦ raise (retryable (wrap [] e))
      | ok root ↦ close_after (work p labels messages root)
    ]

  -- applyRepository
  unfoldable pub apply_repository :
      RepositoryPlan → ImageLabels → RenderedMessages → Exec (Unit {0})
  unfolding ensure_no_open_pull_request in_checkout
  apply_repository p labels messages = do
    _ ← ensure_no_open_pull_request p
    in_checkout p labels messages
