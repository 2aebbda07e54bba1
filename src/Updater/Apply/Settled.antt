-- ===== src/Updater/Apply/Settled.antt =====
-- internal/application/updater/service.go: which failures of `applyRepository` are final.
use image_updater.Prelude.{
  ◌≡◌, refl, ◌⊎◌, Bool, true, false, List, [], ◌∷◌, ◌||◌, arith, inl, inr, any, Bool-cases,
}
use image_updater.Text.{Text, is_empty}
use image_updater.Rule.Path.{path_join}
use image_updater.Model.Image.{ImagePushEvent}
use image_updater.Model.Errors.{
  Sentinel, Error, Result, ok, err, wrap, is, is_retryable, retryable, Result-cases,
  manifest_not_found, invalid_manifest, incomplete_rule, image_not_managed, no_difference,
  duplicate_pull_request, invalid_pull_request,
}
use image_updater.Label.Labels.{ImageLabels}
use image_updater.Updater.Types.{ManifestTarget, RepositoryPlan}
use image_updater.Updater.Messages.{RenderedMessages}
use image_updater.Updater.Targets.{normalize_manifest_targets}
use image_updater.Updater.Targets.Failure.{is-normalize_manifest_targets}
use image_updater.Updater.Ports.{Ports, History, Exec, after, ◌>>=◌}
use image_updater.Updater.Apply.{
  pull_request, open_pull_request, push_branch, commit_changes, publish, work, close_after,
  in_checkout, apply_repository, resolve_targets, resolve_manifest_targets, switch_branch,
  patch_all, search_branches, ensure_no_open_pull_request, open_branches, is_stable_patch_error,
  is_stable_resolve_error, update,
}

-- The sentinels that a final failure of an update wraps.
abbrev pub final_sentinels : List Sentinel
final_sentinels =
    manifest_not_found ∷ invalid_manifest ∷ incomplete_rule ∷ image_not_managed ∷ no_difference
    ∷ duplicate_pull_request ∷ invalid_pull_request ∷ []

-- An error that is to be tried again, or wraps one of these.
unfoldable pub is_settled : Error → Bool
unfolding is is_retryable
is_settled e = is_retryable e || any (is e) final_sentinels

-- A result without an error, or with such a one.
abbrev pub settles : {A : Type 0} → Result A → Bool
settles (ok a) = true
settles (err e) = is_settled e

settles-bind :
    {A B : Type 0} (m : Exec A) (f : A → Exec B) (h : History)
    → settles (m h).0 ≡ true
    → ((a : A) (x : History) → settles (f a x).0 ≡ true)
    → settles ((m >>= f) h).0 ≡ true
settles-bind {A} {B} m f h now later = go (m h).0 (m h).1 now
  where
    go : (r : Result A) (x : History) → settles r ≡ true → settles (after r f x).0 ≡ true
    go (ok a) x k = later a x
    go (err e) x k = k

is_settled-retryable : (e : Error) → is_settled (retryable e) ≡ true
unfolding is_settled retryable
is_settled-retryable e = refl

is_settled-incomplete : (e : Error) → is e incomplete_rule ≡ true → is_settled e ≡ true
unfolding is_settled
is_settled-incomplete e h = ground (arith, h)

module _ (ports : Ports) where
  settles-search_branches :
      (p : RepositoryPlan) (bs : List Text) (h : History)
      → settles (search_branches ports p bs h).0 ≡ true
  unfolding search_branches is_settled
  settles-search_branches p [] h = refl
  settles-search_branches p (b ∷ bs) h =
      elim (Result-cases
        (ports.find_open_pull_request h p.location.owner p.location.repository b)) [
          | inl (e, f) ↦ rw (f, search_branches) (is_settled-retryable (wrap (b ∷ []) e))
          | inr (url, f) ↦ elim (Bool-cases (is_empty url)) [
            | inl n ↦ rw (f, n, search_branches) (settles-search_branches p bs _)
            | inr n ↦ rw (f, n, search_branches) refl
          ]
        ]

  settles-ensure_no_open_pull_request :
      (p : RepositoryPlan) (h : History) → settles (ensure_no_open_pull_request ports p h).0 ≡ true
  unfolding ensure_no_open_pull_request
  settles-ensure_no_open_pull_request p h = settles-search_branches p (open_branches p) h

  settles-resolve_targets :
      (root : Text) (ts done : List ManifestTarget) (h : History)
      → settles (resolve_targets ports root ts done h).0 ≡ true
  unfolding resolve_targets is_settled is_stable_resolve_error retryable
  settles-resolve_targets root [] done h = refl
  settles-resolve_targets root (t ∷ ts) done h =
      elim (Result-cases (ports.resolve h root t.location.dir)) [
        | inl (e, f) ↦ ground (arith, f)
        | inr ([], f) ↦ ground (arith, f)
        | inr (d ∷ ds, f) ↦ rw (f, resolve_targets) (settles-resolve_targets root ts _ _)
      ]

  settles-resolve_manifest_targets :
      (root : Text) (p : RepositoryPlan) (h : History)
      → settles (resolve_manifest_targets ports root p h).0 ≡ true
  unfolding resolve_manifest_targets
  settles-resolve_manifest_targets root p h =
      settles-bind (resolve_targets ports root p.targets []) _ h
        (settles-resolve_targets root p.targets [] h)
        (λ ts x.
          normalized ts (Result-cases (normalize_manifest_targets p.location.repository_url ts)))
    where
      normalized :
          (ts : List ManifestTarget)
          → ((e : Error) × (normalize_manifest_targets p.location.repository_url ts ≡ err e))
            ⊎ ((us : List ManifestTarget) × (normalize_manifest_targets p.location.repository_url ts
                  ≡ ok us))
          → settles (normalize_manifest_targets p.location.repository_url ts) ≡ true
      normalized ts (inl (e, f)) =
          rw f
            (is_settled-incomplete e (is-normalize_manifest_targets p.location.repository_url ts f))
      normalized ts (inr (us, f)) = rw f refl

  settles-switch_branch :
      (p : RepositoryPlan) (h : History) → settles (switch_branch ports p h).0 ≡ true
  unfolding switch_branch is_settled retryable
  settles-switch_branch p h = elim (Result-cases (ports.create_branch h p.branch)) [
    | inl (e, f) ↦ ground (arith, f)
    | inr (u, f) ↦ ground (arith, f)
  ]

  settles-patch_all :
      (root : Text) (event : ImagePushEvent) (labels : ImageLabels) (ts : List ManifestTarget)
      (b : Bool)
      → (h : History) → settles (patch_all ports root event labels ts b h).0 ≡ true
  unfolding patch_all is_settled is_stable_patch_error retryable
  settles-patch_all root event labels [] b h = refl
  settles-patch_all root event labels (t ∷ ts) b h =
      elim (Result-cases
        (ports.patch h (path_join (root ∷ t.location.dir ∷ [])) (update t event labels))) [
          | inl (e, f) ↦ elim (Bool-cases (is e no_difference)) [
            | inl n ↦ rw (f, n, patch_all) (settles-patch_all root event labels ts b _)
            | inr n ↦ rw (f, n, patch_all) (ground arith)
          ]
          | inr (u, f) ↦ rw (f, patch_all) (settles-patch_all root event labels ts true _)
        ]

  settles-commit_changes :
      (m : RenderedMessages) (h : History) → settles (commit_changes ports m h).0 ≡ true
  unfolding commit_changes is_settled retryable
  settles-commit_changes m h = elim (Result-cases (ports.commit h m.commit_message)) [
    | inl (e, f) ↦ ground (arith, f)
    | inr (u, f) ↦ ground (arith, f)
  ]

  settles-push_branch :
      (p : RepositoryPlan) (h : History) → settles (push_branch ports p h).0 ≡ true
  unfolding push_branch
  settles-push_branch p h = elim (Result-cases (ports.push h p.branch)) [
    | inl (e, f) ↦ elim (Bool-cases (is e duplicate_pull_request)) [
      | inl d ↦ rw (f, d, push_branch) (settles-ensure_no_open_pull_request p _)
      | inr d ↦ rw (f, d, push_branch) (is_settled-retryable (wrap [] e))
    ]
    | inr (u, f) ↦ rw (f, push_branch) refl
  ]

  module _ (p : RepositoryPlan) (labels : ImageLabels) (m : RenderedMessages) where
    settles-open_pull_request :
        (h : History) → settles (open_pull_request ports p labels m h).0 ≡ true
    unfolding open_pull_request is_settled retryable
    settles-open_pull_request h =
        elim (Result-cases (ports.create_pull_request h (pull_request p labels m))) [
          | inl (e, f) ↦ ground (arith, f)
          | inr (u, f) ↦ ground (arith, f)
        ]

    settles-publish : (b : Bool) (h : History) → settles (publish ports p labels m b h).0 ≡ true
    unfolding publish is_settled
    settles-publish false h = refl
    settles-publish true h =
        settles-bind (commit_changes ports m) _ h (settles-commit_changes m h) (λ _ x.
          settles-bind (push_branch ports p) (λ _. open_pull_request ports p labels m) x
            (settles-push_branch p x) (λ _ y. settles-open_pull_request y))

    settles-work : (root : Text) (h : History) → settles (work ports p labels m root h).0 ≡ true
    unfolding work
    settles-work root h =
        settles-bind (resolve_manifest_targets ports root p) _ h
          (settles-resolve_manifest_targets root p h)
          (λ ts x.
            settles-bind (switch_branch ports p)
              (λ _.
                patch_all ports root p.event labels ts false >>= λ b. publish ports p labels m b)
              x (settles-switch_branch p x)
              (λ _ y.
                settles-bind (patch_all ports root p.event labels ts false)
                  (λ b. publish ports p labels m b) y
                  (settles-patch_all root p.event labels ts false y) (λ b z. settles-publish b z)))

    settles-in_checkout : (h : History) → settles (in_checkout ports p labels m h).0 ≡ true
    unfolding in_checkout close_after
    settles-in_checkout h = elim (Result-cases (ports.checkout h p.location.repository_url)) [
      | inl (e, f) ↦ rw (f, in_checkout) (is_settled-retryable (wrap [] e))
      | inr (root, f) ↦ rw (f, in_checkout) (settles-work root _)
    ]

    -- Whatever the ports answer, an update that fails either asks to be tried again or wraps one of
    -- the sentinels of a stable state: no other failure is given up for good.
    pub settles-apply_repository :
        (h : History) → settles (apply_repository ports p labels m h).0 ≡ true
    unfolding apply_repository
    settles-apply_repository h =
        settles-bind (ensure_no_open_pull_request ports p) (λ _. in_checkout ports p labels m) h
          (settles-ensure_no_open_pull_request p h) (λ _ x. settles-in_checkout x)
