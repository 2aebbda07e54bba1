-- ===== src/Updater/Apply/Protocol.antt =====
-- internal/application/updater/service.go: the order of the calls that `Handle` makes.
use image_updater.Prelude.{
  ◌≡◌, refl, Bool, true, false, not, List, [], ◌∷◌, ◌++◌, Option, none, some, ◌⊎◌, inl, inr,
  if◌then◌else◌, Bool-cases, ◌||◌,
}
use image_updater.Text.{Text}
use image_updater.Model.Errors.{Error, Result-cases}
use image_updater.Model.Image.{ImagePushEvent, reference}
use image_updater.Label.Labels.{ImageLabels}
use image_updater.Updater.Types.{RepositoryPlan, EventPlan}
use image_updater.Updater.Messages.{RenderedMessages}
use image_updater.Updater.Ports.{Ports, History, ◌>>=◌, read_metadata, checkout, close}
use image_updater.Updater.Plan.{plan}
use image_updater.Updater.Apply.{
  ensure_no_open_pull_request, resolve_manifest_targets, patch_all, open_pull_request, push_branch,
  commit_changes, switch_branch, publish, work, close_after, in_checkout, apply_repository,
}
use image_updater.Updater.Handle.{Service, image_labels, apply_all, apply, handle, render_all}
use image_updater.Updater.Apply.Phase.{
  idle, cloned, branched, changed, committed, pushed, rejected, published, leaving, phase,
  phase_make, IsOpen, bind-keeps, Ends, EndsEither, PatchEnds, PushEnds,
}
use image_updater.Updater.Apply.Steps.{
  ensure-Ends, resolve_manifest-Ends, switch_branch-Ends, commit_changes-Ends, patch-IsOpen,
  patch_all-PatchEnds, push_branch-PushEnds, open_pull_request-IsOpen,
}

module _ (ports : Ports) where
  publish-IsOpen :
      (p : RepositoryPlan) (labels : ImageLabels) (m : RenderedMessages) (b : Bool) (h : History)
      → phase h ≡ some (if b then changed else branched)
      → IsOpen (publish ports p labels m b h).1
  unfolding publish
  publish-IsOpen p labels m false h e = patch-IsOpen ports h false e
  publish-IsOpen p labels m true h e =
      bind-keeps (commit_changes ports m)
        (λ _. push_branch ports p >>= λ _. open_pull_request ports p labels m) h
        (Ends committed leaving) IsOpen (commit_changes-Ends ports m h e)
        (λ _ x k. (leaving, k, λ z. cc))
        (λ _ x k.
          bind-keeps (push_branch ports p) (λ _. open_pull_request ports p labels m) x PushEnds
            IsOpen (push_branch-PushEnds ports p x k) (λ _ y o. o)
            (λ _ y d. open_pull_request-IsOpen ports p labels m y d))

  cloned_or_leaving : (h : History) → (phase h ≡ some cloned) ⊎ (phase h ≡ some leaving) → IsOpen h
  cloned_or_leaving h (inl k) = (cloned, k, λ z. cc)
  cloned_or_leaving h (inr k) = (leaving, k, λ z. cc)

  work-IsOpen :
      (p : RepositoryPlan) (labels : ImageLabels) (m : RenderedMessages) (root : Text) (h : History)
      → phase h ≡ some cloned
      → IsOpen (work ports p labels m root h).1
  unfolding work
  work-IsOpen p labels m root h e =
      bind-keeps (resolve_manifest_targets ports root p)
        (λ ms. switch_branch ports p >>= λ _.
          patch_all ports root p.event labels ms false >>= λ b. publish ports p labels m b)
        h (EndsEither cloned leaving) IsOpen (resolve_manifest-Ends ports root p h e)
        (λ _ x k. cloned_or_leaving x k)
        (λ ms x k.
          bind-keeps (switch_branch ports p)
            (λ _. patch_all ports root p.event labels ms false >>= λ b. publish ports p labels m b)
            x (Ends branched leaving) IsOpen (switch_branch-Ends ports p x k)
            (λ _ y l. (leaving, l, λ z. cc))
            (λ _ y l.
              bind-keeps (patch_all ports root p.event labels ms false)
                (λ b. publish ports p labels m b) y PatchEnds IsOpen
                (patch_all-PatchEnds ports root p.event labels ms false y l) (λ _ z o. o)
                (λ b z o. publish-IsOpen p labels m b z o)))

  close_idle :
      (h : History) (r : Option Error)
      → IsOpen h
      → phase (h ++ record { call = close; failure = r } ∷ []) ≡ some idle
  close_idle h r (idle, e, n) = absurd (n refl)
  close_idle h r (cloned, e, n) = phase_make h close r e
  close_idle h r (branched, e, n) = phase_make h close r e
  close_idle h r (changed, e, n) = phase_make h close r e
  close_idle h r (committed, e, n) = phase_make h close r e
  close_idle h r (pushed, e, n) = phase_make h close r e
  close_idle h r (rejected, e, n) = phase_make h close r e
  close_idle h r (published, e, n) = phase_make h close r e
  close_idle h r (leaving, e, n) = phase_make h close r e

  in_checkout-phase :
      (p : RepositoryPlan) (labels : ImageLabels) (m : RenderedMessages) (h : History)
      → phase h ≡ some idle
      → phase (in_checkout ports p labels m h).1 ≡ some idle
  unfolding in_checkout close_after
  in_checkout-phase p labels m h e =
      elim (Result-cases (ports.checkout h p.location.repository_url)) [
        | inl (x, f) ↦
            rw (f, in_checkout) (phase_make h (checkout p.location.repository_url) (some x) e)
        | inr (root, f) ↦
            rw (f, in_checkout)
              (close_idle _ _ (
                work-IsOpen p labels m root
                  (h ++ record { call = checkout p.location.repository_url; failure = none } ∷ [])
                  (phase_make h (checkout p.location.repository_url) none e)))
      ]

  pub apply_repository-phase :
      (p : RepositoryPlan) (labels : ImageLabels) (m : RenderedMessages) (h : History)
      → phase h ≡ some idle
      → phase (apply_repository ports p labels m h).1 ≡ some idle
  unfolding apply_repository
  apply_repository-phase p labels m h e =
      bind-keeps (ensure_no_open_pull_request ports p) (λ _. in_checkout ports p labels m) h
        (EndsEither idle idle) (λ x. phase x ≡ some idle)
        (ensure-Ends ports idle idle p h (λ o r b. refl) (λ o r b x. refl) e)
        (λ _ x k. elim k [ inl i ↦ i | inr i ↦ i ]) (λ _ x k. in_checkout-phase p labels m x k)

  apply_all-phase :
      (labels : ImageLabels) (ms : List (RepositoryPlan × RenderedMessages)) (fs : List Error)
      → (h : History) → phase h ≡ some idle
      → phase (apply_all ports labels ms fs h).1 ≡ some idle
  unfolding apply_all
  apply_all-phase labels [] fs h e = e
  apply_all-phase labels ((p, m) ∷ ms) fs h e =
      apply_all-phase labels ms _ (apply_repository ports p labels m h).1
        (apply_repository-phase p labels m h e)

module _ (s : Service) where
  image_labels-phase :
      (event : ImagePushEvent) (h : History)
      → phase h ≡ some idle
      → phase (image_labels s event h).1 ≡ some idle
  unfolding image_labels
  image_labels-phase event h e =
      elim (Bool-cases (not s.planner.annotate_from_labels || not s.has_resolver)) [
        | inl off ↦ rw (off, image_labels) e
        | inr on ↦ elim (Result-cases (s.ports.read_metadata h (reference event))) [
          | inl (x, f) ↦
              rw (on, f, image_labels) (phase_make h (read_metadata (reference event)) (some x) e)
          | inr (x, f) ↦
              rw (on, f, image_labels) (phase_make h (read_metadata (reference event)) none e)
        ]
      ]

  apply-phase :
      (ep : EventPlan) (h : History) → phase h ≡ some idle → phase (apply s ep h).1 ≡ some idle
  unfolding apply
  apply-phase ep h e =
      bind-keeps (image_labels s ep.event) _ h (λ _ x. phase x ≡ some idle)
        (λ x. phase x ≡ some idle) (image_labels-phase ep.event h e) (λ _ x k. k)
        (λ labels x k. elim (Result-cases (render_all s labels ep.repositories)) [
          | inl (y, f) ↦ rw f k
          | inr (ms, f) ↦ rw f (apply_all-phase s.ports labels ms [] x k)
        ])

  -- From no working copy, and whatever the ports answer, the calls of an update are in order, and it
  -- ends with no working copy: registry metadata and open pull requests are asked for before a
  -- checkout; directories are resolved before the branch is created; manifests are patched on the
  -- branch; a commit follows a patch that succeeded, a push a commit that did; a pull request is asked
  -- for only behind a push that succeeded or one that was rejected because the branch is there, with
  -- only lookups of open pull requests that were answered between. A resolution, a branch, a commit
  -- or a lookup behind a rejected push that fails, a patch that fails for another reason than that
  -- nothing differs, a push that fails for another reason than that the branch is there, and the
  -- request of the pull request, whatever its answer, are followed by closing the working copy and by
  -- no other call on it. Every checkout that succeeded is closed before the next repository.
  pub handle-phase :
      (event : ImagePushEvent) (h : History)
      → phase h ≡ some idle
      → phase (handle s event h).1 ≡ some idle
  unfolding handle
  handle-phase event h e = elim (Result-cases (plan s.planner event)) [
    | inl (x, f) ↦ rw (f, handle) e
    | inr (ep, f) ↦ rw (f, handle) (apply-phase ep h e)
  ]
