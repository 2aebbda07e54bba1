-- ===== src/Updater/Apply/Steps.antt =====
-- The phase behind each step of `applyRepository`.
use image_updater.Prelude.{
  ◌≡◌, refl, ap, ◌∙◌, Bool, true, false, List, [], ◌∷◌, ◌++◌, Option, none, some, inl, inr,
  if◌then◌else◌, Bool-cases, ◌⊎◌, List-cases,
}
use image_updater.Text.{Text, is_empty}
use image_updater.Model.Errors.{
  Error, Result, ok, err, Result-cases, is, no_difference, duplicate_pull_request,
}
use image_updater.Rule.Path.{path_join}
use image_updater.Model.Image.{ImagePushEvent}
use image_updater.Label.Labels.{ImageLabels}
use image_updater.Updater.Types.{ManifestTarget, RepositoryPlan}
use image_updater.Updater.Messages.{RenderedMessages}
use image_updater.Updater.Ports.{
  ImageUpdate, Ports, History, find_open_pull_request, create_pull_request, resolve, patch,
  create_branch, commit, push, after,
}
use image_updater.Updater.Apply.{
  search_branches, ensure_no_open_pull_request, resolve_targets, resolve_manifest_targets,
  patch_all, open_pull_request, push_branch, commit_changes, switch_branch, open_branches, update,
  pull_request,
}
use image_updater.Updater.Targets.{normalize_manifest_targets}
use image_updater.Updater.Apply.Phase.{
  Phase, cloned, branched, changed, committed, pushed, rejected, published, leaving, next, phase,
  phase_make, IsOpen, Ends, EndsEither, by_error, unpatched, PatchEnds, PushEnds,
}

module _ (ports : Ports) where
  -- A search for open pull requests stays in its phase while the lookups are answered.
  pub search_branches-Ends :
      (q q' : Phase) (p : RepositoryPlan) (bs : List Text) (h : History)
      → ((o r b : Text) → next q (find_open_pull_request o r b) none ≡ some q)
      → ((o r b : Text) (x : Error) → next q (find_open_pull_request o r b) (some x) ≡ some q')
      → phase h ≡ some q
      → EndsEither q q' (search_branches ports p bs h).0 (search_branches ports p bs h).1
  unfolding search_branches
  search_branches-Ends q q' p [] h stay lost e = e
  search_branches-Ends q q' p (b ∷ bs) h stay lost e =
      elim (Result-cases
        (ports.find_open_pull_request h p.location.owner p.location.repository b)) [
          | inl (x, f) ↦
              rw (f, search_branches)
                (inr (
                  phase_make h (find_open_pull_request p.location.owner p.location.repository b)
                    (some x) e
                  ∙ lost p.location.owner p.location.repository b x))
          | inr (url, f) ↦ elim (Bool-cases (is_empty url)) [
            | inl free ↦
                rw (f, free, search_branches)
                  (search_branches-Ends q q' p bs _ stay lost (
                    phase_make h (find_open_pull_request p.location.owner p.location.repository b)
                      none e
                    ∙ stay p.location.owner p.location.repository b))
            | inr there ↦
                rw (f, there, search_branches)
                  (inl (
                    phase_make h (find_open_pull_request p.location.owner p.location.repository b)
                      none e
                    ∙ stay p.location.owner p.location.repository b))
          ]
        ]

  pub ensure-Ends :
      (q q' : Phase) (p : RepositoryPlan) (h : History)
      → ((o r b : Text) → next q (find_open_pull_request o r b) none ≡ some q)
      → ((o r b : Text) (x : Error) → next q (find_open_pull_request o r b) (some x) ≡ some q')
      → phase h ≡ some q
      → EndsEither q q'
          (ensure_no_open_pull_request ports p h).0
          (ensure_no_open_pull_request ports p h).1
  unfolding ensure_no_open_pull_request
  ensure-Ends q q' p h stay lost e = search_branches-Ends q q' p (open_branches p) h stay lost e

  pub resolve_targets-Ends :
      (root : Text) (ts resolved : List ManifestTarget) (h : History)
      → phase h ≡ some cloned
      → EndsEither cloned leaving
          (resolve_targets ports root ts resolved h).0
          (resolve_targets ports root ts resolved h).1
  unfolding resolve_targets
  resolve_targets-Ends root [] resolved h e = e
  resolve_targets-Ends root (t ∷ ts) resolved h e =
      elim (Result-cases (ports.resolve h root t.location.dir)) [
        | inl (x, f) ↦
            rw (f, resolve_targets) (inr (phase_make h (resolve root t.location.dir) (some x) e))
        | inr (ds, f) ↦ elim (List-cases ds) [
          | inl z ↦
              rw (f ∙ ap ok z, resolve_targets)
                (inl (phase_make h (resolve root t.location.dir) none e))
          | inr (x, rest, z) ↦
              rw (f ∙ ap ok z, resolve_targets)
                (resolve_targets-Ends root ts _ _
                  (phase_make h (resolve root t.location.dir) none e))
        ]
      ]

  pub resolve_manifest-Ends :
      (root : Text) (p : RepositoryPlan) (h : History)
      → phase h ≡ some cloned
      → EndsEither cloned leaving
          (resolve_manifest_targets ports root p h).0
          (resolve_manifest_targets ports root p h).1
  unfolding resolve_manifest_targets
  resolve_manifest-Ends root p h e =
      go (resolve_targets ports root p.targets [] h).0 (resolve_targets ports root p.targets [] h).1
        (resolve_targets-Ends root p.targets [] h e)
    where
      normal :
          (r : Result (List ManifestTarget)) (x : History)
          → phase x ≡ some cloned
          → EndsEither cloned leaving r x
      normal (ok u) x k = k
      normal (err y) x k = inl k

      go :
          (r : Result (List ManifestTarget)) (x : History)
          → EndsEither cloned leaving r x
          → EndsEither cloned leaving
              (after r (λ ts h'. (normalize_manifest_targets p.location.repository_url ts, h')) x).0
              (after r (λ ts h'. (normalize_manifest_targets p.location.repository_url ts, h')) x).1
      go (ok ts) x k = normal (normalize_manifest_targets p.location.repository_url ts) x k
      go (err y) x k = k

  pub switch_branch-Ends :
      (p : RepositoryPlan) (h : History)
      → phase h ≡ some cloned
      → Ends branched leaving (switch_branch ports p h).0 (switch_branch ports p h).1
  unfolding switch_branch
  switch_branch-Ends p h e = elim (Result-cases (ports.create_branch h p.branch)) [
    | inl (x, f) ↦ rw (f, switch_branch) (phase_make h (create_branch p.branch) (some x) e)
    | inr (u, f) ↦ rw (f, switch_branch) (phase_make h (create_branch p.branch) none e)
  ]

  pub commit_changes-Ends :
      (m : RenderedMessages) (h : History)
      → phase h ≡ some changed
      → Ends committed leaving (commit_changes ports m h).0 (commit_changes ports m h).1
  unfolding commit_changes
  commit_changes-Ends m h e = elim (Result-cases (ports.commit h m.commit_message)) [
    | inl (x, f) ↦ rw (f, commit_changes) (phase_make h (commit m.commit_message) (some x) e)
    | inr (u, f) ↦ rw (f, commit_changes) (phase_make h (commit m.commit_message) none e)
  ]

  pub patch_make :
      (d : Text) (u : ImageUpdate) (h : History) (b : Bool) (r : Option Error)
      → phase h ≡ some (if b then changed else branched)
      → phase (h ++ record { call = patch d u; failure = r } ∷ [])
        ≡ by_error changed (unpatched (if b then changed else branched)) r
  patch_make d u h true r e = phase_make h (patch d u) r e
  patch_make d u h false r e = phase_make h (patch d u) r e

  pub patch-IsOpen :
      (h : History) (b : Bool) → phase h ≡ some (if b then changed else branched) → IsOpen h
  patch-IsOpen h true e = (changed, e, λ x. cc)
  patch-IsOpen h false e = (branched, e, λ x. cc)

  pub patch_all-PatchEnds :
      (root : Text) (event : ImagePushEvent) (labels : ImageLabels)
      → (ts : List ManifestTarget) (b : Bool) (h : History)
      → phase h ≡ some (if b then changed else branched)
      → PatchEnds
          (patch_all ports root event labels ts b h).0
          (patch_all ports root event labels ts b h).1
  unfolding patch_all
  patch_all-PatchEnds root event labels [] b h e = e
  patch_all-PatchEnds root event labels (t ∷ ts) b h e =
      elim (Result-cases (ports.patch h dir new)) [
        | inr (u, f) ↦
            rw (f, patch_all)
              (patch_all-PatchEnds root event labels ts true
                (h ++ record { call = patch dir new; failure = none } ∷ [])
                (patch_make dir new h b none e))
        | inl (x, f) ↦ elim (Bool-cases (is x no_difference)) [
          | inl same ↦
              rw (f, same, patch_all)
                (patch_all-PatchEnds root event labels ts b
                  (h ++ record { call = patch dir new; failure = some x } ∷ [])
                  (patch_make dir new h b (some x) e ∙ rw same refl))
          | inr bad ↦
              rw (f, bad, patch_all)
                (leaving, patch_make dir new h b (some x) e ∙ rw bad refl, λ z. cc)
        ]
      ]
    where
      dir : Text
      dir = path_join (root ∷ t.location.dir ∷ [])

      new : ImageUpdate
      new = update t event labels

  pub push_branch-PushEnds :
      (p : RepositoryPlan) (h : History)
      → phase h ≡ some committed
      → PushEnds (push_branch ports p h).0 (push_branch ports p h).1
  unfolding push_branch
  push_branch-PushEnds p h e = elim (Result-cases (ports.push h p.branch)) [
    | inr (u, f) ↦ rw (f, push_branch) (inl (phase_make h (push p.branch) none e))
    | inl (x, f) ↦ elim (Bool-cases (is x duplicate_pull_request)) [
      | inl dup ↦
          rw (f, dup, push_branch)
            (either
              (ensure_no_open_pull_request ports p
                (h ++ record { call = push p.branch; failure = some x } ∷ [])).0
              _
              (ensure-Ends rejected leaving p
                (h ++ record { call = push p.branch; failure = some x } ∷ []) (λ o r b. refl)
                (λ o r b y. refl) (phase_make h (push p.branch) (some x) e ∙ rw dup refl)))
      | inr other ↦
          rw (f, other, push_branch)
            (leaving, phase_make h (push p.branch) (some x) e ∙ rw other refl, λ z. cc)
    ]
  ]
    where
      either :
          (r : Result (Unit {0})) (x : History) → EndsEither rejected leaving r x → PushEnds r x
      either (ok u) x k = inr k
      either (err y) x (inl k) = (rejected, k, λ z. cc)
      either (err y) x (inr k) = (leaving, k, λ z. cc)

  pub open_pull_request-IsOpen :
      (p : RepositoryPlan) (labels : ImageLabels) (m : RenderedMessages) (h : History)
      → (phase h ≡ some pushed) ⊎ (phase h ≡ some rejected)
      → IsOpen (open_pull_request ports p labels m h).1
  unfolding open_pull_request
  open_pull_request-IsOpen p labels m h e =
      elim (Result-cases (ports.create_pull_request h (pull_request p labels m))) [
        | inl (x, f) ↦ rw (f, open_pull_request) (published, made (some x) e, λ z. cc)
        | inr (x, f) ↦ rw (f, open_pull_request) (published, made none e, λ z. cc)
      ]
    where
      made :
          (r : Option Error)
          → (phase h ≡ some pushed) ⊎ (phase h ≡ some rejected)
          → phase (
              h
              ++ record { call = create_pull_request (pull_request p labels m); failure = r } ∷ [])
            ≡ some published
      made r (inl k) = phase_make h (create_pull_request (pull_request p labels m)) r k
      made r (inr k) = phase_make h (create_pull_request (pull_request p labels m)) r k
