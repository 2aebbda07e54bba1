-- ===== src/Updater/Apply/Success.antt =====
-- internal/application/updater/service.go: what a successful `applyRepository` has done.
use image_updater.Prelude.{
  ◌≡◌, refl, sym, ap, ◌∙◌, Bool, true, false, Option, none, [], ◌∷◌, ◌++◌, arith, inl, inr, ◌≢◌,
  ◌⊎◌, List-cases,
}
use image_updater.Model.Errors.{Result, Error, ok, err, Result-cases}
use image_updater.Label.Labels.{ImageLabels}
use image_updater.Text.{Text, is_empty}
use image_updater.Updater.Types.{RepositoryPlan}
use image_updater.Updater.Messages.{RenderedMessages}
use image_updater.Updater.Ports.{
  PullRequest, Ports, History, Exec, error_of, after, ◌>>=◌, create_pull_request, close,
}
use image_updater.Updater.Apply.{
  actors, pull_request, open_pull_request, push_branch, commit_changes, publish, work, close_after,
  in_checkout, apply_repository, resolve_manifest_targets, switch_branch, patch_all,
  ensure_no_open_pull_request,
}

-- The pull request of a plan: to its repository, from its branch, with the rendered title and body,
-- and the actor of the build, if there is one, as its only assignee and reviewer.
pub record IsOf (p : RepositoryPlan) (labels : ImageLabels) (m : RenderedMessages) (r : PullRequest)
    : Type 0 where
  pub repository : (r.owner ≡ p.location.owner) × (r.repository ≡ p.location.repository)
  pub head : r.head ≡ p.branch
  pub title : r.title ≡ m.pull_request_title
  pub body : r.body ≡ m.pull_request_body
  pub people :
      ((labels.build_actor ≡ []) × (r.assignees ≡ []) × (r.reviewers ≡ []))
      ⊎ ((labels.build_actor ≢ [])
          × (r.assignees ≡ labels.build_actor ∷ [])
          × (r.reviewers ≡ labels.build_actor ∷ []))

-- The last calls of a history: the pull request was opened, and the working copy closed.
pub record IsPublished (p : RepositoryPlan) (labels : ImageLabels) (m : RenderedMessages)
    (h : History) : Type 0 where
  pub before : History
  pub request : PullRequest
  pub of_plan : IsOf p labels m request
  pub closed : Option Error
  pub ends :
      h
      ≡ (before ++ record { call = create_pull_request request; failure = none } ∷ [])
        ++ record { call = close; failure = closed } ∷ []

pull_request-IsOf :
    (p : RepositoryPlan) (labels : ImageLabels) (m : RenderedMessages)
    → IsOf p labels m (pull_request p labels m)
unfolding pull_request actors is_empty
pull_request-IsOf p labels m = record {
  repository = (refl, refl);
  head = refl;
  title = refl;
  body = refl;
  people = elim (List-cases labels.build_actor) [
    | inl e ↦ inl (e, rw e refl, rw e refl)
    | inr (c, cs, e) ↦ inr ((λ z. ground (arith, e, z)), rw e refl, rw e refl)
  ];
}

-- Both of two actions in sequence went well if the sequence did.
both_ok :
    {A B : Type 0} (m : Exec A) (f : A → Exec B) (h : History) {b : B}
    → ((m >>= f) h).0 ≡ ok b
    → (a : A) × ((m h).0 ≡ ok a) × ((m >>= f) h ≡ f a (m h).1)
both_ok {A} {B} m f h {b} e = go (m h).0 (m h).1 e
  where
    go :
        (r : Result A) (x : History)
        → (after r f x).0 ≡ ok b
        → (a : A) × (r ≡ ok a) × (after r f x ≡ f a x)
    go (ok a) x e = (a, refl, refl)
    go (err d) x e = absurd (ground arith)

module _ (ports : Ports) (p : RepositoryPlan) (labels : ImageLabels) (m : RenderedMessages) where
  -- The last call that a history holds is the one that opened the pull request.
  abbrev Opened : History → Type 0
  Opened h =
      (before : History) × (h
        ≡ before
          ++ record { call = create_pull_request (pull_request p labels m); failure = none } ∷ [])

  open_pull_request-Opened :
      (h : History)
      → (open_pull_request ports p labels m h).0 ≡ ok tt
      → Opened (open_pull_request ports p labels m h).1
  unfolding open_pull_request
  open_pull_request-Opened h e =
      elim (Result-cases (ports.create_pull_request h (pull_request p labels m))) [
        | inl (x, f) ↦ absurd (ground (arith, f, e))
        | inr (url, f) ↦ (h, rw (f, open_pull_request))
      ]

  -- A chain ends with the opened pull request if its last action does.
  Opened-bind :
      {A : Type 0} (first : Exec A) (f : A → Exec (Unit {0})) (h : History)
      → ((a : A) (x : History) → (f a x).0 ≡ ok tt → Opened (f a x).1)
      → ((first >>= f) h).0 ≡ ok tt
      → Opened ((first >>= f) h).1
  Opened-bind first f h last e =
      let (a, i, j) = both_ok first f h e in
      rw j (last a (first h).1 (ap (λ (r : Result (Unit {0}) × History). r.0) (sym j) ∙ e))

  publish-Opened :
      (b : Bool) (h : History)
      → (publish ports p labels m b h).0 ≡ ok tt
      → Opened (publish ports p labels m b h).1
  unfolding publish
  publish-Opened false h e = absurd (ground arith)
  publish-Opened true h e =
      Opened-bind (commit_changes ports m)
        (λ _. push_branch ports p >>= λ _. open_pull_request ports p labels m) h
        (λ _ x.
          Opened-bind (push_branch ports p) (λ _. open_pull_request ports p labels m) x
            (λ _ y. open_pull_request-Opened y))
        e

  work-Opened :
      (root : Text) (h : History)
      → (work ports p labels m root h).0 ≡ ok tt
      → Opened (work ports p labels m root h).1
  unfolding work
  work-Opened root h e =
      Opened-bind (resolve_manifest_targets ports root p)
        (λ ms. switch_branch ports p >>= λ _.
          patch_all ports root p.event labels ms false >>= λ b. publish ports p labels m b)
        h
        (λ ms x.
          Opened-bind (switch_branch ports p)
            (λ _. patch_all ports root p.event labels ms false >>= λ b. publish ports p labels m b)
            x
            (λ _ y.
              Opened-bind (patch_all ports root p.event labels ms false)
                (λ b. publish ports p labels m b) y (λ b z. publish-Opened b z)))
        e

  closed-IsPublished :
      (act : Exec (Unit {0})) (h : History)
      → ((act h).0 ≡ ok tt → Opened (act h).1)
      → (close_after ports act h).0 ≡ ok tt
      → IsPublished p labels m (close_after ports act h).1
  unfolding close_after
  closed-IsPublished act h opened e =
      let (before, q) = opened e in
      record {
        before = before;
        request = pull_request p labels m;
        of_plan = pull_request-IsOf p labels m;
        closed = error_of (ports.close (act h).1);
        ends = rw q refl;
      }

  in_checkout-IsPublished :
      (h : History)
      → (in_checkout ports p labels m h).0 ≡ ok tt
      → IsPublished p labels m (in_checkout ports p labels m h).1
  unfolding in_checkout
  in_checkout-IsPublished h e = elim (Result-cases (ports.checkout h p.location.repository_url)) [
    | inl (x, f) ↦ absurd (ground (arith, f, e))
    | inr (root, f) ↦
        rw (f, in_checkout)
          (closed-IsPublished (work ports p labels m root) _ (work-Opened root _)
            (rw (f, in_checkout) at e))
  ]

  -- An update that ends without an error has opened, as its last call but one and with success, the
  -- pull request to its repository from its branch, with the rendered title and body and the actor of
  -- the build, if there is one, as only assignee and reviewer, and has then closed the working copy.
  pub apply_repository-IsPublished :
      (h : History)
      → (apply_repository ports p labels m h).0 ≡ ok tt
      → IsPublished p labels m (apply_repository ports p labels m h).1
  unfolding apply_repository
  apply_repository-IsPublished h e =
      let (u, i, j) =
        both_ok (ensure_no_open_pull_request ports p) (λ _. in_checkout ports p labels m) h e in
      rw j (
        in_checkout-IsPublished (ensure_no_open_pull_request ports p h).1
          (ap (λ (r : Result (Unit {0}) × History). r.0) (sym j) ∙ e))
