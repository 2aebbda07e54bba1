-- ===== src/Updater/Apply/Outcome.antt =====
-- internal/application/updater/service.go: what the results of `apply` and `applyRepository` say.
use image_updater.Prelude.{
  any-append, ◌≡◌, refl, ◌∙◌, Bool, true, false, List, [], ◌∷◌, ◌++◌, inl, inr, arith, any, all,
  ◌||◌, ◌&&◌,
}
use image_updater.Text.{Text}
use image_updater.Model.Errors.{Error, wrap, Result, ok, err, is_retryable, is_ok, Result-cases}
use image_updater.Label.Labels.{ImageLabels}
use image_updater.Updater.Types.{RepositoryPlan}
use image_updater.Updater.Messages.{RenderedMessages}
use image_updater.Updater.Ports.{Ports, History}
use image_updater.Updater.Apply.{apply_repository}
use image_updater.Updater.Handle.{apply_all, join_errors}

-- A result that has to be tried again.
abbrev pub wants_retry : {A : Type 0} → Result A → Bool
wants_retry (ok a) = false
wants_retry (err e) = is_retryable e

-- The results of the repositories, each updated on the history that the one before it leaves.
pub outcomes :
    Ports
    → ImageLabels
    → List (RepositoryPlan × RenderedMessages)
    → History
    → List (Result (Unit {0}))
outcomes ports labels [] h = []
outcomes ports labels ((p, m) ∷ ms) h =
    (apply_repository ports p labels m h).0
    ∷ outcomes ports labels ms (apply_repository ports p labels m h).1

-- The calls behind which the repositories leave the history, when each of them is attempted in turn.
pub attempted : Ports → ImageLabels → List (RepositoryPlan × RenderedMessages) → History → History
attempted ports labels [] h = h
attempted ports labels ((p, m) ∷ ms) h =
    attempted ports labels ms (apply_repository ports p labels m h).1

-- Whatever the loop has gathered before, it attempts every repository.
apply_all-attempted :
    (ports : Ports) (labels : ImageLabels) (ms : List (RepositoryPlan × RenderedMessages))
    → (fs : List Error) (h : History)
    → (apply_all ports labels ms fs h).1 ≡ attempted ports labels ms h
unfolding apply_all attempted
apply_all-attempted ports labels [] fs h = refl
apply_all-attempted ports labels ((p, m) ∷ ms) fs h =
    apply_all-attempted ports labels ms _ (apply_repository ports p labels m h).1

wants_retry-join_errors : (es : List Error) → wants_retry (join_errors es) ≡ any is_retryable es
unfolding join_errors is_retryable
wants_retry-join_errors [] = refl
wants_retry-join_errors (e ∷ es) = elim (Result-cases (join_errors es)) [
  | inl (x, p) ↦ ground (arith, p, wants_retry-join_errors es)
  | inr (x, p) ↦ ground (arith, p, wants_retry-join_errors es)
]

is_ok-join_errors : (e : Error) (es : List Error) → is_ok (join_errors (e ∷ es)) ≡ false
unfolding join_errors
is_ok-join_errors e es = elim (Result-cases (join_errors es)) [
  | inl (x, p) ↦ rw p
  | inr (x, p) ↦ rw p
]

is_retryable-wrap : (vs : List Text) (e : Error) → is_retryable (wrap vs e) ≡ is_retryable e
unfolding is_retryable
is_retryable-wrap vs e = refl

-- The failures that the loop gathers tell which results want a retry, and whether there was one.
gathered_retry :
    (ports : Ports) (labels : ImageLabels) (ms : List (RepositoryPlan × RenderedMessages))
    → (fs : List Error) (h : History)
    → any is_retryable (apply_all ports labels ms fs h).0
      ≡ (any is_retryable fs || any wants_retry (outcomes ports labels ms h))
unfolding apply_all outcomes
gathered_retry ports labels [] fs h = ground arith
gathered_retry ports labels ((p, m) ∷ ms) fs h =
    elim (Result-cases (apply_repository ports p labels m h).0) [
      | inl (x, e) ↦ ground (
        arith,
        e,
        gathered_retry ports labels ms (fs ++ wrap (p.location.repository_url ∷ []) x ∷ [])
            (apply_repository ports p labels m h).1,
        any-append is_retryable fs (wrap (p.location.repository_url ∷ []) x ∷ []),
        is_retryable-wrap (p.location.repository_url ∷ []) x,
      )
      | inr (x, e) ↦
          ground
            (arith, e, gathered_retry ports labels ms fs (apply_repository ports p labels m h).1)
    ]

abbrev no_failure : List Error → Bool
no_failure [] = true
no_failure (e ∷ es) = false

no_failure-append : (es : List Error) (e : Error) → no_failure (es ++ e ∷ []) ≡ false
no_failure-append [] e = refl
no_failure-append (x ∷ es) e = refl

is_ok-join : (es : List Error) → is_ok (join_errors es) ≡ no_failure es
unfolding join_errors
is_ok-join [] = refl
is_ok-join (e ∷ es) = is_ok-join_errors e es

gathered_ok :
    (ports : Ports) (labels : ImageLabels) (ms : List (RepositoryPlan × RenderedMessages))
    → (fs : List Error) (h : History)
    → no_failure (apply_all ports labels ms fs h).0
      ≡ (no_failure fs && all is_ok (outcomes ports labels ms h))
unfolding apply_all outcomes
gathered_ok ports labels [] fs h = ground arith
gathered_ok ports labels ((p, m) ∷ ms) fs h =
    elim (Result-cases (apply_repository ports p labels m h).0) [
      | inl (x, e) ↦ ground (
        arith,
        e,
        gathered_ok ports labels ms (fs ++ wrap (p.location.repository_url ∷ []) x ∷ [])
            (apply_repository ports p labels m h).1,
        no_failure-append fs (wrap (p.location.repository_url ∷ []) x),
      )
      | inr (x, e) ↦
          ground (arith, e, gathered_ok ports labels ms fs (apply_repository ports p labels m h).1)
    ]

-- The calls that are made are those of every repository, attempted in turn behind the calls of the one
-- before, whatever that returned; the
-- joined result is a success exactly if every repository's is, and is to be retried exactly if some
-- repository's is.
pub apply_all-outcomes :
    (ports : Ports) (labels : ImageLabels) (ms : List (RepositoryPlan × RenderedMessages))
    → (h : History)
    → ((apply_all ports labels ms [] h).1 ≡ attempted ports labels ms h)
      × (is_ok (join_errors (apply_all ports labels ms [] h).0)
          ≡ all is_ok (outcomes ports labels ms h))
      × (wants_retry (join_errors (apply_all ports labels ms [] h).0)
          ≡ any wants_retry (outcomes ports labels ms h))
apply_all-outcomes ports labels ms h = (
  apply_all-attempted ports labels ms [] h,
  is_ok-join (apply_all ports labels ms [] h).0 ∙ gathered_ok ports labels ms [] h,
  wants_retry-join_errors (apply_all ports labels ms [] h).0 ∙ gathered_retry ports labels ms [] h,
)
