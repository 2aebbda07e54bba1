-- ===== src/Queue/Delivery.antt =====
-- internal/infrastructure/queue/sqs/source.go with internal/application/updater/service.go: a message
-- that is handled by the service.
use image_updater.Prelude.{
  ◌≡◌, refl, ap, ◌∙◌, false, not, List, [], ◌∷◌, inl, inr, Bool-cases, ◌++◌, any,
}
use image_updater.Text.{Text, is_empty}
use image_updater.Model.Errors.{Result, ok, err, is_retryable}
use image_updater.Model.Image.{ImagePushEvent}
use image_updater.Label.Labels.{ImageLabels}
use image_updater.Updater.Types.{RepositoryPlan, EventPlan}
use image_updater.Updater.Messages.{RenderedMessages}
use image_updater.Updater.Ports.{History}
use image_updater.Updater.Plan.{plan}
use image_updater.Updater.Handle.{
  Service, image_labels, render_all, apply_all, join_errors, apply, handle,
}
use image_updater.Updater.Apply.Outcome.{wants_retry, outcomes, apply_all-outcomes}
use image_updater.Queue.Process.{
  stop_heartbeat, Message, Action, process, settle, acknowledge, with_heartbeat,
}
use image_updater.Queue.Process.Deletes.{is_deletion}

-- What the source does with a message, with a decoder and the service at some history.
unfoldable pub deliver : (Text → Result ImagePushEvent) → Service → History → Message → List Action
unfolding process handle
deliver decode s h m = process decode (λ event. (handle s event h).0) m

deletes-settle :
    (receipt_handle : Text) (r : Result (Unit {0}))
    → is_empty receipt_handle ≡ false
    → any is_deletion (settle receipt_handle r ++ stop_heartbeat receipt_handle ∷ [])
      ≡ not (wants_retry r)
unfolding settle acknowledge is_deletion
deletes-settle receipt_handle (ok _) named = rw (named, settle) refl
deletes-settle receipt_handle (err e) named = elim (Bool-cases (is_retryable e)) [
  | inl r ↦ rw (r, settle) refl
  | inr r ↦ rw (r, named, settle) refl
]

-- A decoded message is deleted exactly if the handler does not ask for a retry.
process-decoded :
    (decode : Text → Result ImagePushEvent) (answer : ImagePushEvent → Result (Unit {0}))
    (m : Message)
    → {event : ImagePushEvent} → is_empty m.receipt_handle ≡ false
    → decode m.body ≡ ok event
    → any is_deletion (process decode answer m) ≡ not (wants_retry (answer event))
unfolding process with_heartbeat is_deletion
process-decoded decode answer m {event} named decoded =
    rw (decoded, named) (deletes-settle m.receipt_handle (answer event) named)

-- The result of a planned and rendered event is that of its repositories.
handle-planned :
    (s : Service) (event : ImagePushEvent) (h h' : History)
    → {p : EventPlan} {labels : ImageLabels} {messages : List (RepositoryPlan × RenderedMessages)}
    → plan s.planner event ≡ ok p
    → image_labels s p.event h ≡ (ok labels, h')
    → render_all s labels p.repositories ≡ ok messages
    → (handle s event h).0 ≡ join_errors (apply_all s.ports labels messages [] h').0
unfolding handle apply
handle-planned s event h h' {p} {labels} {messages} planned labelled rendered =
    rw (planned, handle)
      (rw (labelled, apply)
        (ap
          (λ r.
            (elim r as (λ x. Result (Unit {0}) × History) [
              | err e ↦ (err e, h')
              | ok messages ↦ (
                join_errors (apply_all s.ports labels messages [] h').0,
                (apply_all s.ports labels messages [] h').1,
              )
            ]).0)
          rendered))

-- A message whose event is decoded, planned and rendered is deleted exactly if none of the repositories
-- of the plan, each updated on the calls of the one before, ends with an error that asks for a retry.
pub deliver-outcomes :
    (decode : Text → Result ImagePushEvent) (s : Service) (h h' : History) (m : Message)
    → {event : ImagePushEvent}
    → {p : EventPlan} {labels : ImageLabels} {messages : List (RepositoryPlan × RenderedMessages)}
    → is_empty m.receipt_handle ≡ false
    → decode m.body ≡ ok event
    → plan s.planner event ≡ ok p
    → image_labels s p.event h ≡ (ok labels, h')
    → render_all s labels p.repositories ≡ ok messages
    → any is_deletion (deliver decode s h m)
      ≡ not (any wants_retry (outcomes s.ports labels messages h'))
unfolding deliver
deliver-outcomes decode s h h' m {event} {p} {labels} {messages} named decoded planned labelled
      rendered =
    process-decoded decode (λ event. (handle s event h).0) m named decoded
    ∙ ap (λ r. not (wants_retry r)) (handle-planned s event h h' planned labelled rendered)
    ∙ ap not (apply_all-outcomes s.ports labels messages h').2
