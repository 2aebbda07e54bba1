-- ===== src/Queue/Process/Deletes.antt =====
-- internal/infrastructure/queue/sqs/source.go: when a message is deleted.
use image_updater.Prelude.{
  ◌≡◌, ◌⊎◌, inl, inr, Bool-cases, refl, ap, ◌∙◌, Bool, true, false, List, [], ◌∷◌, ◌++◌,
  if◌then◌else◌, any,
}
use image_updater.Text.{Text, is_empty}
use image_updater.Model.Errors.{Error, Result, ok, err, is_retryable, Result-cases}
use image_updater.Model.Image.{ImagePushEvent}
use image_updater.Queue.Process.{
  Message, Action, start_heartbeat, stop_heartbeat, handle, delete_message, acknowledge,
  with_heartbeat, settle, process,
}

-- Whether an action deletes a message.
unfoldable pub is_deletion : Action → Bool
is_deletion (delete_message _) = true
is_deletion _ = false

-- Whether the event of a message was handled, and failed so that it is to be tried again.
pub IsLeft :
    (Text → Result ImagePushEvent) → (ImagePushEvent → Result (Unit {0})) → Message → Type 0
IsLeft decode answer m =
    (event : ImagePushEvent) × (e : Error) × (decode m.body ≡ ok event)
    × (answer event ≡ err e)
    × (is_retryable e ≡ true)

-- The message is deleted once, after all else and before the heartbeat is stopped.
pub IsDeleted : Message → List Action → Type 0
IsDeleted m actions =
    (before : List Action) × (actions
      ≡ start_heartbeat m.receipt_handle
        ∷ (before ++ delete_message m.receipt_handle ∷ stop_heartbeat m.receipt_handle ∷ []))
    × (any is_deletion before ≡ false)

module _ (decode : Text → Result ImagePushEvent) (answer : ImagePushEvent → Result (Unit {0}))
    (m : Message) (named : is_empty m.receipt_handle ≡ false) where
  IsDeleted-undecoded : {e : Error} → decode m.body ≡ err e → IsDeleted m (process decode answer m)
  unfolding IsDeleted process with_heartbeat acknowledge is_deletion
  IsDeleted-undecoded h = ([], rw (h, named) refl, refl)

  IsDeleted-handled :
      {event : ImagePushEvent}
      → decode m.body ≡ ok event
      → settle m.receipt_handle (answer event) ≡ delete_message m.receipt_handle ∷ []
      → IsDeleted m (process decode answer m)
  unfolding IsDeleted process with_heartbeat is_deletion
  IsDeleted-handled {event} h s = (handle event ∷ [], rw (h, named, s) refl, refl)

  left :
      {event : ImagePushEvent}
      → decode m.body ≡ ok event
      → settle m.receipt_handle (answer event) ≡ []
      → any is_deletion (process decode answer m) ≡ false
  unfolding process with_heartbeat is_deletion
  left h s = rw (h, named, s) refl

  settle-err :
      {event : ImagePushEvent} {e : Error}
      → answer event ≡ err e
      → settle m.receipt_handle (answer event)
        ≡ (if is_retryable e then [] else delete_message m.receipt_handle ∷ [])
  unfolding settle acknowledge
  settle-err h = rw (h, settle, named) refl

  settle-ok :
      {event : ImagePushEvent}
      → answer event ≡ ok tt
      → settle m.receipt_handle (answer event) ≡ delete_message m.receipt_handle ∷ []
  unfolding settle acknowledge
  settle-ok h = rw (h, settle, named) refl

  -- A message with a receipt handle is left in the queue exactly if its event was handled with an error
  -- that asks for another try. In every other case, also if it cannot be decoded, it is deleted, once,
  -- after the handler has answered and while its heartbeat runs.
  pub process-IsDeleted :
      (IsLeft decode answer m × (any is_deletion (process decode answer m) ≡ false))
      ⊎ ((¬ IsLeft decode answer m) × IsDeleted m (process decode answer m))
  unfolding IsLeft
  process-IsDeleted = elim (Result-cases (decode m.body)) [
    | inl (e, h) ↦ inr (λ (event, d, g, k, r). absurd (cc (h, g)), IsDeleted-undecoded h)
    | inr (event, h) ↦ elim (Result-cases (answer event)) [
      | inr (tt, k) ↦
          inr (λ (event', d, g, l, r). absurd (cc (h, g, k, l)), IsDeleted-handled h (settle-ok k))
      | inl (e, k) ↦ elim (Bool-cases (is_retryable e)) [
        | inl r ↦ inl (
          (event, e, h, k, r),
          left h
              (settle-err k ∙ ap (λ b. if b then [] else delete_message m.receipt_handle ∷ []) r),
        )
        | inr r ↦ inr (
          λ (event', d, g, l, s). absurd (cc (h, g, k, l, r, s)),
          IsDeleted-handled h
              (settle-err k ∙ ap (λ b. if b then [] else delete_message m.receipt_handle ∷ []) r),
        )
      ]
    ]
  ]
