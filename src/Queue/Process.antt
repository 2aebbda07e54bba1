-- ===== src/Queue/Process.antt =====
-- internal/infrastructure/queue/sqs/source.go: `process`, `acknowledge`,
-- `startVisibilityHeartbeat` and the loop of `Run`.
pub mod Deletes
use image_updater.Prelude.{
  Bool, true, false, not, List, [], ◌∷◌, ◌++◌, Option, none, some, if◌then◌else◌,
}
use image_updater.Text.{Text, is_empty}
use image_updater.Model.Errors.{plain, Result, ok, err, is_retryable}
use image_updater.Model.Image.{ImagePushEvent}

-- types.Message; a field that is nil is empty, as `aws.ToString` reads it
pub record Message : Type 0 where
  pub message_id : Text
  pub receipt_handle : Text
  pub body : Text

-- What the source does with one message.
pub data Action : Type 0 where
  start_heartbeat : Text → Action
  stop_heartbeat : Text → Action
  handle : ImagePushEvent → Action
  delete_message : Text → Action

-- Source.acknowledge; a deletion that fails is only logged
unfoldable pub acknowledge : Text → List Action
unfolding is_empty
acknowledge receipt_handle =
    if is_empty receipt_handle then [] else delete_message receipt_handle ∷ []

-- Source.startVisibilityHeartbeat, around what is done while the heartbeat runs
unfoldable pub with_heartbeat : Text → List Action → List Action
unfolding is_empty
with_heartbeat receipt_handle actions =
    if is_empty receipt_handle
    then actions
    else start_heartbeat receipt_handle ∷ (actions ++ stop_heartbeat receipt_handle ∷ [])

-- What follows the handler's answer.
unfoldable pub settle : Text → Result (Unit {0}) → List Action
unfolding acknowledge is_retryable
settle receipt_handle (ok _) = acknowledge receipt_handle
settle receipt_handle (err e) = if is_retryable e then [] else acknowledge receipt_handle

-- Source.process, with the decoder and the handler's answer
unfoldable pub process :
    (Text → Result ImagePushEvent) → (ImagePushEvent → Result (Unit {0})) → Message → List Action
unfolding acknowledge with_heartbeat settle
process decode answer m = with_heartbeat m.receipt_handle (elim (decode m.body) [
  | err e ↦ acknowledge m.receipt_handle
  | ok event ↦ handle event ∷ settle m.receipt_handle (answer event)
])

-- One pass of the loop: whether the source was stopped before it, what the queue returned, whether
-- the source was stopped meanwhile, and whether it was stopped in the pause.
pub record Poll : Type 0 where
  pub stopped_before : Bool
  pub received : Option (List Message)
  pub stopped_meanwhile : Bool
  pub stopped_in_pause : Bool

-- A batch is dispatched if it has a message.
unfoldable pub dispatched : List Message → List (List Message)
dispatched [] = []
dispatched (m ∷ ms) = (m ∷ ms) ∷ []

-- Source.Run, on what happens: the batches that are dispatched. A handler that is nil is `none`.
unfoldable pub poll_all : List Poll → List (List Message)
unfolding dispatched
poll_all [] = []
poll_all (p ∷ ps) =
    let rest = poll_all ps in
    if p.stopped_before then [] else elim p.received [
      | none ↦ if p.stopped_meanwhile then [] else if p.stopped_in_pause then [] else rest
      | some ms ↦ if p.stopped_in_pause then dispatched ms else dispatched ms ++ rest
    ]

unfoldable pub run :
    Option (ImagePushEvent → Result (Unit {0})) → List Poll → Result (List (List Message))
unfolding poll_all
run none polls = err (plain [])
run (some handler) polls = ok (poll_all polls)
