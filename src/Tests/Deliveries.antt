-- ===== src/Tests/Deliveries.antt =====
-- A message whose event is handled by the service.
use image_updater.Prelude.{some, ◌≡◌, refl, false, not, [], ◌∷◌, any}
use image_updater.Text.{Text, codes, is_empty}
use image_updater.Model.Errors.{plain, Result, ok}
use image_updater.Model.Image.{ImagePushEvent, reference}
use image_updater.Label.Labels.{no_labels}
use image_updater.Updater.Ports.{History, read_metadata}
use image_updater.Updater.Handle.{image_labels, render_all}
use image_updater.Updater.Apply.Outcome.{wants_retry, outcomes}
use image_updater.Queue.Process.{Message}
use image_updater.Queue.Process.Deletes.{is_deletion}
use image_updater.Queue.Delivery.{deliver, deliver-outcomes}
use image_updater.Tests.World.{pushed_image}
use image_updater.Tests.Plans.{demo_planner, demo_plan, planned}
use image_updater.Tests.Updates.{late_ports, both, demo_service}

abbrev message : Message
message = record { message_id = codes "m"; receipt_handle = codes "r"; body = codes "body" }

named : is_empty message.receipt_handle ≡ false
unfolding is_empty
named = refl

-- A decoder that reads one event.
abbrev decoder : Text → Result ImagePushEvent
decoder body = ok pushed_image

-- The one call, for the labels of the image, fails.
abbrev labels_read : History
labels_read =
    record { call = read_metadata (reference pushed_image); failure = some (plain []) } ∷ []

labelled : image_labels (demo_service late_ports) pushed_image [] ≡ (ok no_labels, labels_read)
unfolding image_labels demo_planner reference
labelled = refl

all_rendered : render_all (demo_service late_ports) no_labels demo_plan.repositories ≡ ok both
unfolding render_all demo_planner
all_rendered = refl

deliver-outcomes_example :
    any is_deletion (deliver decoder (demo_service late_ports) [] message)
    ≡ not (any wants_retry (outcomes late_ports no_labels both labels_read))
deliver-outcomes_example =
    deliver-outcomes decoder (demo_service late_ports) [] labels_read message named refl planned
      labelled all_rendered
