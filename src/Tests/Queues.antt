-- ===== src/Tests/Queues.antt =====
-- Runs of the queue source.
use image_updater.Prelude.{
  ◌+◌, ◌-◌, ◌*◌, ◌≡◌, ◌≤◌, ◌⊎◌, ◌↔◌, refl, true, false, [], ◌∷◌, some, any, length, arith, pos,
}
use image_updater.Text.{codes, is_empty}
use image_updater.Model.Errors.{sentinel, retry, ok, err, is_ok}
use image_updater.Model.Image.{ImagePushEvent}
use image_updater.Queue.Config.{Config, Source, apply_defaults, new_source}
use image_updater.Queue.Config.Bounds.{IsValid, IsReady, HasBatch, new_source-IsValid}
use image_updater.Queue.Renewal.{
  second, max_message_visibility_lifetime, Lease, Renewal, Round, leased, renewals, round, waits,
}
use image_updater.Queue.Renewal.Bounds.{GoesOn}
use image_updater.Queue.Renewal.Runs.{AllFit, round-GoesOn, renewals-AllFit, Timed, length-renewals}
use image_updater.Queue.Process.{Message, process}
use image_updater.Queue.Process.Deletes.{IsLeft, IsDeleted, is_deletion, process-IsDeleted}

abbrev given : Config
given = record {
  queue_url = codes "https://sqs";
  max_messages = pos 0;
  visibility_timeout = pos 30;
  wait_time = pos 0;
  concurrency = pos 4;
  poll_interval = pos 0;
}

new_source-IsValid_example :
    (is_ok (new_source (some tt) (some tt) given) ≡ true ↔ IsValid given)
    × ((s : Source Unit Unit)
        → new_source (some tt) (some tt) given ≡ ok s
        → (s.config ≡ apply_defaults given) × IsReady s.config × HasBatch s.config)
new_source-IsValid_example = new_source-IsValid tt tt given

-- A renewal that succeeds, and one that fails when the lease has two seconds left.
abbrev good : Round
good = record {
  done_before = false;
  now = 10 * second;
  done_after = false;
  succeeded = true;
  later = 11 * second;
}

abbrev bad : Round
bad = record good { now = 21 * second; succeeded = false; later = 29 * second }

abbrev lease : Lease
lease = leased 20 0

renewals-AllFit_example : AllFit lease (renewals lease (good ∷ bad ∷ []))
renewals-AllFit_example = renewals-AllFit lease (good ∷ bad ∷ []) (omega arith)

abbrev renewal : Renewal
renewal = record { at = 10 * second; seconds = 20; timeout = 5 * second }

abbrev renewed : Lease
renewed = record lease { deadline = 31 * second }

goes_on : round lease good ≡ waits renewal renewed (10 * second)
unfolding round
goes_on = refl

round-GoesOn_example : GoesOn lease good renewal renewed (10 * second)
round-GoesOn_example = round-GoesOn lease good (omega arith) goes_on

timed : Timed lease (10 * second) (good ∷ [])
unfolding Timed
timed = (omega arith, omega arith, λ r next delay e. tt)

length-renewals_example :
    length (renewals lease (good ∷ []))
    ≤ lease.started_at + max_message_visibility_lifetime - 10 * second
length-renewals_example = length-renewals lease (10 * second) (good ∷ []) (omega arith) timed

abbrev message : Message
message = record { message_id = codes "m"; receipt_handle = codes "r"; body = codes "body" }

abbrev pushed : ImagePushEvent
pushed = record {
  kind = codes "ecr";
  host = codes "h";
  repository = codes "acme/api";
  tag = codes "v1";
  digest = [];
}

named : is_empty message.receipt_handle ≡ false
unfolding is_empty
named = refl

process-IsDeleted_example :
    (IsLeft (λ b. ok pushed) (λ e. err (sentinel retry)) message
      × (any is_deletion (process (λ b. ok pushed) (λ e. err (sentinel retry)) message) ≡ false))
    ⊎ ((¬ IsLeft (λ b. ok pushed) (λ e. err (sentinel retry)) message)
        × IsDeleted message (process (λ b. ok pushed) (λ e. err (sentinel retry)) message))
process-IsDeleted_example =
    process-IsDeleted (λ b. ok pushed) (λ e. err (sentinel retry)) message named
