-- ===== src/Queue/Renewal.antt =====
-- internal/infrastructure/queue/sqs/source.go: `renewVisibility`. Times and durations count
-- nanoseconds from some start of the clock; a difference that is negative in the code is 0 here, where
-- the code does the same on both.
pub mod Bounds
pub mod Runs
use image_updater.Prelude.{
  ℕ, ◌+◌, ◌-◌, ◌*◌, ◌/◌, ◌≤◌, ◌<◌, ◌≡◌, refl, Bool, true, false, List, [], ◌∷◌, ltb, ◌==◌,
  if◌then◌else◌,
}

-- time.Second
abbrev pub second : ℕ
second = 1000000000

-- maxVisibilityRenewCallTimeout
abbrev pub max_visibility_renew_call_timeout : ℕ
max_visibility_renew_call_timeout = 5 * second

-- maxMessageVisibilityLifetime
abbrev pub max_message_visibility_lifetime : ℕ
max_message_visibility_lifetime = 43200 * second

-- visibilityLifetimeMargin
abbrev pub visibility_lifetime_margin : ℕ
visibility_lifetime_margin = second

-- min(a, b)
unfoldable pub min : ℕ → ℕ → ℕ
min a b = if ltb b a then b else a

-- d.Truncate(time.Second)
unfoldable pub truncate : ℕ → ℕ
truncate d = d / second * second

-- What the loop keeps: the lease that is configured, when it began, and when the current lease ends.
pub record Lease : Type 0 where
  pub configured : ℕ
  pub started_at : ℕ
  pub deadline : ℕ

-- retryDelay
unfoldable pub retry_delay : ℕ → ℕ
unfolding min
retry_delay configured = min second (configured / 2 / 4)

-- The lease that is asked for at a time.
unfoldable pub renewal_lease : Lease → ℕ → ℕ
unfolding min truncate
renewal_lease l now =
    min l.configured (
      truncate
        (max_message_visibility_lifetime - (now - l.started_at) - visibility_lifetime_margin))

-- What the call at a time may take.
unfoldable pub call_timeout : Lease → ℕ → ℕ
unfolding min retry_delay
call_timeout l now =
    let timeout = min max_visibility_renew_call_timeout ((l.deadline - now) / 2) in
    if timeout == 0 then retry_delay l.configured else timeout

-- The delay after a call that failed.
unfoldable pub delay_after_failure : Lease → ℕ → ℕ
unfolding min retry_delay
delay_after_failure l now =
    let retry = retry_delay l.configured in
    let remaining = l.deadline - now in
    let delay = if ltb 0 remaining then min retry (remaining / 2) else retry in
    if delay == 0 then retry else delay

-- A renewal that was asked for: the time, the number of seconds and the timeout.
pub record Renewal : Type 0 where
  pub at : ℕ
  pub seconds : ℕ
  pub timeout : ℕ

-- What the environment does in one round: whether the work had ended when the timer fired, the time
-- then, whether the work ended during the call, whether the call succeeded, and the time after it.
pub record Round : Type 0 where
  pub done_before : Bool
  pub now : ℕ
  pub done_after : Bool
  pub succeeded : Bool
  pub later : ℕ

-- One round of the loop: the renewal, and, if it goes on, the lease and the delay to the next.
pub data Next : Type 0 where
  stopped : Next
  last : Renewal → Next
  waits : Renewal → Lease → ℕ → Next

-- One pass through the body of the loop.
unfoldable pub round : Lease → Round → Next
unfolding renewal_lease call_timeout delay_after_failure
round l r =
    if r.done_before
    then stopped
    else let lease = renewal_lease l r.now in
      if ltb lease second
      then stopped
      else let renewal : Renewal = record {
        at = r.now;
        seconds = lease / second;
        timeout = call_timeout l r.now;
      } in
        if r.done_after
        then last renewal
        else if r.succeeded
        then waits renewal (record l { deadline = r.later + lease }) (lease / 2)
        else waits renewal l (delay_after_failure l r.later)

-- renewVisibility, on the rounds of a run: what was asked for.
unfoldable pub renewals : Lease → List Round → List Renewal
unfolding round
renewals l [] = []
renewals l (r ∷ rs) = elim (round l r) [
  | stopped ↦ []
  | last renewal ↦ renewal ∷ []
  | waits renewal next delay ↦ renewal ∷ renewals next rs
]

-- The lease that `renewVisibility` starts with.
abbrev pub leased : (seconds now : ℕ) → Lease
leased seconds now = record {
  configured = seconds * second;
  started_at = now;
  deadline = now + seconds * second;
}
