-- ===== src/Queue/Renewal/Bounds.antt =====
-- internal/infrastructure/queue/sqs/source.go: the bounds of the renewals and of the delays.
use image_updater.Prelude.{ℕ, ◌+◌, ◌-◌, ◌*◌, ◌/◌, ◌≤◌, ◌≡◌, refl, ltb, arith, inl, inr, Bool-cases}
use image_updater.Queue.Renewal.{
  max_message_visibility_lifetime, visibility_lifetime_margin, max_visibility_renew_call_timeout,
  second, min, truncate, Lease, Renewal, Round, Next, retry_delay, renewal_lease, call_timeout,
  delay_after_failure, round, stopped, last, waits,
}

min-le : (a b : ℕ) → (min a b ≤ a) × (min a b ≤ b)
unfolding min
min-le a b = (ground arith, ground arith)

truncate-le : (d : ℕ) → truncate d ≤ d
unfolding truncate
truncate-le d = omega arith

seconds-le : (d : ℕ) → d / second * second ≤ d
seconds-le d = omega arith

retry_delay-bounds : (c : ℕ) → second ≤ c → (1 ≤ retry_delay c) × (retry_delay c ≤ second)
unfolding retry_delay min
retry_delay-bounds c h = (ground (arith, h), ground (arith, h))

renewal_lease-bounds :
    (l : Lease) (now : ℕ)
    → second ≤ renewal_lease l now
    → (1 ≤ renewal_lease l now / second)
      × (renewal_lease l now / second * second ≤ l.configured)
      × (now + renewal_lease l now / second * second + visibility_lifetime_margin
          ≤ l.started_at + max_message_visibility_lifetime)
unfolding renewal_lease
renewal_lease-bounds l now h =
    let left =
      max_message_visibility_lifetime - (now - l.started_at) - visibility_lifetime_margin in
    let (a, b) = min-le l.configured (truncate left) in
    (
      omega (arith, h),
      omega (arith, seconds-le (min l.configured (truncate left)), a),
      omega (arith, seconds-le (min l.configured (truncate left)), b, truncate-le left, h),
    )

call_timeout-bounds :
    (l : Lease) (now : ℕ)
    → second ≤ l.configured
    → (1 ≤ call_timeout l now) × (call_timeout l now ≤ max_visibility_renew_call_timeout)
unfolding call_timeout
call_timeout-bounds l now h =
    let (a, b) = min-le max_visibility_renew_call_timeout ((l.deadline - now) / 2) in
    let (c, d) = retry_delay-bounds l.configured h in
    (ground (arith, a, b, c, d), ground (arith, a, b, c, d))

delay_after_failure-bounds :
    (l : Lease) (now : ℕ)
    → second ≤ l.configured
    → (1 ≤ delay_after_failure l now)
      × (now + 2 ≤ l.deadline → 2 * delay_after_failure l now ≤ l.deadline - now)
unfolding delay_after_failure min
delay_after_failure-bounds l now h =
    let (c, d) = retry_delay-bounds l.configured h in
    (ground (arith, c, d), λ e. ground (arith, c, d, e))

-- A renewal that stays within a lease and within the lifetime of a message.
unfoldable pub Fits : Lease → Renewal → Type 0
Fits l r =
    (1 ≤ r.seconds)
    × (r.seconds * second ≤ l.configured)
    × (r.at + r.seconds * second + visibility_lifetime_margin
        ≤ l.started_at + max_message_visibility_lifetime)
    × (1 ≤ r.timeout)
    × (r.timeout ≤ max_visibility_renew_call_timeout)

-- What is known of the round that goes on.
unfoldable pub GoesOn : Lease → Round → Renewal → Lease → ℕ → Type 0
GoesOn l r renewal next delay =
    Fits l renewal
    × (renewal.at ≡ r.now)
    × (next.configured ≡ l.configured)
    × (next.started_at ≡ l.started_at)
    × (1 ≤ delay)
    × (r.later + 2 ≤ next.deadline → r.later + 2 * delay ≤ next.deadline)

-- What is known of a round.
unfoldable pub RoundFits : Lease → Round → Next → Type 0
RoundFits l r stopped = Unit
RoundFits l r (last renewal) = Fits l renewal × (renewal.at ≡ r.now)
RoundFits l r (waits renewal next delay) = GoesOn l r renewal next delay

pub round-RoundFits : (l : Lease) (r : Round) → second ≤ l.configured → RoundFits l r (round l r)
unfolding RoundFits round GoesOn Fits
round-RoundFits l r h = elim (Bool-cases r.done_before) [
  | inl e ↦ rw e tt
  | inr e ↦ elim (Bool-cases (ltb (renewal_lease l r.now) second)) [
    | inl k ↦ rw (e, k) tt
    | inr k ↦
        let (a, b, c) = renewal_lease-bounds l r.now (ground (arith, k)) in
        let (t, u) = call_timeout-bounds l r.now h in
        elim (Bool-cases r.done_after) [
          | inl f ↦ rw (e, k, f) ((a, b, c, t, u), refl)
          | inr f ↦ elim (Bool-cases r.succeeded) [
            | inl g ↦
                rw (e, k, f, g)
                  ((a, b, c, t, u), refl, refl, refl, ground (arith, k), λ _. omega arith)
            | inr g ↦
                let (p, q) = delay_after_failure-bounds l r.later h in
                rw (e, k, f, g) ((a, b, c, t, u), refl, refl, refl, p, λ z. omega (arith, q z, z))
          ]
        ]
  ]
]
