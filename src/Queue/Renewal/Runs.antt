-- ===== src/Queue/Renewal/Runs.antt =====
-- internal/infrastructure/queue/sqs/source.go: whole runs of `renewVisibility`.
use image_updater.Prelude.{
  ℕ, ◌+◌, ◌-◌, ◌≤◌, ◌≡◌, sym, ap, subst, ◌∙◌, List, [], ◌∷◌, arith, inl, inr, ◌⊎◌, length, refl,
}
use image_updater.Queue.Renewal.{
  max_message_visibility_lifetime, second, Lease, Renewal, Round, Next, round, renewals, stopped,
  last, waits,
}
use image_updater.Queue.Renewal.Bounds.{Fits, GoesOn, RoundFits, round-RoundFits}

Next-cases :
    (n : Next)
    → (n ≡ stopped)
      ⊎ (((r : Renewal) × (n ≡ last r))
          ⊎ ((r : Renewal) × (l : Lease) × (delay : ℕ) × (n ≡ waits r l delay)))
Next-cases stopped = inl refl
Next-cases (last r) = inr (inl (r, refl))
Next-cases (waits r l delay) = inr (inr (r, l, delay, refl))

-- Every renewal fits.
pub AllFit : Lease → List Renewal → Type 0
AllFit l [] = Unit
AllFit l (r ∷ rs) = Fits l r × AllFit l rs

Fits-same :
    (k l : Lease) (r : Renewal)
    → k.configured ≡ l.configured
    → k.started_at ≡ l.started_at
    → Fits k r
    → Fits l r
unfolding Fits
Fits-same k l r e f (a, b, c, t, u) = (a, omega (arith, b, e), omega (arith, c, f), t, u)

AllFit-same :
    (k l : Lease) (rs : List Renewal)
    → k.configured ≡ l.configured
    → k.started_at ≡ l.started_at
    → AllFit k rs
    → AllFit l rs
unfolding AllFit
AllFit-same k l [] e f a = tt
AllFit-same k l (r ∷ rs) e f (a, b) = (Fits-same k l r e f a, AllFit-same k l rs e f b)

-- A round that goes on has asked for a renewal within the lease and the lifetime; it waits, and where
-- the lease that it has lasts for two nanoseconds more, it wakes before the lease has run out, with
-- half of the rest left.
pub round-GoesOn :
    (l : Lease) (r : Round) {renewal : Renewal} {next : Lease} {delay : ℕ}
    → second ≤ l.configured
    → round l r ≡ waits renewal next delay
    → GoesOn l r renewal next delay
unfolding RoundFits
round-GoesOn l r h e = subst (RoundFits l r) e (round-RoundFits l r h)

round-last :
    (l : Lease) (r : Round) {renewal : Renewal}
    → second ≤ l.configured
    → round l r ≡ last renewal
    → Fits l renewal × (renewal.at ≡ r.now)
unfolding RoundFits
round-last l r h e = subst (RoundFits l r) e (round-RoundFits l r h)

-- What a run asks for after its first round.
after_round : Next → List Round → List Renewal
after_round stopped rounds = []
after_round (last renewal) rounds = renewal ∷ []
after_round (waits renewal next delay) rounds = renewal ∷ renewals next rounds

renewals-cons :
    (l : Lease) (r : Round) (rounds : List Round)
    → renewals l (r ∷ rounds) ≡ after_round (round l r) rounds
unfolding renewals after_round
renewals-cons l r rounds = go (round l r)
  where
    go :
        (n : Next)
        → elim n [
          | stopped ↦ []
          | last renewal ↦ renewal ∷ []
          | waits renewal next delay ↦ renewal ∷ renewals next rounds
        ]
          ≡ after_round n rounds
    go stopped = refl
    go (last renewal) = refl
    go (waits renewal next delay) = refl

renewals-next :
    (l : Lease) (r : Round) (rounds : List Round) {n : Next}
    → round l r ≡ n
    → renewals l (r ∷ rounds) ≡ after_round n rounds
renewals-next l r rounds e = renewals-cons l r rounds ∙ ap (λ n. after_round n rounds) e

-- Every renewal of a run asks for a second at least and for no more than the lease that is configured,
-- its call may take up to five seconds, and the lease that it asks for ends at least a second within the
-- lifetime of the message, counted from the start.
pub renewals-AllFit :
    (l : Lease) (rounds : List Round) → second ≤ l.configured → AllFit l (renewals l rounds)
unfolding renewals AllFit GoesOn after_round
renewals-AllFit l [] h = tt
renewals-AllFit l (r ∷ rounds) h = elim (Next-cases (round l r)) [
  | inl e ↦ subst (AllFit l) (sym (renewals-next l r rounds e)) tt
  | inr (inl (renewal, e)) ↦
      subst (AllFit l) (sym (renewals-next l r rounds e)) ((round-last l r h e).0, tt)
  | inr (inr (renewal, next, delay, e)) ↦
      let (fit, at, same, started, p, q) = round-GoesOn l r h e in
      subst (AllFit l) (sym (renewals-next l r rounds e)) (
        fit,
        AllFit-same next l (renewals next rounds) same started
            (renewals-AllFit next rounds (omega (arith, same, h))),
      )
]

-- A clock that goes on: no timer fires before its time, and no call returns before it was made.
unfoldable pub Timed : Lease → ℕ → List Round → Type 0
Timed l t [] = Unit
Timed l t (r ∷ rounds) =
    (t ≤ r.now)
    × (r.now ≤ r.later)
    × ((renewal : Renewal) (next : Lease) (delay : ℕ)
        → round l r ≡ waits renewal next delay
        → Timed next (r.later + delay) rounds)

-- A run that starts at some time ends, whatever the calls return: every renewal takes one of the
-- nanoseconds that are left of the lifetime of the message.
pub length-renewals :
    (l : Lease) (t : ℕ) (rounds : List Round)
    → second ≤ l.configured
    → Timed l t rounds
    → length (renewals l rounds) ≤ l.started_at + max_message_visibility_lifetime - t
unfolding Timed GoesOn Fits renewals after_round
length-renewals l t [] h timed = omega arith
length-renewals l t (r ∷ rounds) h (woken, called, later) = elim (Next-cases (round l r)) [
  | inl e ↦ omega (arith, ap length (renewals-next l r rounds e))
  | inr (inl (renewal, e)) ↦
      let ((a, b, c, d, f), at) = round-last l r h e in
      omega (arith, ap length (renewals-next l r rounds e), at, woken, c)
  | inr (inr (renewal, next, delay, e)) ↦
      let ((a, b, c, d, f), at, same, started, p, q) = round-GoesOn l r h e in
      let rest =
        length-renewals next (r.later + delay) rounds (omega (arith, same, h))
          (later renewal next delay e) in
      omega (arith, ap length (renewals-next l r rounds e), rest, started, at, woken, called, c, p)
]
