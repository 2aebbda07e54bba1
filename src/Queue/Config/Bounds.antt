-- ===== src/Queue/Config/Bounds.antt =====
-- internal/infrastructure/queue/sqs/source.go: what `NewSource` accepts.
use image_updater.Prelude.{
  ℕ, ◌≤◌, ◌≡◌, ◌⊎◌, ◌↔◌, inl, inr, Bool-cases, subst, refl, sym, ap, ◌∙◌, Bool, true, false, some,
  if◌then◌else◌, ℤ, pos, negsuc, is_negative, is_at_most_zero, is_above, ltb, arith,
}
use image_updater.Text.{is_empty}
use image_updater.Model.Errors.{Result, ok, err, is_ok, Error, ok-injective}
use image_updater.Queue.Config.{
  Config, or_default, apply_defaults, Source, has_negative, check_limits, new_source, smaller,
  batch_limit, default_max_messages, default_visibility_timeout, default_wait_time,
  default_concurrency,
}

-- A number from one bound to another.
pub Between : ℕ → ℕ → ℤ → Type 0
Between least most z = (n : ℕ) × (z ≡ pos n) × (least ≤ n) × (n ≤ most)

-- What may be configured: a field that is 0 takes its default.
pub IsValid : Config → Type 0
IsValid c =
    (is_empty c.queue_url ≡ false)
    × Between 0 10 c.max_messages
    × Between 0 43200 c.visibility_timeout
    × Between 0 20 c.wait_time
    × Between 0 10 c.concurrency
    × (is_negative c.poll_interval ≡ false)

-- What the source runs with.
pub IsReady : Config → Type 0
IsReady c =
    (is_empty c.queue_url ≡ false)
    × Between 1 10 c.max_messages
    × Between 1 43200 c.visibility_timeout
    × Between 1 20 c.wait_time
    × Between 1 10 c.concurrency
    × (is_negative c.poll_interval ≡ false)

-- What is known of a field when every check has passed, with the field as it was given.
Between-or_default :
    (limit default : ℕ) (z : ℤ)
    → 1 ≤ default
    → default ≤ limit
    → is_negative z ≡ false
    → is_above limit (or_default (pos default) z) ≡ false
    → Between 0 limit z × Between 1 limit (or_default (pos default) z)
unfolding Between or_default is_at_most_zero is_above is_negative
Between-or_default limit default (negsuc n) a b h k = absurd (cc h)
Between-or_default limit default (pos n) a b h k = elim (Bool-cases (ltb n 1)) [
  | inl e ↦ ((n, refl, omega arith, ground (arith, e, a, b)), (default, rw e refl, a, b))
  | inr e ↦ (
    (n, refl, omega arith, ground (arith, e, k)),
    (n, rw e refl, ground (arith, e), ground (arith, e, k)),
  )
]

-- A field that may be configured passes the checks.
Between-passes :
    (limit default : ℕ) (z : ℤ)
    → default ≤ limit
    → Between 0 limit z
    → (is_negative z ≡ false) × (is_above limit (or_default (pos default) z) ≡ false)
unfolding Between or_default is_at_most_zero is_above is_negative
Between-passes limit default (negsuc n) b (m, e, l, u) = absurd (cc e)
Between-passes limit default (pos n) b (m, e, l, u) = (refl, ground (arith, ap magnitude e))
  where
    magnitude : ℤ → ℕ
    magnitude (pos n) = n
    magnitude (negsuc n) = n

-- A check that did not end the run.
else-ok :
    {X : Type 0} (b : Bool) (e : Error) (r : Result X)
    → is_ok (if b then err e else r) ≡ true
    → (b ≡ false) × (is_ok r ≡ true)
else-ok true e r h = absurd (cc h)
else-ok false e r h = (refl, h)

negatives :
    (c : Config)
    → has_negative c ≡ false
    → (is_negative c.max_messages ≡ false)
      × (is_negative c.visibility_timeout ≡ false)
      × (is_negative c.wait_time ≡ false)
      × (is_negative c.concurrency ≡ false)
      × (is_negative c.poll_interval ≡ false)
unfolding has_negative
negatives c h =
    (ground (arith, h), ground (arith, h), ground (arith, h), ground (arith, h), ground (arith, h))

-- A batch has a message at least, and no more than are handled at once.
pub HasBatch : Config → Type 0
HasBatch c =
    (n : ℕ) × (k : ℕ) × (batch_limit c ≡ pos n) × (c.concurrency ≡ pos k) × (1 ≤ n) × (n ≤ k)

smaller-pos :
    (m n : ℕ)
    → (k : ℕ) × (smaller (pos m) (pos n) ≡ pos k) × (k ≤ m) × (k ≤ n) × ((k ≡ m) ⊎ (k ≡ n))
unfolding smaller
smaller-pos m n = elim (Bool-cases (ltb n m)) [
  | inl e ↦ (n, rw e refl, ground (arith, e), omega arith, inr refl)
  | inr e ↦ (m, rw e refl, omega arith, ground (arith, e), inl refl)
]

IsReady-HasBatch : (c : Config) → IsReady c → HasBatch c
unfolding IsReady HasBatch Between batch_limit
IsReady-HasBatch c (url, (m, e, m1, m10), v, w, (n, f, n1, n10), p) =
    let (k, g, k_m, k_n, which) = smaller-pos m n in
    (k, n, ap (λ z. smaller z c.concurrency) e ∙ ap (smaller (pos m)) f ∙ g, f, least which, k_n)
  where
    least : {k : ℕ} → (k ≡ m) ⊎ (k ≡ n) → 1 ≤ k
    least (inl e) = omega (arith, e, m1)
    least (inr e) = omega (arith, e, n1)

module _ {A D : Type 0} (api : A) (decoder : D) (c : Config) where
  -- The checks of `NewSource`, one by one.
  Passes : Type 0
  Passes =
      (is_empty c.queue_url ≡ false)
      × (is_negative c.max_messages ≡ false)
      × (is_negative c.visibility_timeout ≡ false)
      × (is_negative c.wait_time ≡ false)
      × (is_negative c.concurrency ≡ false)
      × (is_negative c.poll_interval ≡ false)
      × (is_above 10 (or_default default_max_messages c.max_messages) ≡ false)
      × (is_above 43200 (or_default default_visibility_timeout c.visibility_timeout) ≡ false)
      × (is_above 20 (or_default default_wait_time c.wait_time) ≡ false)
      × (is_above 10 (or_default default_concurrency c.concurrency) ≡ false)

  ok-Passes : is_ok (new_source (some api) (some decoder) c) ≡ true → Passes
  unfolding Passes new_source has_negative check_limits apply_defaults
  ok-Passes h =
      let (url, h₁) = else-ok (is_empty c.queue_url) _ _ h in
      let (signs, h₂) = else-ok (has_negative c) _ _ h₁ in
      let (max, h₃) =
        else-ok (is_above 10 (or_default default_max_messages c.max_messages)) _ _ h₂ in
      let (visibility, h₄) =
        else-ok (is_above 43200 (or_default default_visibility_timeout c.visibility_timeout)) _ _
          h₃ in
      let (wait, h₅) = else-ok (is_above 20 (or_default default_wait_time c.wait_time)) _ _ h₄ in
      let (concurrent, h₆) =
        else-ok (is_above 10 (or_default default_concurrency c.concurrency)) _ _ h₅ in
      let (s₁, s₂, s₃, s₄, s₅) = negatives c signs in
      (url, s₁, s₂, s₃, s₄, s₅, max, visibility, wait, concurrent)

  Passes-new_source :
      Passes
      → new_source (some api) (some decoder) c
        ≡ ok (record { api = api; decoder = decoder; config = apply_defaults c })
  unfolding Passes new_source has_negative check_limits apply_defaults
  Passes-new_source (a, b, d, e, f, g, h, i, j, k) = rw (a, b, d, e, f, g, h, i, j, k)

  Passes-IsValid : Passes → IsValid c × IsReady (apply_defaults c)
  unfolding Passes IsValid IsReady apply_defaults
  Passes-IsValid (url, s₁, s₂, s₃, s₄, s₅, max, visibility, wait, concurrent) =
      let (m, m') = Between-or_default 10 10 c.max_messages (omega arith) (omega arith) s₁ max in
      let (v, v') =
        Between-or_default 43200 20 c.visibility_timeout (omega arith) (omega arith) s₂
          visibility in
      let (w, w') = Between-or_default 20 20 c.wait_time (omega arith) (omega arith) s₃ wait in
      let (k, k') =
        Between-or_default 10 10 c.concurrency (omega arith) (omega arith) s₄ concurrent in
      ((url, m, v, w, k, s₅), (url, m', v', w', k', s₅))

  IsValid-Passes : IsValid c → Passes
  unfolding Passes IsValid
  IsValid-Passes (url, m, v, w, k, s₅) =
      let (s₁, max) = Between-passes 10 10 c.max_messages (omega arith) m in
      let (s₂, visibility) = Between-passes 43200 20 c.visibility_timeout (omega arith) v in
      let (s₃, wait) = Between-passes 20 20 c.wait_time (omega arith) w in
      let (s₄, concurrent) = Between-passes 10 10 c.concurrency (omega arith) k in
      (url, s₁, s₂, s₃, s₄, s₅, max, visibility, wait, concurrent)

  -- A source is built exactly from a configuration that is valid; it runs with the fields that were
  -- given or their defaults, which are within the limits of the queue, and no batch is larger than the
  -- number of messages that are handled at once.
  pub new_source-IsValid :
      (is_ok (new_source (some api) (some decoder) c) ≡ true ↔ IsValid c)
      × ((s : Source A D)
          → new_source (some api) (some decoder) c ≡ ok s
          → (s.config ≡ apply_defaults c) × IsReady s.config × HasBatch s.config)
  new_source-IsValid = (
    (λ h. (Passes-IsValid (ok-Passes h)).0, λ v. ap is_ok (Passes-new_source (IsValid-Passes v))),
    λ s h.
        let passes = ok-Passes (ap is_ok h) in
        let ready = (Passes-IsValid passes).1 in
        let same : s.config ≡ apply_defaults c = config_of (sym h ∙ Passes-new_source passes) in
        (
          same,
          subst IsReady (sym same) ready,
          subst HasBatch (sym same) (IsReady-HasBatch (apply_defaults c) ready),
        ),
  )
    where
      config_of : {s t : Source A D} → ok s ≡ ok t → s.config ≡ t.config
      config_of e = ap (λ s. s.config) (ok-injective e)
