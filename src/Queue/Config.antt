-- ===== src/Queue/Config.antt =====
-- internal/infrastructure/queue/sqs/source.go: `Config`, `applyDefaults`, `NewSource` and the size of a
-- batch.
pub mod Bounds
use image_updater.Prelude.{
  ℕ, Bool, true, false, ◌||◌, Option, none, some, List, [], if◌then◌else◌, ℤ, pos, negsuc,
  is_negative, is_at_most_zero, is_above, ltb,
}
use image_updater.Text.{Text, is_empty}
use image_updater.Model.Errors.{plain, Result, ok, err}

-- Config; the poll interval counts nanoseconds
pub record Config : Type 0 where
  pub queue_url : Text
  pub max_messages : ℤ
  pub visibility_timeout : ℤ
  pub wait_time : ℤ
  pub concurrency : ℤ
  pub poll_interval : ℤ

-- defaultMaxMessages
abbrev pub default_max_messages : ℤ
default_max_messages = pos 10

-- defaultVisibilityTimeout
abbrev pub default_visibility_timeout : ℤ
default_visibility_timeout = pos 20

-- defaultWaitTime
abbrev pub default_wait_time : ℤ
default_wait_time = pos 20

-- defaultConcurrency
abbrev pub default_concurrency : ℤ
default_concurrency = pos 10

-- A field, or its default if it is not positive.
unfoldable pub or_default : ℤ → ℤ → ℤ
unfolding is_at_most_zero
or_default default value = if is_at_most_zero value then default else value

-- Config.applyDefaults
unfoldable pub apply_defaults : Config → Config
unfolding or_default
apply_defaults c = record c {
  max_messages = or_default default_max_messages c.max_messages;
  visibility_timeout = or_default default_visibility_timeout c.visibility_timeout;
  wait_time = or_default default_wait_time c.wait_time;
  concurrency = or_default default_concurrency c.concurrency;
}

-- Source, with a client of the queue and a decoder
pub record Source (Api Decoder : Type 0) : Type 0 where
  pub api : Api
  pub decoder : Decoder
  pub config : Config

-- Whether a numeric field is negative.
unfoldable pub has_negative : Config → Bool
unfolding is_negative
has_negative c =
    is_negative c.max_messages
    || (is_negative c.visibility_timeout
        || (is_negative c.wait_time || (is_negative c.concurrency || is_negative c.poll_interval)))

-- The last checks of `NewSource`.
unfoldable pub check_limits : {A D : Type 0} → Source A D → Result (Source A D)
unfolding is_above
check_limits s =
    if is_above 10 s.config.max_messages
    then err (plain [])
    else if is_above 43200 s.config.visibility_timeout
    then err (plain [])
    else if is_above 20 s.config.wait_time
    then err (plain [])
    else if is_above 10 s.config.concurrency
    then err (plain [])
    else ok s

-- NewSource; a client or decoder that is nil is `none`
unfoldable pub new_source : {A D : Type 0} → Option A → Option D → Config → Result (Source A D)
unfolding is_empty has_negative check_limits apply_defaults
new_source none decoder c = err (plain [])
new_source (some api) none c = err (plain [])
new_source (some api) (some decoder) c =
    if is_empty c.queue_url
    then err (plain [])
    else if has_negative c
    then err (plain [])
    else check_limits (record { api = api; decoder = decoder; config = apply_defaults c })

-- min(a, b)
unfoldable pub smaller : ℤ → ℤ → ℤ
smaller (pos m) (pos n) = if ltb n m then pos n else pos m
smaller (pos m) (negsuc n) = negsuc n
smaller (negsuc m) (pos n) = negsuc m
smaller (negsuc m) (negsuc n) = if ltb m n then negsuc n else negsuc m

-- maxMessages of `receive`
unfoldable pub batch_limit : Config → ℤ
unfolding smaller
batch_limit c = smaller c.max_messages c.concurrency
