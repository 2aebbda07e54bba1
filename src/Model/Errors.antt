-- ===== src/Model/Errors.antt =====
-- internal/model/error.go. An error is a tree: what `errors.Is` finds in it decides what its
-- consumers do. Of a message only the values that it quotes are kept.
use image_updater.Prelude.{ℕ, ◌≡◌, refl, Bool, true, false, ◌||◌, List, ◌==◌, ◌⊎◌, inl, inr}
use image_updater.Text.{Text}

-- The `Err…` variables.
pub data Sentinel : Type 0 where
  event_ignored no_matching_rule image_tag_not_allowed image_tag_denied incomplete_rule : Sentinel
  manifest_not_found invalid_manifest image_not_managed no_difference : Sentinel
  duplicate_pull_request invalid_pull_request retry : Sentinel

abbrev rank : Sentinel → ℕ
rank event_ignored = 0
rank no_matching_rule = 1
rank image_tag_not_allowed = 2
rank image_tag_denied = 3
rank incomplete_rule = 4
rank manifest_not_found = 5
rank invalid_manifest = 6
rank image_not_managed = 7
rank no_difference = 8
rank duplicate_pull_request = 9
rank invalid_pull_request = 10
rank retry = 11

pub data Error : Type 0 where
  -- one of the variables
  sentinel : Sentinel → Error
  -- errors.New, or an error of a library
  plain : List Text → Error
  -- fmt.Errorf with one %w: the values that the message quotes, and the wrapped error
  wrap : List Text → Error → Error
  -- fmt.Errorf with two %w, and errors.Join
  join : Error → Error → Error

-- errors.Is(err, target)
unfoldable pub is : Error → Sentinel → Bool
is (sentinel s) t = rank s == rank t
is (plain _) t = false
is (wrap _ e) t = is e t
is (join d e) t = is d t || is e t

-- `Retryable` of an error that is not nil
unfoldable pub retryable : Error → Error
retryable e = join (sentinel retry) e

unfoldable pub is_retryable : Error → Bool
unfolding is
is_retryable e = is e retry

-- What a function returns in Go as a value and an error.
pub data Result {ℓ} (Value : Type ℓ) : Type ℓ where
  err : Error → Result Value
  ok : Value → Result Value

abbrev pub is_ok {ℓ} : {Value : Type ℓ} → Result Value → Bool
is_ok (err e) = false
is_ok (ok v) = true

infixl 5 ◌>>=◌
-- `if err != nil { return err }` between two steps.
abbrev pub ◌>>=◌ {ℓ κ} :
    {Value : Type ℓ} → {Next : Type κ} → Result Value → (Value → Result Next) → Result Next
err e >>= next = err e
ok v >>= next = next v

-- Two steps that went well: both did.
pub ok-of_>>= {ℓ κ} :
    {Value : Type ℓ}
    → {Next : Type κ} → (r : Result Value) (next : Value → Result Next) {n : Next}
    → (r >>= next) ≡ ok n
    → (v : Value) × (r ≡ ok v) × (next v ≡ ok n)
ok-of_>>= (err e) next both = cc
ok-of_>>= (ok v) next both = (v, refl, both)

pub is-retryable : (e : Error) → is_retryable (retryable e) ≡ true
unfolding is_retryable retryable
is-retryable e = refl

pub Result-cases {ℓ} :
    {A : Type ℓ} (r : Result A) → ((e : Error) × (r ≡ err e)) ⊎ ((a : A) × (r ≡ ok a))
Result-cases (ok a) = inr (a, refl)
Result-cases (err e) = inl (e, refl)

pub ok-injective {ℓ} : {A : Type ℓ} {a b : A} → ok a ≡ ok b → a ≡ b
ok-injective h = cc
