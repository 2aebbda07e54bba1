-- ===== src/Label/Value/Grammar.antt =====
-- internal/model/label_value.go: what the label sanitizers let through.
use image_updater.Prelude.{
  ℕ, ◌≤◌, ◌≡◌, ◌≢◌, ◌⊎◌, inl, inr, refl, Bool, true, false, not, ◌||◌, List, [], ◌∷◌, arith, any,
  All, All-any, any-All, ltb, if◌then◌else◌, ==_iff, length, Bool-cases, subst, sym,
}
use image_updater.Text.{Text, is_empty, has_byte}
use image_updater.Text.Utf8.{runes, trim_space}
use image_updater.Label.Value.{
  is_ascii_alphanumeric, is_login_from, sanitize_label_handle, sanitize_label_number,
  sanitize_label_token, is_token_rune, max_label_handle_length, max_label_token_length,
}

-- Letters and digits, with single hyphens between them.
pub data IsLogin : List ℕ → Type 0 where
  one : {c : ℕ} → is_ascii_alphanumeric c ≡ true → IsLogin (c ∷ [])
  more : {c : ℕ} {cs : List ℕ} → is_ascii_alphanumeric c ≡ true → IsLogin cs → IsLogin (c ∷ cs)
  hyphen :
      {c : ℕ} {cs : List ℕ} → is_ascii_alphanumeric c ≡ true → IsLogin cs → IsLogin (c ∷ b'-' ∷ cs)

-- Behind a letter or digit.
IsLogin-behind :
    (c : ℕ) (cs : List ℕ)
    → is_ascii_alphanumeric c ≡ true
    → is_login_from cs false false ≡ true
    → IsLogin (c ∷ cs)
unfolding is_login_from
IsLogin-behind c [] a h = one a
IsLogin-behind c (d ∷ []) a h = elim (Bool-cases (is_ascii_alphanumeric d)) [
  | inl e ↦ more a (one e)
  | inr e ↦ absurd (ground (arith, e, h))
]
IsLogin-behind c (d ∷ f ∷ fs) a h = elim (Bool-cases (is_ascii_alphanumeric d)) [
  | inl e ↦ more a (IsLogin-behind d (f ∷ fs) e (rw (e, is_login_from) at h))
  | inr e ↦ elim (Bool-cases (is_ascii_alphanumeric f)) [
    | inl g ↦
        subst (λ x. IsLogin (c ∷ x ∷ f ∷ fs)) (sym ((==_iff d b'-').0 (ground (arith, e, g, h))))
          (hyphen a (IsLogin-behind f fs g (ground (arith, e, g, h))))
    | inr g ↦ absurd (ground (arith, e, g, h))
  ]
]

IsLogin-first : (cs : List ℕ) → cs ≢ [] → is_login_from cs true false ≡ true → IsLogin cs
unfolding is_login_from
IsLogin-first [] n h = absurd (n refl)
IsLogin-first (c ∷ cs) n h = elim (Bool-cases (is_ascii_alphanumeric c)) [
  | inl e ↦ IsLogin-behind c cs e (ground (arith, e, h))
  | inr e ↦ absurd (ground (arith, e, h))
]

runes-nil : runes [] ≡ []
unfolding runes
runes-nil = refl

IsLogin-runes :
    (value : Text)
    → is_login_from (runes value) true false ≡ true
    → (runes value ≡ []) ⊎ IsLogin (runes value)
IsLogin-runes value h = split (runes value) h
  where
    split : (cs : List ℕ) → is_login_from cs true false ≡ true → (cs ≡ []) ⊎ IsLogin cs
    split [] k = inl refl
    split (c ∷ cs) k = inr (IsLogin-first (c ∷ cs) (λ z. cc) k)

-- `sanitizeLabelHandle` lets nothing through but logins: letters and digits with single hyphens
-- between them, in at most as many bytes as a handle may have; any other value becomes empty.
pub sanitize_label_handle-IsLogin :
    (raw : Text)
    → (length (sanitize_label_handle raw) ≤ max_label_handle_length)
      × ((runes (sanitize_label_handle raw) ≡ []) ⊎ IsLogin (runes (sanitize_label_handle raw)))
unfolding sanitize_label_handle
sanitize_label_handle-IsLogin raw =
    elim (Bool-cases
      (is_empty (trim_space raw) || ltb max_label_handle_length (length (trim_space raw)))) [
        | inl e ↦ rw e (omega arith, inl runes-nil)
        | inr e ↦ elim (Bool-cases (is_login_from (runes (trim_space raw)) true false)) [
          | inl l ↦ rw (e, l) (ground (arith, e), IsLogin-runes (trim_space raw) l)
          | inr l ↦ rw (e, l) (omega arith, inl runes-nil)
        ]
      ]

pub IsDigit : ℕ → Type 0
IsDigit c = (b'0' ≤ c) × (c ≤ b'9')

right-IsDigit : (c : ℕ) → (ltb c b'0' || ltb b'9' c) ≡ false → IsDigit c
unfolding IsDigit
right-IsDigit c h = ground (arith, h)

never_digit : (c : ℕ) → IsDigit c → (ltb c b'0' || ltb b'9' c) ≡ false
unfolding IsDigit
never_digit c h = ground (arith, h)

-- A letter, a digit, or one of `.` `_` `-` `/` `:` `+`.
pub IsTokenRune : ℕ → Type 0
IsTokenRune c =
    (((b'a' ≤ c) × (c ≤ b'z')) ⊎ ((b'A' ≤ c) × (c ≤ b'Z')) ⊎ IsDigit c)
    ⊎ (c ≡ b'.')
    ⊎ (c ≡ b'_')
    ⊎ (c ≡ b'-')
    ⊎ (c ≡ b'/')
    ⊎ (c ≡ b':')
    ⊎ (c ≡ b'+')

-- At least one rune, all of them of a kind, in at most 256 bytes.
pub IsWord : (ℕ → Type 0) → Text → Type 0
IsWord P value = (value ≢ []) × (length value ≤ 256) × All P (runes value)

module _ (P : ℕ → Type 0) (wrong : ℕ → Bool) (right : (c : ℕ) → wrong c ≡ false → P c)
    (never : (c : ℕ) → P c → wrong c ≡ false) where
  -- The tests of a word.
  abbrev checked : Text → Text
  checked value =
      if is_empty value || ltb max_label_token_length (length value)
      then []
      else if any wrong (runes value)
      then []
      else value

  -- A word is kept, and anything else becomes empty.
  abbrev Kept : Text → Text → Type 0
  Kept value result = (IsWord P value × (result ≡ value)) ⊎ ((¬ IsWord P value) × (result ≡ []))

  checked-Kept : (value : Text) → Kept value (checked value)
  unfolding IsWord is_empty
  checked-Kept [] = inr ((λ w. w.0 refl), refl)
  checked-Kept (c ∷ value) = elim (Bool-cases (ltb max_label_token_length (length (c ∷ value)))) [
    | inl e ↦ inr ((λ w. ground (arith, e, w.1)), ground (arith, e))
    | inr e ↦ elim (Bool-cases (any wrong (runes (c ∷ value)))) [
      | inl w ↦ inr (
        (λ k. ground (arith, w, any-All P wrong never (runes (c ∷ value)) k.2)),
        ground (arith, e, w),
      )
      | inr w ↦ inl (
        ((λ z. cc), ground (arith, e), All-any P wrong right (runes (c ∷ value)) w),
        ground (arith, e, w),
      )
    ]
  ]

right-IsTokenRune : (c : ℕ) → not (is_token_rune c) ≡ false → IsTokenRune c
unfolding is_token_rune is_ascii_alphanumeric has_byte IsTokenRune IsDigit
right-IsTokenRune c h = ground (arith, h)

never_token : (c : ℕ) → IsTokenRune c → not (is_token_rune c) ≡ false
unfolding is_token_rune is_ascii_alphanumeric has_byte IsTokenRune IsDigit
never_token c h = ground (arith, h)

-- `sanitizeLabelToken` keeps a value, without the spaces around it, exactly if that is not empty, has at
-- most 256 bytes, and only ASCII letters, digits and `.` `_` `-` `/` `:` `+` in it;
-- `sanitizeLabelNumber` does the same with digits only. Any other value becomes empty.
pub sanitize_label_token-IsWord :
    (raw : Text)
    → ((IsWord IsTokenRune (trim_space raw) × (sanitize_label_token raw ≡ trim_space raw))
        ⊎ ((¬ IsWord IsTokenRune (trim_space raw)) × (sanitize_label_token raw ≡ [])))
      × ((IsWord IsDigit (trim_space raw) × (sanitize_label_number raw ≡ trim_space raw))
          ⊎ ((¬ IsWord IsDigit (trim_space raw)) × (sanitize_label_number raw ≡ [])))
unfolding sanitize_label_token sanitize_label_number
sanitize_label_token-IsWord raw = (
  checked-Kept IsTokenRune (λ c. not (is_token_rune c)) right-IsTokenRune never_token
      (trim_space raw),
  checked-Kept IsDigit (λ c. ltb c b'0' || ltb b'9' c) right-IsDigit never_digit (trim_space raw),
)
