-- ===== src/Registry/Ecr.antt =====
-- internal/infrastructure/registry/ecr/decoder.go, without the time of an event, which is for logs.
pub mod Arrival
use image_updater.Prelude.{
  ℕ, ◌+◌, ◌-◌, Bool, true, false, not, ◌&&◌, ◌||◌, List, [], ◌∷◌, ◌++◌, Option, none, some, leb,
  ◌==◌, if◌then◌else◌, ◌≡◌, refl,
}
use image_updater.Text.{Text, codes, is_empty, trim}
use image_updater.Text.Utf8.{trim_space}
use image_updater.Model.Errors.{plain, wrap, sentinel, event_ignored, Result, ok, err}
use image_updater.Model.Image.{ImagePushEvent}

-- pushEvent, with the fields of its detail
pub record PushEvent : Type 0 where
  pub account : Text
  pub region : Text
  pub action_type : Text
  pub result : Text
  pub repository_name : Text
  pub image_tag : Text
  pub image_digest : Text

-- `json.Unmarshal` into a push event.
abbrev pub Json : Type 0
Json = Text → Option PushEvent

-- model.RegistryECR
abbrev pub kind : Text
kind = codes "ecr"

-- An ASCII letter in upper case.
unfoldable pub upper : ℕ → ℕ
upper c = if leb b'a' c && leb c b'z' then c - 32 else c

-- strings.EqualFold(s, t) for a text in upper case without the letter K: beside ASCII letters of
-- either case, the long s (0xC5 0xBF) is equal to S. The first argument tells that its first byte was
-- read.
unfoldable pub equal_fold : Bool → Text → Text → Bool
unfolding upper
equal_fold false [] [] = true
equal_fold false [] (d ∷ t) = false
equal_fold false (c ∷ s) [] = false
equal_fold false (c ∷ s) (d ∷ t) =
    let same = equal_fold false s t in
    let long = equal_fold true s t in
    if upper c == d then same else (c == 0xC5 && d == b'S') && long
equal_fold true [] t = false
equal_fold true (c ∷ s) t = c == 0xBF && equal_fold false s t

-- isArrival
unfoldable pub is_arrival : Text → Bool
unfolding equal_fold
is_arrival action =
    equal_fold false action (codes "PUSH") || equal_fold false action (codes "REPLICATE")

-- Host
unfoldable pub host : Text → Text → Text
host account region = account ++ (codes ".dkr.ecr." ++ (region ++ codes ".amazonaws.com"))

-- strings.Trim(strings.TrimSpace(name), "/")
unfoldable pub repository_of : Text → Text
unfolding trim trim_space
repository_of name = trim (λ c. c == b'/') (trim_space name)

-- Decoder.Decode behind the unmarshalling
unfoldable pub decode_event : PushEvent → Result ImagePushEvent
unfolding is_empty is_arrival equal_fold repository_of trim_space host
decode_event raw =
    if not (is_empty raw.action_type) && not (is_arrival raw.action_type)
    then err (wrap (raw.action_type ∷ []) (sentinel event_ignored))
    else if not (is_empty raw.result) && not (equal_fold false raw.result (codes "SUCCESS"))
    then err (wrap (raw.result ∷ []) (sentinel event_ignored))
    else if is_empty (repository_of raw.repository_name) || is_empty (trim_space raw.image_tag)
    then err (wrap [] (sentinel event_ignored))
    else if is_empty raw.account || is_empty raw.region
    then err (plain [])
    else ok (record {
      kind = kind;
      host = host raw.account raw.region;
      repository = repository_of raw.repository_name;
      tag = trim_space raw.image_tag;
      digest = raw.image_digest;
    })

-- Decoder.Decode
unfoldable pub decode : Json → Text → Result ImagePushEvent
unfolding decode_event
decode json payload = elim (json payload) [ none ↦ err (plain []) | some raw ↦ decode_event raw ]

folds : equal_fold false (codes "pUsh") (codes "PUSH") ≡ true
unfolding equal_fold
folds = refl

folds_long : equal_fold false (b'p' ∷ b'u' ∷ 0xC5 ∷ 0xBF ∷ b'h' ∷ []) (codes "PUSH") ≡ true
unfolding equal_fold
folds_long = refl
