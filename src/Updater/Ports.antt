-- ===== src/Updater/Ports.antt =====
-- internal/model/port.go and update.go: what the service calls. A port answers by the history of
-- calls that were made before, so that an environment is any deterministic or recorded behaviour;
-- every call is added to the history. `Exec` is the monad of the service's methods.
use image_updater.Prelude.{List, [], ◌∷◌, ◌++◌, Option, none, some}
use image_updater.Text.{Text}
use image_updater.Model.Errors.{Error, Result, ok, err}
use image_updater.Model.Image.{ImageReference}
use image_updater.Label.Labels.{ImageManifest, ImageMetadata}

-- ImageUpdate
pub record ImageUpdate : Type 0 where
  pub image : Text
  pub new_tag : Text
  pub manifest : Option ImageManifest

-- PullRequest; its base is left empty
pub record PullRequest : Type 0 where
  pub owner : Text
  pub repository : Text
  pub head : Text
  pub title : Text
  pub body : Text
  pub assignees : List Text
  pub reviewers : List Text

pub data Call : Type 0 where
  -- MetadataResolver.Resolve
  read_metadata : ImageReference → Call
  -- ManifestRepository
  find_open_pull_request : Text → Text → Text → Call
  checkout : Text → Call
  create_pull_request : PullRequest → Call
  -- ManifestDirectoryResolver.Resolve
  resolve : Text → Text → Call
  -- ManifestPatcher.Patch
  patch : Text → ImageUpdate → Call
  -- Checkout
  create_branch : Text → Call
  commit : Text → Call
  push : Text → Call
  close : Call

-- A call that was made, and the error that answered it, if one did.
pub record Event : Type 0 where
  pub call : Call
  pub failure : Option Error

abbrev pub History : Type 0
History = List Event

-- The answers of the ports. A checkout is the path of its directory; a search for an open pull
-- request yields the empty text if there is none.
pub record Ports : Type 0 where
  pub read_metadata : History → ImageReference → Result ImageMetadata
  pub find_open_pull_request : History → Text → Text → Text → Result Text
  pub checkout : History → Text → Result Text
  pub create_pull_request : History → PullRequest → Result Text
  pub resolve : History → Text → Text → Result (List Text)
  pub patch : History → Text → ImageUpdate → Result (Unit {0})
  pub create_branch : History → Text → Result (Unit {0})
  pub commit : History → Text → Result (Unit {0})
  pub push : History → Text → Result (Unit {0})
  pub close : History → Result (Unit {0})

abbrev pub Exec : Type 0 → Type 0
Exec A = History → Result A × History

-- Goes on after an answer, or ends with its error.
abbrev pub after : {A B : Type 0} → Result A → (A → Exec B) → Exec B
after (ok a) f h = f a h
after (err e) f h = (err e, h)

infixl 5 ◌>>=◌
abbrev pub ◌>>=◌ : {A B : Type 0} → Exec A → (A → Exec B) → Exec B
◌>>=◌ m f h = let (r, h') = m h in after r f h'

abbrev pub pure : {A : Type 0} → A → Exec A
pure a h = (ok a, h)

abbrev pub raise : {A : Type 0} → Error → Exec A
raise e h = (err e, h)

-- The error of an answer.
abbrev pub error_of : {A : Type 0} → Result A → Option Error
error_of (ok a) = none
error_of (err e) = some e

-- Makes a call: the answer is that of the port, and the call is recorded.
abbrev pub make : {A : Type 0} → Call → (History → Result A) → Exec A
make c answer h = (answer h, h ++ record { call = c; failure = error_of (answer h) } ∷ [])

-- A call whose error does not end the method: `if err := …; err != nil`.
abbrev pub try : {A : Type 0} → Exec A → Exec (Result A)
try m h = let (r, h') = m h in (ok r, h')
