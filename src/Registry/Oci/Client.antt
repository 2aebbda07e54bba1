-- ===== src/Registry/Oci/Client.antt =====
-- internal/infrastructure/registry/oci/client.go.
pub mod Requests
use image_updater.Prelude.{
  ℕ, suc, ◌+◌, Bool, true, false, not, List, [], ◌∷◌, ◌++◌, Option, none, some, ◌==◌, ltb, length,
  take, if◌then◌else◌,
}
use image_updater.Text.{Text, codes, is_empty}
use image_updater.Model.Errors.{Error, plain, wrap, join, Result, ok, err}
use image_updater.Model.Image.{ImageReference, to_text}
use image_updater.Rule.Location.{Captures}
use image_updater.Label.Labels.{ImageMetadata}
use image_updater.Registry.Oci.{Manifest, image_digest, size, validate_reference, validate_digest}

-- What is asked of a registry.
pub record Request : Type 0 where
  pub url : Text
  pub authorization : Text
  pub accept : Text

-- http.Response
pub record Response : Type 0 where
  pub status : ℕ
  pub body : Text

-- What a second `Decode` finds behind a first value.
pub data Trailing : Type 0 where
  end_of_input another_value not_json : Trailing

-- Client, with what it rests on: the header of the authenticator; the HTTP client, which answers by
-- the requests that were made before; and the JSON decoder, which reads one value and leaves the rest.
-- The labels of a config are `none` where the field is missing.
pub record Client : Type 0 where
  pub scheme : Text
  pub auth_header : ImageReference → Result Text
  pub request : List Request → Request → Option Response
  pub decode_manifest : Text → Option (Manifest × Text)
  pub decode_labels : Text → Option (Option Captures × Text)
  pub trailing : Text → Trailing

abbrev pub Fetch : Type 0 → Type 0
Fetch A = List Request → Result A × List Request

abbrev pub after : {A B : Type 0} → Result A → (A → Fetch B) → Fetch B
after (ok a) f log = f a log
after (err e) f log = (err e, log)

infixl 5 ◌>>=◌
abbrev pub ◌>>=◌ : {A B : Type 0} → Fetch A → (A → Fetch B) → Fetch B
◌>>=◌ m f log = let (r, log') = m log in after r f log'

-- A step without a request.
abbrev pub lift : {A : Type 0} → Result A → Fetch A
lift r log = (r, log)

-- maxBlobSize
abbrev pub max_blob_size : ℕ
max_blob_size = 4194304

-- errDecodeResponse
abbrev pub decode_response : Error
decode_response = plain (codes "decode registry response" ∷ [])

-- The error of a response that is too long.
abbrev pub response_exceeds : Error
response_exceeds = plain (codes "registry response exceeds the limit" ∷ [])

-- Whether nothing is left of the limit once all is read.
unfoldable pub exceeds : Text → Bool
exceeds body = not (ltb (length body) (suc max_blob_size))

-- `getJSON` from the body on.
unfoldable pub read_body :
    {A : Type 0} → (Text → Option (A × Text)) → (Text → Trailing) → Text → Result A
unfolding exceeds
read_body decode trailing body = elim (decode (take (suc max_blob_size) body)) [
  | none ↦ err (if exceeds body then response_exceeds else join decode_response (plain []))
  | some (value, rest) ↦ elim (trailing rest) [
    | end_of_input ↦ if exceeds body then err response_exceeds else ok value
    | another_value ↦ err (if exceeds body then response_exceeds else decode_response)
    | not_json ↦ err (if exceeds body then response_exceeds else join decode_response (plain []))
  ]
]

-- What a response is read as.
unfoldable pub read_response :
    {A : Type 0} → (Text → Option (A × Text)) → (Text → Trailing) → Option Response → Result A
unfolding read_body
read_response decode trailing none = err (plain [])
read_response decode trailing (some r) =
    if r.status == 200 then read_body decode trailing r.body else err (plain [])

-- Client.getJSON
unfoldable pub get_json : {A : Type 0} → Client → (Text → Option (A × Text)) → Request → Fetch A
unfolding read_response
get_json c decode r log = (read_response decode c.trailing (c.request log r), log ++ r ∷ [])

-- The media types of manifests, joined.
abbrev pub manifest_types : Text
manifest_types =
    codes "application/vnd.oci.image.manifest.v1+json, application/vnd.oci.image.index.v1+json, "
    ++ codes
        "application/vnd.docker.distribution.manifest.v2+json, application/vnd.docker.distribution.manifest.list.v2+json"

-- The URL of a part of a repository.
unfoldable pub url_of : Client → ImageReference → Text → Text → Text
url_of c ref part name =
    c.scheme ++ (codes "://" ++ (ref.host ++ (codes "/v2/" ++ (ref.repository ++ (part ++ name)))))

-- fmt.Errorf around the error of a fetch
unfoldable pub wrapped : {A : Type 0} → ImageReference → Result A → Result A
unfolding to_text
wrapped ref (ok a) = ok a
wrapped ref (err e) = err (wrap (to_text ref ∷ []) e)

-- Client.manifest
unfoldable pub manifest : Client → ImageReference → Text → Text → Fetch Manifest
unfolding url_of get_json wrapped
manifest c ref header reference log =
    let r : Request = record {
      url = url_of c ref (codes "/manifests/") reference;
      authorization = header;
      accept = manifest_types;
    } in
    let (result, log') = get_json c c.decode_manifest r log in (wrapped ref result, log')

-- The fetch of `imageConfig`.
unfoldable pub fetch_config : Client → ImageReference → Text → Text → Fetch (Option Captures)
unfolding url_of get_json wrapped
fetch_config c ref header digest log =
    let r : Request = record {
      url = url_of c ref (codes "/blobs/") digest;
      authorization = header;
      accept = codes "*/*";
    } in
    let (result, log') = get_json c c.decode_labels r log in (wrapped ref result, log')

-- Client.imageConfig
unfoldable pub image_config : Client → ImageReference → Text → Text → Fetch (Option Captures)
unfolding fetch_config validate_digest
image_config c ref header digest = do
  _ ← lift (validate_digest digest)
  fetch_config c ref header digest

-- An index is followed to the manifest of a platform.
unfoldable pub follow : Client → ImageReference → Text → Manifest → Fetch Manifest
unfolding image_digest validate_digest manifest
follow c ref header m =
    let (digest, is_index) = image_digest m in
    if is_index
    then (do _ ← lift (validate_digest digest); manifest c ref header digest)
    else lift (ok m)

-- fmt.Errorf around the error of the authenticator
unfoldable pub wrapped_host : {A : Type 0} → ImageReference → Result A → Result A
wrapped_host ref (ok a) = ok a
wrapped_host ref (err e) = err (wrap (ref.host ∷ []) e)

-- The labels, empty if there are none.
unfoldable pub or_empty : Option Captures → Captures
or_empty none = []
or_empty (some labels) = labels

-- Client.Resolve
unfoldable pub resolve : Client → ImageReference → Fetch ImageMetadata
unfolding wrapped_host or_empty validate_reference manifest follow image_config size to_text
    is_empty
resolve c ref = do
  _ ← lift (validate_reference ref)
  header ← lift (wrapped_host ref (c.auth_header ref))
  index ← manifest c ref header ref.tag
  m ← follow c ref header index
  _ ← lift (if is_empty m.config_digest then err (plain (to_text ref ∷ [])) else ok tt)
  labels ← image_config c ref header m.config_digest
  lift (ok (record { labels = or_empty labels; uri = to_text ref; size_bytes = size m }))
