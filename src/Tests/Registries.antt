-- ===== src/Tests/Registries.antt =====
-- Events and images of a registry, and a clone of a repository.
use image_updater.Prelude.{
  ◌≤◌, ◌≡◌, ◌⊎◌, refl, true, false, ◌||◌, [], ◌∷◌, none, some, length, All, if◌then◌else◌,
}
use image_updater.Text.{Text, codes, is_empty}
use image_updater.Model.Errors.{plain, Error, event_ignored, is, ok, err}
use image_updater.Model.Image.{ImagePushEvent, ImageReference}
use image_updater.Hosting.{Origin, get_token, make_directory, clone, remove, checkout}
use image_updater.Tests.World.{read_url}
use image_updater.Registry.Ecr.{PushEvent, decode_event}
use image_updater.Registry.Ecr.Arrival.{Arrived, IsMade, decode_event-cases}
use image_updater.Registry.Oci.{Descriptor, Manifest, image_digest}
use image_updater.Registry.Oci.Digest.{preferred_digest, image_digest-preferred}
use image_updater.Registry.Oci.Client.{Client, end_of_input, resolve}
use image_updater.Registry.Oci.Client.Requests.{IsSafe, resolve-IsSafe}

abbrev raw : PushEvent
raw = record {
  account = codes "123";
  region = codes "us-east-1";
  action_type = codes "Push";
  result = [];
  repository_name = codes "/acme/api/";
  image_tag = codes "v1 ";
  image_digest = [];
}

decode_event-cases_example :
    (Arrived raw × (event : ImagePushEvent) × (decode_event raw ≡ ok event) × IsMade raw event)
    ⊎ (((¬ Arrived raw) × (e : Error) × (decode_event raw ≡ err e) × (is e event_ignored ≡ true))
        ⊎ (Arrived raw
            × ((is_empty raw.account || is_empty raw.region) ≡ true)
            × (e : Error) × (decode_event raw ≡ err e)
            × (is e event_ignored ≡ false)))
decode_event-cases_example = decode_event-cases raw

decoded :
    decode_event raw
    ≡ ok (record {
      kind = codes "ecr";
      host = codes "123.dkr.ecr.us-east-1.amazonaws.com";
      repository = codes "acme/api";
      tag = codes "v1";
      digest = [];
    })
unfolding decode_event
decoded = refl

abbrev entry : Text → Text → Descriptor
entry digest os = record {
  digest = digest;
  size = 0;
  platform = some (record { os = os; architecture = codes "amd64" });
}

abbrev index : Manifest
index = record {
  config_digest = [];
  layers = [];
  manifests =
      entry (codes "sha256:0") (codes "unknown")
      ∷ entry (codes "sha256:1") (codes "windows")
      ∷ entry (codes "sha256:2") (codes "linux")
      ∷ [];
}

followed : image_digest index ≡ (codes "sha256:2", true)
unfolding image_digest
followed = refl

image_digest-preferred_example :
    image_digest index
    ≡ (if is_empty index.config_digest then preferred_digest index.manifests else ([], false))
image_digest-preferred_example = image_digest-preferred index

abbrev client : Client
client = record {
  scheme = codes "https";
  auth_header = λ ref. ok (codes "Basic x");
  request = λ log r. some (record { status = 200; body = [] });
  decode_manifest = λ text. some (record index { config_digest = codes "sha256:3" }, []);
  decode_labels = λ text. some (none, []);
  trailing = λ text. end_of_input;
}

abbrev image : ImageReference
image = record {
  kind = codes "ecr";
  host = codes "h";
  repository = codes "acme/api";
  tag = codes "v1";
}

two_requests : length (resolve client image []).1 ≡ 2
unfolding resolve
two_requests = refl

resolve-IsSafe_example :
    All (IsSafe client image) (resolve client image []).1 × (length (resolve client image []).1 ≤ 3)
resolve-IsSafe_example = resolve-IsSafe client image

-- A site whose clone fails.
abbrev origin : Origin
origin = record {
  parse_url = read_url;
  token = ok (codes "t");
  make_directory = ok (codes "/tmp/w");
  clone = λ dir url token. err (plain []);
}

removed :
    (checkout origin (codes "https://github.com/acme/infra")).1
    ≡ get_token
      ∷ make_directory
      ∷ clone (codes "/tmp/w") (codes "https://github.com/acme/infra") (codes "t")
      ∷ remove (codes "/tmp/w")
      ∷ []
unfolding checkout read_url
removed = refl
