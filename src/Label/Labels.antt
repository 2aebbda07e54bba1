-- ===== src/Label/Labels.antt =====
-- internal/model/labels.go and image.go: `NewImageLabels` and `ImageMetadata.ImageLabels`; from
-- manifest.go the record of an image and `NewImageManifest`.
use image_updater.Prelude.{ℕ, not, ◌&&◌, [], ◌∷◌, ◌++◌, if◌then◌else◌}
use image_updater.Text.{Text, codes, text_eq, is_empty}
use image_updater.Std.{Std}
use image_updater.Rule.Location.{Captures}
use image_updater.Label.Value.{
  sanitize_label_text, sanitize_label_url, sanitize_label_handle, sanitize_label_number,
  sanitize_label_token,
}
use image_updater.Label.Extra.{new_extra_labels}

-- ImageLabels
pub record ImageLabels : Type 0 where
  pub source : Text
  pub revision : Text
  pub created : Text
  pub pr_number : Text
  pub pr_author : Text
  pub pr_title : Text
  pub build_url : Text
  pub build_run_id : Text
  pub build_ref : Text
  pub build_event : Text
  pub build_actor : Text
  pub extra : Captures
  pub image_uri : Text
  pub image_size_bytes : ℕ

-- ImageLabels{}
abbrev pub no_labels : ImageLabels
no_labels = record {
  source = [];
  revision = [];
  created = [];
  pr_number = [];
  pr_author = [];
  pr_title = [];
  build_url = [];
  build_run_id = [];
  build_ref = [];
  build_event = [];
  build_actor = [];
  extra = [];
  image_uri = [];
  image_size_bytes = 0;
}

-- labels[key], which is empty for a missing key
unfoldable pub lookup : Text → Captures → Text
unfolding text_eq
lookup key [] = []
lookup key ((k, v) ∷ labels) = if text_eq k key then v else lookup key labels

-- The key of a label of the OCI namespace.
abbrev oci : Text → Text
oci suffix = codes "org.opencontainers.image." ++ suffix

-- NewImageLabels
unfoldable pub new_image_labels : Std → Captures → ImageLabels
unfolding sanitize_label_text sanitize_label_url sanitize_label_handle sanitize_label_number
    sanitize_label_token new_extra_labels lookup oci
new_image_labels std labels = record {
  source = sanitize_label_url std (lookup (oci (codes "source")) labels);
  revision = sanitize_label_token (lookup (oci (codes "revision")) labels);
  created = sanitize_label_token (lookup (oci (codes "created")) labels);
  pr_number = sanitize_label_number (lookup (oci (codes "pr.number")) labels);
  pr_author = sanitize_label_handle (lookup (oci (codes "pr.author")) labels);
  pr_title = sanitize_label_text std (lookup (oci (codes "pr.title")) labels);
  build_url = sanitize_label_url std (lookup (oci (codes "build.url")) labels);
  build_run_id = sanitize_label_token (lookup (oci (codes "build.run_id")) labels);
  build_ref = sanitize_label_token (lookup (oci (codes "build.ref")) labels);
  build_event = sanitize_label_token (lookup (oci (codes "build.event")) labels);
  build_actor = sanitize_label_handle (lookup (oci (codes "build.actor")) labels);
  extra = new_extra_labels std labels;
  image_uri = [];
  image_size_bytes = 0;
}

-- ImageMetadata
pub record ImageMetadata : Type 0 where
  pub labels : Captures
  pub uri : Text
  pub size_bytes : ℕ

-- ImageMetadata.ImageLabels
unfoldable pub image_labels_of : Std → ImageMetadata → ImageLabels
unfolding new_image_labels
image_labels_of std m = record (new_image_labels std m.labels) {
  image_uri = m.uri;
  image_size_bytes = m.size_bytes;
}

-- ImageManifest
pub record ImageManifest : Type 0 where
  pub image : Text
  pub github_repo : Text
  pub git_sha : Text
  pub commit_url : Text
  pub built_at : Text
  pub build_run_url : Text
  pub extra : Captures

-- "%s/commit/%s"
abbrev pub commit_url_of : Text → Text → Text
commit_url_of source revision = source ++ (codes "/commit/" ++ revision)

-- NewImageManifest
unfoldable pub new_image_manifest : Text → ImageLabels → ImageManifest
unfolding is_empty
new_image_manifest image l = record {
  image = image;
  github_repo = l.source;
  git_sha = l.revision;
  commit_url =
      if not (is_empty l.source) && not (is_empty l.revision)
      then commit_url_of l.source l.revision
      else [];
  built_at = l.created;
  build_run_url = l.build_url;
  extra = l.extra;
}
