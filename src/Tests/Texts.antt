-- ===== src/Tests/Texts.antt =====
-- Labels, captures and the entries of a kustomization file.
use image_updater.Prelude.{◌≤◌, ◌≡◌, ◌↔◌, ◌++◌, ◌⊎◌, refl, insert_by, true, List, [], ◌∷◌, length}
use image_updater.Text.{Text, codes}
use image_updater.Text.Utf8.{trim_space, runes}
use image_updater.Model.Errors.{ok}
use image_updater.Rule.Types.{ManifestLocation}
use image_updater.Rule.Select.{MatchedRule}
use image_updater.Rule.Location.{location}
use image_updater.Rule.Location.Inside.{IsExpanded, location-IsExpanded}
use image_updater.Label.Value.{
  sanitize_label_handle, sanitize_label_number, sanitize_label_token, max_label_handle_length,
}
use image_updater.Label.Value.Grammar.{
  IsLogin, sanitize_label_handle-IsLogin, IsDigit, IsTokenRune, IsWord, sanitize_label_token-IsWord,
}
use image_updater.Patch.Tags.{ImageEntry, replace_tag, changed_new_tags}
use image_updater.Patch.Tags.Again.{replace_tag-again}
use image_updater.Patch.Paths.{matches_recursive_manifest_path}
use image_updater.Patch.Paths.Wildcard.{matches_recursive_manifest_path_iff}
use image_updater.Tests.World.{small_std, api_dev, compiled_as, api_segments, pushed_image}
use image_updater.Tests.Plans.{at}

unfoldable api_match : MatchedRule
unfolding compiled_as
api_match = record { compiled = compiled_as api_dev api_segments; event = pushed_image }

abbrev api_place : ManifestLocation
api_place = at (codes "acme") (codes "infra") (codes "apps/api/dev")

expands : location small_std api_match ≡ ok api_place
unfolding location api_match small_std insert_by
expands = refl

location-IsExpanded_example : IsExpanded small_std api_match api_place
location-IsExpanded_example = location-IsExpanded small_std api_match expands

sanitize_label_handle-IsLogin_example :
    (length (sanitize_label_handle (codes "octo-cat")) ≤ max_label_handle_length)
    × ((runes (sanitize_label_handle (codes "octo-cat")) ≡ [])
        ⊎ IsLogin (runes (sanitize_label_handle (codes "octo-cat"))))
sanitize_label_handle-IsLogin_example = sanitize_label_handle-IsLogin (codes "octo-cat")

sanitize_label_token-IsWord_example :
    ((IsWord IsTokenRune (trim_space (codes " 42 "))
        × (sanitize_label_token (codes " 42 ") ≡ trim_space (codes " 42 ")))
      ⊎ ((¬ IsWord IsTokenRune (trim_space (codes " 42 ")))
          × (sanitize_label_token (codes " 42 ") ≡ [])))
    × ((IsWord IsDigit (trim_space (codes " 42 "))
          × (sanitize_label_number (codes " 42 ") ≡ trim_space (codes " 42 ")))
        ⊎ ((¬ IsWord IsDigit (trim_space (codes " 42 ")))
            × (sanitize_label_number (codes " 42 ") ≡ [])))
sanitize_label_token-IsWord_example = sanitize_label_token-IsWord (codes " 42 ")

abbrev entry_of : Text → Text → ImageEntry
entry_of name tag = record { name = name; new_tag = tag }

abbrev two_entries : List ImageEntry
two_entries =
    entry_of (codes "other.io/acme/api") (codes "dev.1")
    ∷ entry_of (codes "acme/web") (codes "v1")
    ∷ []

abbrev two_updated : List ImageEntry
two_updated =
    entry_of (codes "other.io/acme/api") (codes "dev.2")
    ∷ entry_of (codes "acme/web") (codes "v1")
    ∷ []

replaced : replace_tag two_entries (codes "ghcr.io/acme/api") (codes "dev.2") ≡ ok two_updated
unfolding replace_tag
replaced = refl

replace_tag-again_example :
    (replace_tag two_updated (codes "ghcr.io/acme/api") (codes "dev.2") ≡ ok two_updated)
    × (changed_new_tags two_updated two_updated ≡ [])
replace_tag-again_example =
    replace_tag-again two_entries (codes "ghcr.io/acme/api") (codes "dev.2") replaced

abbrev app_front : List Text
app_front = codes "apps" ∷ []

abbrev app_back : List Text
app_back = codes "dev" ∷ []

abbrev app_directory : List Text
app_directory = codes "apps" ∷ codes "api" ∷ codes "dev" ∷ []

matches_recursive_manifest_path_iff_example :
    (matches_recursive_manifest_path (app_front ++ codes "**" ∷ app_back) app_directory 1 ≡ true)
    ↔ ((mid : List Text) × (app_directory ≡ app_front ++ (mid ++ app_back)))
matches_recursive_manifest_path_iff_example =
    matches_recursive_manifest_path_iff app_front (codes "**") app_back app_directory
