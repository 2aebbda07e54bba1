-- ===== src/Updater/Targets.antt =====
-- internal/application/updater/service.go: `normalizeManifestTargets` and the environments of a
-- repository.
pub mod Order
pub mod Normal
pub mod Failure
use image_updater.Prelude.{
  Bool, true, false, not, bool_ne, List, [], ◌∷◌, ◌++◌, ◌||◌, ◌&&◌, if◌then◌else◌, sort_by, any,
}
use image_updater.Text.{Text, codes, text_eq}
use image_updater.Text.Order.{text_lt}
use image_updater.Text.Split.{join}
use image_updater.Model.Errors.{sentinel, wrap, incomplete_rule, Result, ok, err}
use image_updater.Updater.Types.{ManifestTarget}

-- The order of the targets: by directory, then by environment.
unfoldable pub target_lt : ManifestTarget → ManifestTarget → Bool
unfolding text_lt text_eq
target_lt a b =
    if text_eq a.location.dir b.location.dir
    then text_lt a.env b.env
    else text_lt a.location.dir b.location.dir

-- previous.env != target.env || previous.writesImageManifest != target.writesImageManifest
unfoldable pub conflicts : ManifestTarget → ManifestTarget → Bool
unfolding text_eq
conflicts p t = not (text_eq p.env t.env) || bool_ne p.writes_image_manifest t.writes_image_manifest

prepend : ManifestTarget → Result (List ManifestTarget) → Result (List ManifestTarget)
prepend p (ok ts) = ok (p ∷ ts)
prepend p (err e) = err e

-- The loop over the sorted targets behind one that was kept: `previous` is the last that was.
unique_from : Text → ManifestTarget → List ManifestTarget → Result (List ManifestTarget)
unfolding text_eq conflicts prepend
unique_from url previous [] = ok (previous ∷ [])
unique_from url previous (t ∷ ts) =
    let skipped = unique_from url previous ts in
    let kept = prepend previous (unique_from url t ts) in
    if text_eq previous.location.dir t.location.dir
    then if conflicts previous t
      then err (wrap (url ∷ t.location.dir ∷ []) (sentinel incomplete_rule))
      else skipped
    else kept

unique : Text → List ManifestTarget → Result (List ManifestTarget)
unfolding unique_from
unique url [] = ok []
unique url (t ∷ ts) = unique_from url t ts

-- normalizeManifestTargets
unfoldable pub normalize_manifest_targets :
    Text → List ManifestTarget → Result (List ManifestTarget)
unfolding unique target_lt sort_by
normalize_manifest_targets url targets = unique url (sort_by target_lt targets)

-- The environments, each once, in the order of the targets.
distinct_envs : List ManifestTarget → List Text → List Text
unfolding text_eq
distinct_envs [] seen = seen
distinct_envs (t ∷ ts) seen =
    distinct_envs ts (if any (λ e. text_eq e t.env) seen then seen else seen ++ t.env ∷ [])

-- The sorted environments.
unfoldable pub environments : List ManifestTarget → List Text
unfolding distinct_envs text_lt sort_by
environments targets = sort_by text_lt (distinct_envs targets [])
