-- ===== src/Updater/Branch.antt =====
-- internal/application/updater/service.go: the names of branches.
use image_updater.Prelude.{Bool, List, [], ◌∷◌, ◌++◌, ◌||◌, ◌==◌, ◌≡◌, refl, if◌then◌else◌}
use image_updater.Text.{
  Text, codes, is_empty, trim, replace_all, contains, contains_any, has_prefix, has_suffix,
}
use image_updater.Text.Split.{split, join}
use image_updater.Std.{Std}
use image_updater.Model.Errors.{plain, Result, ok, err}
use image_updater.Model.Image.{ImagePushEvent}
use image_updater.Rule.Types.{ManifestLocation}
use image_updater.Updater.Types.{ManifestTarget, RepositoryPlan}

drop_namespace : List Text → List Text
drop_namespace (s ∷ t ∷ segments) = t ∷ segments
drop_namespace segments = segments

-- imageName
unfoldable pub image_name : Text → Text
unfolding trim split join drop_namespace
image_name repository =
    join (codes "/") (drop_namespace (split b'/' (trim (λ c. c == b'/') repository)))

-- "\x00"
abbrev pub nul : Text
nul = 0 ∷ []

-- manifestRepositoryKey
unfoldable pub manifest_repository_key : Std → ManifestLocation → Text
manifest_repository_key std l = std.lower l.owner ++ (nul ++ std.lower l.repository)

-- The name of the image in a branch name.
flat_name : ImagePushEvent → Text
unfolding replace_all image_name
flat_name event = replace_all (image_name event.repository) (codes "/") (codes "_")

-- branchFormat
branch_format : Text → Text → Text → Text → Text
branch_format name env tag digest =
    codes "image_updater_" ++ (name ++ (b'_' ∷ (env ++ (b'_' ∷ (tag ++ (b'_' ∷ digest))))))

-- branchName
unfoldable pub branch_name : Std → ImagePushEvent → Text → ManifestLocation → Text
unfolding join flat_name branch_format
branch_name std event env l = branch_format (flat_name event) env event.tag (
    std.digest
      (join nul (event.host ∷ event.repository ∷ l.repository_url ∷ l.dir ∷ env ∷ event.tag ∷ [])))

-- The directories and environments that the identity of a branch lists.
identities : List ManifestTarget → List Text
identities [] = []
identities (t ∷ ts) = t.location.dir ∷ t.env ∷ identities ts

-- The branch of a repository with several targets.
shared_branch_name : Std → ImagePushEvent → Text → ManifestLocation → List ManifestTarget → Text
unfolding join flat_name branch_format manifest_repository_key identities
shared_branch_name std event env l targets = branch_format (flat_name event) env event.tag (
    std.digest (
      join nul (
        event.host
        ∷ event.repository
        ∷ manifest_repository_key std l
        ∷ event.tag
        ∷ identities targets)))

-- repositoryBranchName, by the number of targets
branch_of : Std → ImagePushEvent → Text → ManifestLocation → List ManifestTarget → Text
unfolding branch_name shared_branch_name
branch_of std event env l (t ∷ []) = branch_name std event env t.location
branch_of std event env l targets = shared_branch_name std event env l targets

-- repositoryBranchName
unfoldable pub repository_branch_name : Std → ImagePushEvent → Text → RepositoryPlan → Text
unfolding branch_of
repository_branch_name std event env plan = branch_of std event env plan.location plan.targets

legacy_of : ImagePushEvent → Text → List ManifestTarget → Text
unfolding flat_name
legacy_of event env (t ∷ []) =
    codes "image_updater_" ++ (flat_name event ++ (b'_' ∷ (env ++ (b'_' ∷ event.tag))))
legacy_of event env targets = []

-- legacyRepositoryBranchName
unfoldable pub legacy_repository_branch_name : ImagePushEvent → Text → RepositoryPlan → Text
unfolding legacy_of
legacy_repository_branch_name event env plan = legacy_of event env plan.targets

-- invalidBranchCharacters: space, tab and DEL among them
abbrev pub invalid_branch_characters : Text
invalid_branch_characters = codes " " ++ (9 ∷ (codes "~^:?*[\\" ++ 0x7F ∷ []))

-- The tests of `validateBranch`.
unfoldable pub is_invalid_branch : Text → Bool
unfolding is_empty contains has_suffix has_prefix contains_any
is_invalid_branch branch =
    is_empty branch
    || (contains (codes "..") branch
        || (has_suffix (codes ".") branch
            || (has_prefix (codes "-") branch
                || (has_suffix (codes ".lock") branch
                    || contains_any invalid_branch_characters branch))))

-- validateBranch
unfoldable pub validate_branch : Text → Result (Unit {0})
unfolding is_invalid_branch
validate_branch branch = if is_invalid_branch branch then err (plain (branch ∷ [])) else ok tt

name_without_namespace : image_name (codes "/apps/platform/tool/") ≡ codes "platform/tool"
unfolding image_name
name_without_namespace = refl
