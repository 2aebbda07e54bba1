-- ===== src/Hosting.antt =====
-- internal/infrastructure/githost/github/repository.go: `Checkout` and `validateRepositoryURL`. What the
-- token, the file system and git answer is a parameter.
pub mod Guard
use image_updater.Prelude.{
  Bool, true, false, not, ◌||◌, List, [], ◌∷◌, ◌++◌, Option, none, some, if◌then◌else◌, ◌==◌,
}
use image_updater.Text.{Text, codes, text_eq, is_empty, trim}
use image_updater.Text.Split.{split}
use image_updater.Std.{Url}
use image_updater.Model.Errors.{Error, plain, wrap, Result, ok, err}

-- What `Checkout` does outside the process.
pub data HostCall : Type 0 where
  get_token make_directory : HostCall
  -- the directory, the URL and the token
  clone : Text → Text → Text → HostCall
  remove : Text → HostCall

-- `url.Parse`, the installation token, `os.MkdirTemp` and the clone of the base branch into a
-- directory.
pub record Origin : Type 0 where
  pub parse_url : Text → Option Url
  pub token : Result Text
  pub make_directory : Result Text
  pub clone : Text → Text → Text → Result (Unit {0})

-- Two segments that are not empty.
unfoldable pub is_owner_and_repository : List Text → Bool
unfolding is_empty
is_owner_and_repository (owner ∷ repository ∷ []) = not (is_empty owner || is_empty repository)
is_owner_and_repository _ = false

-- Whether the URL is more or other than an https URL of the site.
unfoldable pub is_foreign : Url → Bool
unfolding text_eq is_empty
is_foreign u =
    not (text_eq u.scheme (codes "https"))
    || (not (text_eq u.host (codes "github.com"))
        || (u.user || (not (is_empty u.raw_query) || not (is_empty u.fragment))))

-- The segments of a URL's path.
unfoldable pub path_segments : Url → List Text
unfolding split trim
path_segments u = split b'/' (trim (λ c. c == b'/') u.path)

-- validateRepositoryURL
unfoldable pub validate_repository_url : Origin → Text → Result (Unit {0})
unfolding is_foreign is_owner_and_repository path_segments
validate_repository_url o raw = elim (o.parse_url raw) [
  | none ↦ err (wrap (raw ∷ []) (plain []))
  | some u ↦
      if is_foreign u
      then err (plain (raw ∷ []))
      else if is_owner_and_repository (path_segments u)
      then ok tt
      else err (plain (raw ∷ []))
]

-- The clone into a directory, which is removed if the clone fails.
unfoldable pub clone_into : Origin → Text → Text → Text → Result Text × List HostCall
clone_into o url token dir = elim (o.clone dir url token) [
  | ok _ ↦ (ok dir, clone dir url token ∷ [])
  | err e ↦ (err (wrap (url ∷ []) e), clone dir url token ∷ remove dir ∷ [])
]

-- `Checkout` behind the check and the token.
unfoldable pub with_token : Origin → Text → Text → Result Text × List HostCall
unfolding clone_into
with_token o url token = elim o.make_directory [
  | err e ↦ (err (wrap [] e), make_directory ∷ [])
  | ok dir ↦ let (result, calls) = clone_into o url token dir in (result, make_directory ∷ calls)
]

-- Repository.Checkout: the directory of the working copy, and the calls
unfoldable pub checkout : Origin → Text → Result Text × List HostCall
unfolding validate_repository_url with_token
checkout o url = elim (validate_repository_url o url) [
  | err e ↦ (err e, [])
  | ok _ ↦ elim o.token [
    | err e ↦ (err (wrap [] e), get_token ∷ [])
    | ok token ↦ let (result, calls) = with_token o url token in (result, get_token ∷ calls)
  ]
]
