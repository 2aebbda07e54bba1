-- ===== src/Hosting/Guard.antt =====
-- internal/infrastructure/githost/github/repository.go: where the token goes, and which directories
-- are left.
use image_updater.Prelude.{◌≡◌, ◌⊎◌, false, List, [], ◌∷◌, some}
use image_updater.Text.{Text, codes, is_empty}
use image_updater.Std.{Url}
use image_updater.Model.Errors.{Result, ok, is_ok}
use image_updater.Hosting.{
  Origin, HostCall, get_token, make_directory, clone, remove, path_segments,
}

-- A URL of a repository on GitHub, without credentials, port, query or fragment.
pub IsGithub : Origin → Text → Type 0
IsGithub o url =
    (u : Url) × (owner : Text) × (repository : Text) × (o.parse_url url ≡ some u)
    × (u.scheme ≡ codes "https")
    × (u.host ≡ codes "github.com")
    × (u.user ≡ false)
    × (u.raw_query ≡ [])
    × (u.fragment ≡ [])
    × (path_segments u ≡ owner ∷ repository ∷ [])
    × (is_empty owner ≡ false)
    × (is_empty repository ≡ false)

-- The ways in which a checkout ends once its URL was accepted.
pub Ends : Origin → Text → Result Text × List HostCall → Type 0
Ends o url (result, calls) =
    ((is_ok result ≡ false) × (calls ≡ get_token ∷ []))
    ⊎ (((is_ok result ≡ false) × (calls ≡ get_token ∷ make_directory ∷ []))
        ⊎ ((token : Text) × (dir : Text) × (o.token ≡ ok token)
            × (o.make_directory ≡ ok dir)
            × (((result ≡ ok dir) × (calls ≡ get_token ∷ make_directory ∷ clone dir url token ∷ []))
                ⊎ ((is_ok result ≡ false)
                    × (calls
                        ≡ get_token ∷ make_directory ∷ clone dir url token ∷ remove dir ∷ [])))))

-- A result behind one more call.
abbrev behind : HostCall → Result Text × List HostCall → Result Text × List HostCall
behind c (result, calls) = (result, c ∷ calls)
