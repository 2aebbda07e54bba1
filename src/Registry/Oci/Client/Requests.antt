-- ===== src/Registry/Oci/Client/Requests.antt =====
-- internal/infrastructure/registry/oci/client.go: the requests that `Resolve` makes.
use image_updater.Prelude.{
  ℕ, ◌+◌, ◌≤◌, ◌≡◌, ◌⊎◌, inl, inr, refl, sym, ap, subst, ◌∙◌, Bool, true, false, List, [], ◌∷◌,
  ◌++◌, all, All, All-append, append_assoc, append-nil, Bool-cases, length, length-append, arith,
  if◌then◌else◌, ◌==◌,
}
use image_updater.Text.{Text, codes, is_empty, has_byte, contains}
use image_updater.Text.Split.{cut}
use image_updater.Model.Errors.{plain, Result, ok, err, Result-cases, ok-of_>>=}
use image_updater.Model.Image.{ImageReference, to_text}
use image_updater.Registry.Oci.{
  Manifest, image_digest, validate_reference, validate_digest, validate_path_component, letters,
  repository_characters, algorithm_characters, digest_characters,
}
use image_updater.Registry.Oci.Client.{
  Client, Request, Fetch, ◌>>=◌, after, lift, url_of, get_json, manifest, fetch_config,
  wrapped_host, image_config, follow, resolve,
}

-- A text that is not empty, has characters of a set only, and no `..`.
pub IsComponent : Text → Text → Type 0
IsComponent allowed value =
    (is_empty value ≡ false)
    × (all (λ c. has_byte c allowed) value ≡ true)
    × (contains (codes "..") value ≡ false)

pub IsDigest : Text → Type 0
IsDigest digest =
    (algorithm : Text) × (encoded : Text) × (digest ≡ algorithm ++ b':' ∷ encoded)
    × IsComponent algorithm_characters algorithm
    × IsComponent digest_characters encoded

validate-IsComponent :
    (name value allowed : Text)
    → validate_path_component name value allowed ≡ ok tt
    → IsComponent allowed value
unfolding validate_path_component IsComponent
validate-IsComponent name value allowed h =
    (ground (arith, h), ground (arith, h), ground (arith, h))

cut-found : (sep : ℕ) (s : Text) → (cut sep s).2 ≡ true → s ≡ (cut sep s).0 ++ sep ∷ (cut sep s).1
unfolding cut
cut-found sep [] h = absurd (cc h)
cut-found sep (c ∷ s) h = elim (Bool-cases (c == sep)) [
  | inl e ↦ rw e (ap (λ d. d ∷ s) (ground (arith, e)))
  | inr e ↦ rw e (ap (λ t. c ∷ t) (cut-found sep s (ground (arith, e, h))))
]

validate-IsDigest : (digest : Text) → validate_digest digest ≡ ok tt → IsDigest digest
unfolding validate_digest IsDigest
validate-IsDigest digest h = elim (Bool-cases (cut b':' digest).2) [
  | inr e ↦ absurd (ground (arith, e, h))
  | inl e ↦
      let (u, first, second) =
        ok-of_>>=
          (validate_path_component (codes "digest algorithm") (cut b':' digest).0
            algorithm_characters)
          (λ _. validate_path_component (codes "digest") (cut b':' digest).1 digest_characters)
          (rw (e, validate_digest) at h) in
      (
        (cut b':' digest).0,
        (cut b':' digest).1,
        cut-found b':' digest e,
        validate-IsComponent (codes "digest algorithm") (cut b':' digest).0 algorithm_characters
            first,
        validate-IsComponent (codes "digest") (cut b':' digest).1 digest_characters second,
      )
]

-- A request for a part of the repository, under its tag or a digest, with the header that was given.
pub IsSafe : Client → ImageReference → Request → Type 0
IsSafe c ref r =
    (header : Text) × (part : Text) × (name : Text) × (c.auth_header ref ≡ ok header)
    × (r.url
        ≡ c.scheme
          ++ (codes "://" ++ (ref.host ++ (codes "/v2/" ++ (ref.repository ++ (part ++ name))))))
    × (r.authorization ≡ header)
    × IsComponent repository_characters ref.repository
    × (((part ≡ codes "/manifests/")
          × (((name ≡ ref.tag) × IsComponent letters name) ⊎ IsDigest name))
        ⊎ ((part ≡ codes "/blobs/") × IsDigest name))

-- A step adds no more than some requests, all of which are as they should be.
Makes : {A : Type 0} → (Request → Type 0) → ℕ → Fetch A → Type 0
Makes P n m =
    (log : List Request)
    → (new : List Request) × ((m log).1 ≡ log ++ new) × All P new × (length new ≤ n)

module _ (P : Request → Type 0) where
  lift-Makes : {A : Type 0} (r : Result A) → Makes P 0 (lift r)
  unfolding Makes
  lift-Makes r log = ([], sym (append-nil log), tt, omega arith)

  bind-Makes :
      {A B : Type 0} (m : Fetch A) (f : A → Fetch B) (a b : ℕ)
      → Makes P a m
      → ((log : List Request) (x : A) → (m log).0 ≡ ok x → Makes P b (f x))
      → Makes P (a + b) (m >>= f)
  unfolding Makes
  bind-Makes m f a b makes later log =
      let (new, grown, all, size) = makes log in
      elim (Result-cases (m log).0) [
        | inl (e, h) ↦ (new, ap (λ r. (after r f (m log).1).1) h ∙ grown, all, omega (arith, size))
        | inr (x, h) ↦
            let (more, grown', all', size') = later log x h (m log).1 in
            (
              new ++ more,
              ap (λ r. (after r f (m log).1).1) h
                  ∙ grown'
                  ∙ ap (λ l. l ++ more) grown
                  ∙ append_assoc log new more,
              All-append P new more all all',
              omega (arith, size, size', length-append new more),
            )
      ]

  if-Makes :
      {A : Type 0} (b : Bool) (n : ℕ) (l m : Fetch A)
      → Makes P n l
      → Makes P n m
      → Makes P n (if b then l else m)
  if-Makes true n l m h k = h
  if-Makes false n l m h k = k

  weaken-Makes : {A : Type 0} (m : Fetch A) → Makes P 0 m → Makes P 1 m
  unfolding Makes
  weaken-Makes m makes log =
      let (new, grown, all, size) = makes log in (new, grown, all, omega (arith, size))

-- What a checked reference is.
reference-IsComponent :
    (ref : ImageReference)
    → validate_reference ref ≡ ok tt
    → IsComponent repository_characters ref.repository × IsComponent letters ref.tag
unfolding validate_reference
reference-IsComponent ref h = elim (Bool-cases (is_empty ref.host)) [
  | inl e ↦ absurd (ground (arith, e, h))
  | inr e ↦
      let (u, first, second) =
        ok-of_>>=
          (validate_path_component (codes "repository") ref.repository repository_characters)
          (λ _. validate_path_component (codes "tag") ref.tag letters)
          (rw (e, validate_reference) at h) in
      (
        validate-IsComponent (codes "repository") ref.repository repository_characters first,
        validate-IsComponent (codes "tag") ref.tag letters second,
      )
]

module _ (c : Client) (ref : ImageReference) (header : Text)
    (authorized : c.auth_header ref ≡ ok header)
    (safe : IsComponent repository_characters ref.repository) where
  manifest-Makes :
      (name : Text)
      → ((name ≡ ref.tag) × IsComponent letters name) ⊎ IsDigest name
      → Makes (IsSafe c ref) 1 (manifest c ref header name)
  unfolding Makes manifest get_json IsSafe url_of
  manifest-Makes name h log = (
    _,
    refl,
    ((header, codes "/manifests/", name, authorized, refl, refl, safe, inl (refl, h)), tt),
    omega arith,
  )

  fetch_config-Makes :
      (digest : Text) → IsDigest digest → Makes (IsSafe c ref) 1 (fetch_config c ref header digest)
  unfolding Makes fetch_config get_json IsSafe url_of
  fetch_config-Makes digest h log = (
    _,
    refl,
    ((header, codes "/blobs/", digest, authorized, refl, refl, safe, inr (refl, h)), tt),
    omega arith,
  )

  image_config-Makes : (digest : Text) → Makes (IsSafe c ref) 1 (image_config c ref header digest)
  unfolding image_config
  image_config-Makes digest =
      bind-Makes (IsSafe c ref) (lift (validate_digest digest)) _ 0 1
        (lift-Makes (IsSafe c ref) (validate_digest digest))
        (λ log x h. fetch_config-Makes digest (validate-IsDigest digest h))

  follow-Makes : (m : Manifest) → Makes (IsSafe c ref) 1 (follow c ref header m)
  unfolding follow
  follow-Makes m =
      if-Makes (IsSafe c ref) (image_digest m).1 1 _ _
        (bind-Makes (IsSafe c ref) (lift (validate_digest (image_digest m).0)) _ 0 1
          (lift-Makes (IsSafe c ref) (validate_digest (image_digest m).0))
          (λ log x h.
            manifest-Makes (image_digest m).0 (inr (validate-IsDigest (image_digest m).0 h))))
        (weaken-Makes (IsSafe c ref) (lift (ok m)) (lift-Makes (IsSafe c ref) (ok m)))

authorized :
    (ref : ImageReference) (r : Result Text) {header : Text}
    → wrapped_host ref r ≡ ok header
    → r ≡ ok header
unfolding wrapped_host
authorized ref (ok a) h = h
authorized ref (err e) h = absurd (cc h)

resolve-Makes : (c : Client) (ref : ImageReference) → Makes (IsSafe c ref) 3 (resolve c ref)
unfolding resolve
resolve-Makes c ref =
    bind-Makes (IsSafe c ref) (lift (validate_reference ref)) _ 0 3
      (lift-Makes (IsSafe c ref) (validate_reference ref))
      (λ log x checked.
        let (repository, tag) = reference-IsComponent ref checked in
        bind-Makes (IsSafe c ref) (lift (wrapped_host ref (c.auth_header ref))) _ 0 3
          (lift-Makes (IsSafe c ref) (wrapped_host ref (c.auth_header ref)))
          (λ log header auth.
            let auth' = authorized ref (c.auth_header ref) auth in
            bind-Makes (IsSafe c ref) (manifest c ref header ref.tag) _ 1 2
              (manifest-Makes c ref header auth' repository ref.tag (inl (refl, tag)))
              (λ log index h.
                bind-Makes (IsSafe c ref) (follow c ref header index) _ 1 1
                  (follow-Makes c ref header auth' repository index)
                  (λ log m h.
                    bind-Makes (IsSafe c ref)
                      (lift (
                        if is_empty m.config_digest then err (plain (to_text ref ∷ [])) else ok tt))
                      _ 0 1
                      (lift-Makes (IsSafe c ref) (
                        if is_empty m.config_digest then err (plain (to_text ref ∷ [])) else ok tt))
                      (λ log y h.
                        bind-Makes (IsSafe c ref) (image_config c ref header m.config_digest) _ 1 0
                          (image_config-Makes c ref header auth' repository m.config_digest)
                          (λ log labels h. lift-Makes (IsSafe c ref) _))))))

-- Resolve makes three requests at most. Each is for a manifest under the reference's tag or a digest, or for a blob
-- under a digest, of the repository of the reference, and carries the header of the authenticator; the
-- repository, the tag and the parts of a digest are not empty, hold characters of their sets only, and no
-- `..`.
pub resolve-IsSafe :
    (c : Client) (ref : ImageReference)
    → All (IsSafe c ref) (resolve c ref []).1 × (length (resolve c ref []).1 ≤ 3)
unfolding Makes
resolve-IsSafe c ref =
    let (new, grown, all, size) = resolve-Makes c ref [] in
    (subst (All (IsSafe c ref)) (sym grown) all, omega (arith, ap length grown, size))
