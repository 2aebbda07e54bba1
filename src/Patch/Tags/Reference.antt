-- ===== src/Patch/Tags/Reference.antt =====
-- internal/infrastructure/manifest/kustomize/patcher.go: `repositoryPath` on the parts of a reference.
use image_updater.Prelude.{
  ◌≡◌, ◌≢◌, ◌⊎◌, inl, inr, refl, ap, ◌∙◌, true, false, ◌||◌, Option, none, some, List, [], ◌∷◌,
  ◌++◌, All, arith, Bool-cases, ℕ, append-nil,
}
use image_updater.Text.{Text, codes, has_byte, contains_any, text_eq_iff}
use image_updater.Text.Split.{split, join, cut, Lacks, split-join}
use image_updater.Patch.Tags.{is_registry_host, before, drop_host, drop_tag, repository_path}

-- A reference in parts: the segments of the repository are those in front and the last.
pub record Reference : Type 0 where
  pub registry : Option Text
  pub front : List Text
  pub last : Text
  pub tag : Option Text
  pub digest : Option Text

-- A part behind its separator, where it is there.
abbrev behind : Text → Option Text → Text
behind separator none = []
behind separator (some part) = separator ++ part

abbrev hosted : Option Text → List Text → List Text
hosted none segments = segments
hosted (some host) segments = host ∷ segments

-- registry/front/last:tag@digest
pub written : Reference → Text
written r =
    join (codes "/") (hosted r.registry (r.front ++ (r.last ++ behind (codes ":") r.tag) ∷ []))
    ++ behind (codes "@") r.digest

pub path : Reference → Text
path r = join (codes "/") (r.front ++ r.last ∷ [])

-- A registry's host has a dot or a port, or is the local one.
unfoldable pub IsHost : Text → Type 0
IsHost host = (has_byte b'.' host ≡ true) ⊎ (has_byte b':' host ≡ true) ⊎ (host ≡ codes "localhost")

abbrev pub IsPart : Text → Type 0
IsPart s = Lacks b'/' s × Lacks b'@' s

-- The first segment of two or more is a registry's host exactly if the reference has a registry.
abbrev pub Starts : Option Text → List Text → Type 0
Starts (some host) front = IsHost host × IsPart host
Starts none [] = Unit
Starts none (s ∷ front) = ¬ IsHost s

abbrev pub IsTagPart : Option Text → Type 0
IsTagPart none = Unit
IsTagPart (some tag) = IsPart tag

pub record IsReference (r : Reference) : Type 0 where
  pub starts : Starts r.registry r.front
  pub front : All IsPart r.front
  pub last : IsPart r.last
  pub no_port : Lacks b':' r.last
  pub tag : IsTagPart r.tag

pub before-append : (c : ℕ) (a b : Text) → Lacks c a → before c (a ++ c ∷ b) ≡ a
unfolding before cut
before-append c [] b h = ground arith
before-append c (x ∷ a) b (n, h) = ground (arith, before-append c a b h)

pub before-Lacks : (c : ℕ) (a : Text) → Lacks c a → before c a ≡ a
unfolding before cut
before-Lacks c [] h = refl
before-Lacks c (x ∷ a) (n, h) = ground (arith, before-Lacks c a h)

before-behind :
    (c : ℕ) (a : Text) (part : Option Text) → Lacks c a → before c (a ++ behind (c ∷ []) part) ≡ a
before-behind c a none h = ap (before c) (append-nil a) ∙ before-Lacks c a h
before-behind c a (some part) h = before-append c a part h

Lacks-append : (c : ℕ) (a b : Text) → Lacks c a → Lacks c b → Lacks c (a ++ b)
Lacks-append c [] b h k = k
Lacks-append c (x ∷ a) b (n, h) k = (n, Lacks-append c a b h k)

Lacks-join : (ss : List Text) → All IsPart ss → Lacks b'@' (join (codes "/") ss)
unfolding join
Lacks-join [] h = tt
Lacks-join (s ∷ []) ((p, q), h) = q
Lacks-join (s ∷ t ∷ ss) ((p, q), h) =
    Lacks-append b'@' s _ q ((λ e. absurd (omega (arith, e))), Lacks-join (t ∷ ss) h)

All-front : (s : Text) (ss : List Text) → All IsPart (s ∷ ss) → All (Lacks b'/') (s ∷ ss)
All-front s [] ((p, q), h) = (p, tt)
All-front s (t ∷ ss) ((p, q), h) = (p, All-front t ss h)

contains-either : (s : Text) → contains_any (codes ".:") s ≡ (has_byte b'.' s || has_byte b':' s)
unfolding contains_any has_byte
contains-either [] = refl
contains-either (c ∷ s) = ground (arith, contains-either s)

host_IsHost : (s : Text) → IsHost s → is_registry_host s ≡ true
unfolding is_registry_host IsHost
host_IsHost s (inl h) = ground (arith, contains-either s, h)
host_IsHost s (inr (inl h)) = ground (arith, contains-either s, h)
host_IsHost s (inr (inr h)) =
    ground (arith, contains-either s, (text_eq_iff s (codes "localhost")).1 h)

is_registry-IsHost : (s : Text) → is_registry_host s ≡ true → IsHost s
unfolding is_registry_host IsHost
is_registry-IsHost s e = elim (Bool-cases (has_byte b'.' s)) [
  | inl a ↦ inl a
  | inr a ↦ elim (Bool-cases (has_byte b':' s)) [
    | inl b ↦ inr (inl b)
    | inr b ↦
        inr
          (inr ((text_eq_iff s (codes "localhost")).0 (ground (arith, contains-either s, a, b, e))))
  ]
]

host_other : (s : Text) → (¬ IsHost s) → is_registry_host s ≡ false
host_other s n = elim (Bool-cases (is_registry_host s)) [
  | inr e ↦ e
  | inl e ↦ absurd (n (is_registry-IsHost s e))
]

drop_tag-last :
    (front : List Text) (s : Text) → drop_tag (front ++ s ∷ []) ≡ front ++ before b':' s ∷ []
unfolding drop_tag
drop_tag-last [] s = refl
drop_tag-last (f ∷ []) s = refl
drop_tag-last (f ∷ g ∷ front) s = ap (λ t. f ∷ t) (drop_tag-last (g ∷ front) s)

drop_host-hosted :
    (registry : Option Text) (front : List Text) (s : Text)
    → Starts registry front
    → drop_host (hosted registry (front ++ s ∷ [])) ≡ front ++ s ∷ []
unfolding drop_host
drop_host-hosted (some h) [] s (host, part) = rw (host_IsHost h host) refl
drop_host-hosted (some h) (f ∷ front) s (host, part) = rw (host_IsHost h host) refl
drop_host-hosted none [] s u = refl
drop_host-hosted none (f ∷ []) s n = rw (host_other f n) refl
drop_host-hosted none (f ∷ g ∷ front) s n = rw (host_other f n) refl

-- The parts of the written reference, up to the digest.
abbrev segments : Reference → List Text
segments r = hosted r.registry (r.front ++ (r.last ++ behind (codes ":") r.tag) ∷ [])

All-append_one : (ss : List Text) (s : Text) → All IsPart ss → IsPart s → All IsPart (ss ++ s ∷ [])
All-append_one [] s h p = (p, tt)
All-append_one (t ∷ ss) s (q, h) p = (q, All-append_one ss s h p)

IsPart-tagged :
    (s : Text) (t : Option Text) → IsPart s → IsTagPart t → IsPart (s ++ behind (codes ":") t)
IsPart-tagged s none (p, q) u = (Lacks-append b'/' s [] p tt, Lacks-append b'@' s [] q tt)
IsPart-tagged s (some t) (p, q) (u, v) = (
  Lacks-append b'/' s (b':' ∷ t) p ((λ e. absurd (omega (arith, e))), u),
  Lacks-append b'@' s (b':' ∷ t) q ((λ e. absurd (omega (arith, e))), v),
)

All-hosted :
    (registry : Option Text) (front ss : List Text)
    → Starts registry front
    → All IsPart ss
    → All IsPart (hosted registry ss)
All-hosted none front ss u h = h
All-hosted (some r) front ss (host, part) h = (part, h)

split-segments : (ss : List Text) → ss ≢ [] → All IsPart ss → split b'/' (join (codes "/") ss) ≡ ss
split-segments [] n h = absurd (n refl)
split-segments (s ∷ ss) n h = split-join b'/' s ss (All-front s ss h)

hosted-ne-nil :
    (registry : Option Text) (front : List Text) (s : Text) → hosted registry (front ++ s ∷ []) ≢ []
hosted-ne-nil (some r) front s e = cc
hosted-ne-nil none [] s e = cc
hosted-ne-nil none (f ∷ front) s e = cc

-- `repositoryPath` of a written reference is its repository: without the registry, the tag and the
-- digest, whichever of these are there.
pub repository_path-written : (r : Reference) → IsReference r → repository_path (written r) ≡ path r
unfolding repository_path written path
repository_path-written r i =
    ap (λ s. join (codes "/") (drop_tag (drop_host (split b'/' s))))
      (before-behind b'@' (join (codes "/") (segments r)) r.digest (Lacks-join (segments r) parts))
    ∙ ap (λ ss. join (codes "/") (drop_tag (drop_host ss)))
        (split-segments (segments r)
          (hosted-ne-nil r.registry r.front (r.last ++ behind (codes ":") r.tag)) parts)
    ∙ ap (λ ss. join (codes "/") (drop_tag ss))
        (drop_host-hosted r.registry r.front (r.last ++ behind (codes ":") r.tag) i.starts)
    ∙ ap (join (codes "/")) (drop_tag-last r.front (r.last ++ behind (codes ":") r.tag))
    ∙ ap (λ s. join (codes "/") (r.front ++ s ∷ [])) (before-behind b':' r.last r.tag i.no_port)
  where
    parts : All IsPart (segments r)
    parts =
        All-hosted r.registry r.front (r.front ++ (r.last ++ behind (codes ":") r.tag) ∷ [])
          i.starts
          (All-append_one r.front (r.last ++ behind (codes ":") r.tag) i.front
            (IsPart-tagged r.last r.tag i.last i.tag))
