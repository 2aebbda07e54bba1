-- ===== src/Rule/Select/Fits.antt =====
-- `compiledRule.match` against a relation between a pattern and a repository path.
use image_updater.Prelude.{
  ℕ, suc, ◌+◌, ◌≡◌, ◌↔◌, refl, true, false, List, [], ◌∷◌, some, arith, length, Bool-cases, inl,
  inr, ◌∙◌, ==_refl,
}
use native.Mathlib.Nat.{zero-add}
use image_updater.Text.{Text, text_eq_iff, is_empty}
use image_updater.Model.Image.{ImagePushEvent}
use image_updater.Rule.Types.{CompiledRule}
use image_updater.Rule.Path.{split_path}
use image_updater.Rule.Select.{is_open, match_segments, match}

-- A pattern covers a path of as many segments: `*` and a capture stand for any segment, every other
-- segment for itself. The number counts these others.
pub data Fits : List Text → List Text → ℕ → Type 0 where
  end : Fits [] [] 0
  free :
      {s r : Text} {ss rs : List Text} {w : ℕ}
      → is_open s ≡ true
      → Fits ss rs w
      → Fits (s ∷ ss) (r ∷ rs) w
  literal :
      {s r : Text} {ss rs : List Text} {w : ℕ}
      → is_open s ≡ false
      → s ≡ r
      → Fits ss rs w
      → Fits (s ∷ ss) (r ∷ rs) (suc w)

Fits-length : {ss rs : List Text} {w : ℕ} → Fits ss rs w → length ss ≡ length rs
Fits-length end = refl
Fits-length (free o f) = omega (arith, Fits-length f)
Fits-length (literal o e f) = omega (arith, Fits-length f)

match_segments-of_Fits :
    {ss rs : List Text} {w : ℕ} → Fits ss rs w → (k : ℕ) → match_segments ss rs k ≡ some (k + w)
unfolding match_segments
match_segments-of_Fits end k = ground arith
match_segments-of_Fits (free {rs = rs} o f) k = rw o (match_segments-of_Fits f k)
match_segments-of_Fits (literal {s = s} {r = r} o e f) k =
    rw (o, (text_eq_iff s r).1 e, match_segments-of_Fits f (suc k)) (ground arith)

Fits-match_segments :
    (ss rs : List Text) (k w : ℕ)
    → length ss ≡ length rs
    → match_segments ss rs k ≡ some w
    → (n : ℕ) × Fits ss rs n × (w ≡ k + n)
unfolding match_segments
Fits-match_segments [] [] k w l h = (0, end, ground arith)
Fits-match_segments [] (r ∷ rs) k w l h = absurd (omega arith)
Fits-match_segments (s ∷ ss) [] k w l h = absurd (omega arith)
Fits-match_segments (s ∷ ss) (r ∷ rs) k w l h = elim (Bool-cases (is_open s)) [
  | inl o ↦
      let (n, f, e) = Fits-match_segments ss rs k w (omega arith) (ground arith) in (n, free o f, e)
  | inr o ↦
      let (n, f, e) = Fits-match_segments ss rs (suc k) w (omega arith) (ground arith) in
      (suc n, literal o ((text_eq_iff s r).0 (ground arith)) f, omega arith)
]

-- A rule covers an event exactly when the event names the rule's registry host, which is not empty,
-- and the rule's segments cover the repository path; the weight is the number of its segments that
-- are neither `*` nor a capture.
pub match-Fits :
    (c : CompiledRule) (event : ImagePushEvent) (w : ℕ)
    → (match c event ≡ some w) ↔ (
        (is_empty event.host ≡ false)
        × (event.host ≡ c.host)
        × Fits c.segments (split_path event.repository) w)
unfolding match
match-Fits c event w = (
  λ h.
      let (n, f, e) =
        Fits-match_segments c.segments (split_path event.repository) 0 w (ground arith)
          (ground arith) in
      (ground arith, (text_eq_iff event.host c.host).0 (ground arith), (rw (e ∙ zero-add n) f)),
  λ (a, b, f).
      rw
        (a, (text_eq_iff event.host c.host).1 b, Fits-length f, ==_refl, match_segments-of_Fits f 0)
        (ground arith),
)
