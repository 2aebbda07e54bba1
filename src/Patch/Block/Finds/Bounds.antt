-- ===== src/Patch/Block/Finds/Bounds.antt =====
-- internal/infrastructure/manifest/kustomize/document.go: the lines between which `findManifestBlock`
-- finds a block.
use image_updater.Prelude.{
  ℕ, suc, ◌+◌, ◌≤◌, ◌<◌, ◌≡◌, ◌⊎◌, refl, sym, ◌∙◌, true, false, List, [], ◌∷◌, Option, none, some,
  arith, inl, inr, Bool-cases, ltb, length,
}
use image_updater.Text.{Text}
use image_updater.Manifest.Comment.{is_image_manifest_begin, is_image_manifest_end}
use image_updater.Patch.Block.{find_from}
use image_updater.Patch.Block.Finds.{step_begin, step_other, step_end, past_stop}

-- The bounds of a block that is found.
Within : (i stop size : ℕ) (begin : Option ℕ) (b e : ℕ) → Type 0
Within i stop size begin b e = (e ≤ stop) × (e ≤ size + i) × (i < e) × ((begin ≡ some b) ⊎ (b < e))

found-Within :
    (lines : List Text) (i stop : ℕ) (begin : Option ℕ) {b e : ℕ}
    → find_from lines i stop begin ≡ some (b, e)
    → Within i stop (length lines) begin b e
unfolding find_from Within
found-Within [] i stop begin h = cc
found-Within (line ∷ lines) i stop begin {b} {e} h = elim (Bool-cases (ltb i stop)) [
  | inr out ↦ absurd (cc (past_stop line lines i stop begin out, h))
  | inl inside ↦ elim (Bool-cases (is_image_manifest_begin line)) [
    | inl m ↦ fresh (
        found-Within lines (suc i) stop (some i)
          (sym (step_begin line i begin m lines stop (ground arith)) ∙ h))
    | inr m ↦ elim (Bool-cases (is_image_manifest_end line)) [
      | inr n ↦ same (
          found-Within lines (suc i) stop begin
            (sym (step_other line i begin m (inl n) lines stop (ground arith)) ∙ h))
      | inl n ↦ closing begin m n (ground arith) h (found-Within lines (suc i) stop begin)
    ]
  ]
]
  where
    fresh :
        Within (suc i) stop (length lines) (some i) b e
        → Within i stop (length (line ∷ lines)) begin b e
    fresh (p, q, r, inl k) = (p, omega (arith, q), omega (arith, r), inr (bound k r))
      where
        bound : ◌≡◌ {A = Option ℕ} (some i) (some b) → suc i < e → b < e
        bound z r = ground arith
    fresh (p, q, r, inr k) = (p, omega (arith, q), omega (arith, r), inr k)

    same :
        Within (suc i) stop (length lines) begin b e
        → Within i stop (length (line ∷ lines)) begin b e
    same (p, q, r, k) = (p, omega (arith, q), omega (arith, r), k)

    closing :
        (was : Option ℕ)
        → is_image_manifest_begin line ≡ false
        → is_image_manifest_end line ≡ true
        → i < stop
        → find_from (line ∷ lines) i stop was ≡ some (b, e)
        → (find_from lines (suc i) stop was ≡ some (b, e)
            → Within (suc i) stop (length lines) was b e)
        → Within i stop (length (line ∷ lines)) was b e
    closing none m n inside k ih =
        let (p, q, r, z) = ih (sym (step_other line i none m (inr refl) lines stop inside) ∙ k) in
        (p, omega (arith, q), omega (arith, r), z)
    closing (some b') m n inside k ih =
        let e' : ◌≡◌ {A = Option (ℕ × ℕ)} (some (b', suc i)) (some (b, e)) =
          sym (step_end line i b' lines stop m n inside) ∙ k in
        (ground arith, ground arith, ground arith, inl (cc e'))

-- A block that is found lies inside the region that is searched.
pub found_bounds :
    (lines : List Text) (i stop : ℕ) {b e : ℕ}
    → find_from lines i stop none ≡ some (b, e)
    → (e ≤ stop) × (e ≤ length lines + i) × (b < e)
unfolding Within
found_bounds lines i stop h =
    let (p, q, r, k) = found-Within lines i stop none h in
    elim k [ inl z ↦ absurd (cc z) | inr z ↦ (p, q, z) ]
