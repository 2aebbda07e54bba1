-- ===== src/Rule/Location/Inside.antt =====
-- internal/model/rule.go: where the expansion of captures can lead.
use image_updater.Prelude.{
  ℕ, ◌≡◌, ◌≢◌, refl, sym, subst, true, false, [], ◌∷◌, arith, All, inl, inr, Bool-cases, ◌==◌,
  ==_iff,
}
use image_updater.Text.{Text, codes, has_byte, contains_any, text_eq, text_eq_iff}
use image_updater.Std.{Std}
use image_updater.Model.Errors.{ok, ok-of_>>=}
use image_updater.Rule.Types.{ManifestLocation}
use image_updater.Rule.Url.{parse_manifest_url}
use image_updater.Rule.Url.Safe.{IsInside, parse_manifest_url-IsInside}
use image_updater.Rule.Select.{MatchedRule}
use image_updater.Rule.Location.{
  Captures, variables, is_unsafe, check_captures, expand_variables, location,
}

-- A value that can stand in a path: no directory above, no separator and no wildcard character.
pub record IsHarmless (value : Text) : Type 0 where
  pub here : value ≢ codes "."
  pub above : value ≢ codes ".."
  pub separators : (has_byte b'/' value ≡ false) × (has_byte b'\\' value ≡ false)
  pub wildcards :
      (has_byte b'*' value ≡ false)
      × (has_byte b'?' value ≡ false)
      × (has_byte b'[' value ≡ false)
      × (has_byte b']' value ≡ false)

-- A location that comes of captures: each of them is a harmless part of a path, all variables of the
-- template are replaced, and the location is that of the expanded URL, which leads inside its repository.
pub record IsExpanded (std : Std) (m : MatchedRule) (l : ManifestLocation) : Type 0 where
  pub captures : Captures
  pub captured : variables m.compiled m.event ≡ ok captures
  pub harmless : All (λ (c : Text × Text). IsHarmless c.1) (std.iterate captures)
  pub resolved :
      has_byte b'$' (expand_variables m.compiled.rule.manifest_url (std.iterate captures)) ≡ false
  pub parsed :
      parse_manifest_url std (expand_variables m.compiled.rule.manifest_url (std.iterate captures))
      ≡ ok l
  pub inside : IsInside l

has-contains_any :
    (c : ℕ) (set value : Text)
    → has_byte c set ≡ true
    → contains_any set value ≡ false
    → has_byte c value ≡ false
unfolding contains_any has_byte
has-contains_any c set [] h k = refl
has-contains_any c set (d ∷ value) h k = elim (Bool-cases (d == c)) [
  | inr e ↦ ground (arith, e, k, has-contains_any c set value h)
  | inl e ↦
      absurd (ground (arith, k, subst (λ x. has_byte x set ≡ true) (sym ((==_iff d c).0 e)) h))
]

unequal : (s t : Text) → text_eq s t ≡ false → s ≢ t
unequal s t h e = ground (arith, (text_eq_iff s t).1 e, h)

is_unsafe-IsHarmless : (value : Text) → is_unsafe value ≡ false → IsHarmless value
unfolding is_unsafe has_byte
is_unsafe-IsHarmless value h = record {
  here = unequal value (codes ".") (ground (arith, h));
  above = unequal value (codes "..") (ground (arith, h));
  separators = (lacks b'/' refl, lacks b'\\' refl);
  wildcards = (lacks b'*' refl, lacks b'?' refl, lacks b'[' refl, lacks b']' refl);
}
  where
    set : Text
    set = codes "/\\*?[]"

    lacks : (c : ℕ) → has_byte c set ≡ true → has_byte c value ≡ false
    lacks c k = has-contains_any c set value k (ground (arith, h))

All-check_captures :
    (captures : Captures) {u : Unit {0}}
    → check_captures captures ≡ ok u
    → All (λ (c : Text × Text). IsHarmless c.1) captures
unfolding check_captures
All-check_captures [] h = tt
All-check_captures ((n, v) ∷ captures) h = elim (Bool-cases (is_unsafe v)) [
  | inl e ↦ absurd (ground (arith, e, h))
  | inr e ↦ (is_unsafe-IsHarmless v e, All-check_captures captures (ground (arith, e, h)))
]

-- A location that `Location` returns is the one that the rule's URL names once its variables are
-- expanded with the captures of the event: no variable is left over in the expanded URL, each capture
-- is a harmless part of a path (not `.` or `..`, and with no slash, backslash, `*`, `?`, `[` or `]` in
-- it), and the location lies inside its repository.
pub location-IsExpanded :
    (std : Std) (m : MatchedRule) {l : ManifestLocation}
    → location std m ≡ ok l
    → IsExpanded std m l
unfolding location
location-IsExpanded std m {l} h =
    let (captures, e, h1) = ok-of_>>= (variables m.compiled m.event) _ h in
    let (_, c, h2) = ok-of_>>= (check_captures (std.iterate captures)) _ h1 in
    elim (Bool-cases
      (has_byte b'$' (expand_variables m.compiled.rule.manifest_url (std.iterate captures)))) [
        | inl d ↦ absurd (ground (arith, d, h2))
        | inr d ↦ record {
          captures = captures;
          captured = e;
          harmless = All-check_captures (std.iterate captures) c;
          resolved = d;
          parsed = ground (arith, d, h2);
          inside =
              parse_manifest_url-IsInside std
                (expand_variables m.compiled.rule.manifest_url (std.iterate captures))
                (ground (arith, d, h2));
        }
      ]
