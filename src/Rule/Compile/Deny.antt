-- ===== src/Rule/Compile/Deny.antt =====
-- `ValidateTag` of a compiled rule, by the patterns of the configuration.
use image_updater.Prelude.{
  any-append, ◌<◌, ◌⊎◌, length, refl, ℕ, suc, ◌+◌, ◌≡◌, ◌∙◌, sym, true, false, ◌||◌, append-nil,
  append_assoc, get_or, Bool-cases, List, [], ◌∷◌, ◌++◌, none, some, arith, any, if◌then◌else◌, inl,
  inr, ap,
}
use image_updater.Text.{Text}
use image_updater.Model.Errors.{
  sentinel, wrap, image_tag_not_allowed, image_tag_denied, ok, err, ok-of_>>=,
}
use image_updater.Std.{Std}
use image_updater.Rule.Types.{Rule, TagMatcher, CompiledRule}
use image_updater.Rule.Tag.{new_tag_matcher, empty, matches, check_denied, validate_tag}
use image_updater.Rule.Tag.Verdict.{
  failure, failure-validate_tag, accepts, is_unset, new_tag_matcher-accepts,
}
use image_updater.Rule.Compile.{compile_deny, compile_rule}

any-compile_deny :
    (std : Std) (tag : Text) (ps : List Text) (ms : List TagMatcher) {deny : List TagMatcher}
    → compile_deny std ps ms ≡ ok deny
    → any (λ m. matches m tag) deny ≡ (any (λ m. matches m tag) ms || any (accepts std tag) ps)
unfolding compile_deny
any-compile_deny std tag [] ms h = ground arith
any-compile_deny std tag (p ∷ ps) ms h =
    let (m, e, k) = ok-of_>>= (new_tag_matcher std p) _ h in
    let (blank, same) = new_tag_matcher-accepts std tag p e in
    ground (
      arith,
      any-append (λ m. matches m tag) ms (m ∷ []),
      any-compile_deny std tag ps (if empty m then ms else ms ++ m ∷ []) k,
      same,
    )

-- The parts that compiling a rule computes.
compile_rule-parts :
    (std : Std) (rule : Rule) {c : CompiledRule}
    → compile_rule std rule ≡ ok c
    → (c.rule ≡ rule)
      × (new_tag_matcher std rule.allow_tag ≡ ok c.allow)
      × (compile_deny std rule.deny_tags [] ≡ ok c.deny)
unfolding compile_rule
compile_rule-parts std rule h = ground arith

-- A tag passes a compiled rule exactly as its configured patterns say: the allow pattern, unless it is
-- blank, has to accept it, and no deny pattern may; a pattern `regexp:` accepts what its regular
-- expression matches, any other that is not blank the tag that it spells, and a blank one nothing. The
-- sentinel tells which test failed, that of the allow pattern first.
pub validate_tag-compile_rule :
    (std : Std) (rule : Rule) {c : CompiledRule} (tag : Text)
    → compile_rule std rule ≡ ok c
    → failure (validate_tag c tag) ≡ (
        if is_unset rule.allow_tag || accepts std tag rule.allow_tag
        then if any (accepts std tag) rule.deny_tags then some image_tag_denied else none
        else some image_tag_not_allowed)
validate_tag-compile_rule std rule {c} tag h =
    let (r, a, d) = compile_rule-parts std rule h in
    let (blank, same) = new_tag_matcher-accepts std tag rule.allow_tag a in
    ground
      (arith, failure-validate_tag c tag, any-compile_deny std tag rule.deny_tags [] d, blank, same)

-- The matchers of the patterns that are not blank, in order.
data Kept (std : Std) : List Text → List TagMatcher → Type 0 where
  done : Kept std [] []
  skips :
      {p : Text} {ps : List Text} {m : TagMatcher} {ms : List TagMatcher}
      → new_tag_matcher std p ≡ ok m
      → empty m ≡ true
      → Kept std ps ms
      → Kept std (p ∷ ps) ms
  keeps :
      {p : Text} {ps : List Text} {m : TagMatcher} {ms : List TagMatcher}
      → new_tag_matcher std p ≡ ok m
      → empty m ≡ false
      → Kept std ps ms
      → Kept std (p ∷ ps) (m ∷ ms)

compile_deny-Kept :
    (std : Std) (ps : List Text) (ms : List TagMatcher) {deny : List TagMatcher}
    → compile_deny std ps ms ≡ ok deny
    → (kept : List TagMatcher) × (deny ≡ ms ++ kept) × Kept std ps kept
unfolding compile_deny
compile_deny-Kept std [] ms h = ([], ground (arith, append-nil ms, h), done)
compile_deny-Kept std (p ∷ ps) ms h =
    let (m, e, k) = ok-of_>>= (new_tag_matcher std p) _ h in
    elim (Bool-cases (empty m)) [
      | inl blank ↦
          let (kept, same, all) = compile_deny-Kept std ps ms (rw blank at k) in
          (kept, same, skips e blank all)
      | inr full ↦
          let (kept, same, all) = compile_deny-Kept std ps (ms ++ m ∷ []) (rw full at k) in
          (m ∷ kept, same ∙ append_assoc ms (m ∷ []) kept, keeps e full all)
    ]

-- The patterns that are not blank.
pub set_patterns : List Text → ℕ
set_patterns [] = 0
set_patterns (p ∷ ps) = if is_unset p then set_patterns ps else suc (set_patterns ps)

check_denied-first :
    (std : Std) (c : CompiledRule) (tag : Text) (before : List Text) (pattern : Text)
    → (after : List Text) (i : ℕ) {kept : List TagMatcher}
    → Kept std (before ++ pattern ∷ after) kept
    → any (accepts std tag) before ≡ false
    → accepts std tag pattern ≡ true
    → check_denied c tag i kept
      ≡ err (
          wrap
            (tag ∷ get_or c.rule.deny_tags (i + set_patterns before) [] ∷ [])
            (sentinel image_tag_denied))
unfolding check_denied set_patterns
check_denied-first std c tag [] pattern after i (skips e blank k) n a =
    absurd (ground (arith, new_tag_matcher-accepts std tag pattern e, blank, a))
check_denied-first std c tag [] pattern after i (keeps e full k) n a =
    ground (arith, new_tag_matcher-accepts std tag pattern e, full, a)
check_denied-first std c tag (p ∷ ps) pattern after i (skips e blank k) n a =
    rw (sym (new_tag_matcher-accepts std tag p e).0 ∙ blank)
      (check_denied-first std c tag ps pattern after i k (ground (arith, n)) a)
check_denied-first std c tag (p ∷ ps) pattern after i (keeps e full k) n a = ground (
  arith,
  new_tag_matcher-accepts std tag p e,
  full,
  n,
  check_denied-first std c tag ps pattern after (suc i) k (ground (arith, n)) a,
)

get_or-append :
    (xs : List Text) (y : Text) (ys : List Text) → get_or (xs ++ y ∷ ys) (length xs) [] ≡ y
get_or-append [] y ys = refl
get_or-append (x ∷ xs) y ys = get_or-append xs y ys

-- Blank patterns in a list are those by which the others fall short of its length.
set_patterns-cases :
    (ps : List Text)
    → ((any is_unset ps ≡ false) × (set_patterns ps ≡ length ps))
      ⊎ ((any is_unset ps ≡ true) × (set_patterns ps < length ps))
unfolding set_patterns
set_patterns-cases [] = inl (refl, refl)
set_patterns-cases (p ∷ ps) = elim (set_patterns-cases ps) [
  | inl (all, n) ↦ elim (Bool-cases (is_unset p)) [
    | inl e ↦ inr (ground (arith, e), ground (arith, e, n))
    | inr e ↦ inl (ground (arith, e, all), ground (arith, e, n))
  ]
  | inr (blank, n) ↦ elim (Bool-cases (is_unset p)) [
    | inl e ↦ inr (ground (arith, e), ground (arith, e, n))
    | inr e ↦ inr (ground (arith, e, blank), ground (arith, e, n))
  ]
]

-- Where the allow pattern lets a tag pass, and among the configured deny patterns the one behind
-- `before` is the first that accepts it, the message quotes the entry whose index is the number of
-- entries of `before` that are not blank: this pattern if none of them is blank, and otherwise an entry
-- of `before`, none of which accepts the tag.
pub validate_tag-quotes :
    (std : Std) (rule : Rule) {c : CompiledRule} (before : List Text) (pattern : Text)
    → (after : List Text) (tag : Text) → compile_rule std rule ≡ ok c
    → rule.deny_tags ≡ before ++ pattern ∷ after
    → any (accepts std tag) before ≡ false
    → accepts std tag pattern ≡ true
    → (is_unset rule.allow_tag || accepts std tag rule.allow_tag) ≡ true
    → (validate_tag c tag
        ≡ err (
            wrap
              (tag ∷ get_or rule.deny_tags (set_patterns before) [] ∷ [])
              (sentinel image_tag_denied)))
      × (((any is_unset before ≡ false)
            × (get_or rule.deny_tags (set_patterns before) [] ≡ pattern))
          ⊎ ((any is_unset before ≡ true) × (set_patterns before < length before)))
unfolding validate_tag
validate_tag-quotes std rule {c} before pattern after tag h d n a w =
    let (r, al, dn) = compile_rule-parts std rule h in
    let (kept, same, all) = compile_deny-Kept std (before ++ pattern ∷ after) [] (rw d at dn) in
    (
      ground (
        arith,
        new_tag_matcher-accepts std tag rule.allow_tag al,
        w,
        same,
        ap (λ (x : Rule). x.deny_tags) r,
        check_denied-first std c tag before pattern after 0 all n a,
      ),
      elim (set_patterns-cases before) [
        | inl (none_blank, k) ↦ inl (none_blank, rw (d, k) (get_or-append before pattern after))
        | inr blank ↦ inr blank
      ],
    )
