-- ===== src/Rule/Compile/All.antt =====
-- internal/model/rule.go: `NewRuleSet` against a relation between rules and compiled rules.
use image_updater.Prelude.{
  ◌≡◌, refl, sym, ◌∙◌, List, [], ◌∷◌, ◌++◌, append_assoc, append-nil, ◌⊎◌, inl, inr, ap,
}
use image_updater.Model.Errors.{Error, wrap, Result, ok, err, Result-cases}
use image_updater.Std.{Std}
use image_updater.Rule.Types.{Rule, CompiledRule}
use image_updater.Rule.Compile.{compile_rule, compile_all, new_rule_set}

-- Each compiled rule is what its rule compiles to.
pub data Compiled (std : Std) : List Rule → List CompiledRule → Type 0 where
  none : Compiled std [] []
  next :
      {r : Rule} {c : CompiledRule} {rs : List Rule} {cs : List CompiledRule}
      → compile_rule std r ≡ ok c
      → Compiled std rs cs
      → Compiled std (r ∷ rs) (c ∷ cs)

-- What the loop returns for the rest of the rules.
Outcome : Std → List Rule → List CompiledRule → Result (List CompiledRule) → Type 0
Outcome std rules done r =
    ((cs : List CompiledRule) × (r ≡ ok (done ++ cs)) × Compiled std rules cs)
    ⊎ ((before : List Rule) × (bad : Rule) × (after : List Rule) × (cs : List CompiledRule)
        × (e : Error) × (rules ≡ before ++ (bad ∷ after))
        × Compiled std before cs
        × (compile_rule std bad ≡ err e)
        × (r ≡ err (wrap (bad.image_pattern ∷ []) e)))

compile_all-Outcome :
    (std : Std) (rules : List Rule) (done : List CompiledRule)
    → Outcome std rules done (compile_all std rules done)
unfolding compile_all Outcome
compile_all-Outcome std [] done = inl ([], ap ok (sym (append-nil done)), none)
compile_all-Outcome std (r ∷ rs) done = elim (Result-cases (compile_rule std r)) [
  | inl (e, p) ↦ inr ([], r, rs, [], e, refl, none, p, rw (p, compile_all))
  | inr (c, p) ↦ rw (p, compile_all) (extend c p (compile_all-Outcome std rs (done ++ c ∷ [])))
]
  where
    extend :
        (c : CompiledRule)
        → compile_rule std r ≡ ok c
        → Outcome std rs (done ++ c ∷ []) (compile_all std rs (done ++ c ∷ []))
        → Outcome std (r ∷ rs) done (compile_all std rs (done ++ c ∷ []))
    extend c p (inl (cs, q, all)) =
        inl (c ∷ cs, q ∙ ap ok (append_assoc done (c ∷ []) cs), next p all)
    extend c p (inr (before, bad, after, cs, e, split, all, failed, q)) =
        inr (r ∷ before, bad, after, c ∷ cs, e, ap (λ x. r ∷ x) split, next p all, failed, q)

-- `NewRuleSet` either compiles every rule, in order, or reports the first rule that does not compile
-- with that rule's error.
pub new_rule_set-all_or_first :
    (std : Std) (rules : List Rule)
    → ((cs : List CompiledRule) × (new_rule_set std rules ≡ ok cs) × Compiled std rules cs)
      ⊎ ((before : List Rule) × (bad : Rule) × (after : List Rule) × (cs : List CompiledRule)
          × (e : Error) × (rules ≡ before ++ (bad ∷ after))
          × Compiled std before cs
          × (compile_rule std bad ≡ err e)
          × (new_rule_set std rules ≡ err (wrap (bad.image_pattern ∷ []) e)))
unfolding new_rule_set Outcome
new_rule_set-all_or_first std rules = compile_all-Outcome std rules []
