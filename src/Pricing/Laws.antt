-- ===== src/Pricing/Laws.antt =====
-- The markup that `computeMarkup` of apps/api/src/modules/flights/pricing.service.ts returns.
use mathlib.Core.Path.{ap₂}
use muhammad_tours_and_trave.Prelude.{
  ℕ, ℤ, ◌≤ℤ◌, round2-of_cents, ◌≡◌, refl, ap, Bool, false, Option, none, some, List, [], ◌∷◌, arith,
  min_ℤ, max_ℤ,
}
use muhammad_tours_and_trave.Pricing.{
  Scope, scope_order, MarkupRule, MarkupContext, SupplierDefault, winning_rule, outcome,
  compute_markup, apply_rule, apply_value, at_most, at_least, where_for_scope, rows_of, asked_for,
  found_at, first_by_priority,
}

clamp_bounds :
    (x low high : ℤ)
    → low ≤ℤ high
    → (low ≤ℤ min_ℤ (max_ℤ x low) high) × (min_ℤ (max_ℤ x low) high ≤ℤ high)
clamp_bounds x low high le = ground arith

-- The bounds of a rule hold of the amount that it yields, where they do not cross.
apply_rule_bounded :
    (base_fare : ℕ) (rule : MarkupRule) (low high : ℤ)
    → rule.min_amount ≡ some low
    → rule.max_amount ≡ some high
    → low ≤ℤ high
    → (low ≤ℤ apply_rule base_fare rule) × (apply_rule base_fare rule ≤ℤ high)
unfolding apply_rule
apply_rule_bounded base_fare rule low high el eh le =
    rw
      (
        el,
        eh,
        round2-of_cents (
            at_most (some high)
              (at_least (some low) (apply_value base_fare rule.type_ rule.value))),
      )
      (clamp_bounds (apply_value base_fare rule.type_ rule.value) low high le)

-- A rule that is switched off changes no markup.
compute_markup_inactive :
    (base_fare : ℕ) (ctx : MarkupContext) (rule : MarkupRule) (rules : List MarkupRule)
    (row : Option SupplierDefault)
    → rule.active ≡ false
    → compute_markup base_fare ctx (rule ∷ rules) row ≡ compute_markup base_fare ctx rules row
unfolding compute_markup winning_rule
compute_markup_inactive base_fare ctx rule rules row off =
    ap (outcome base_fare row) (go scope_order)
  where
    asked : (scope : Scope) (condition : MarkupRule → Bool) → asked_for scope condition rule ≡ false
    asked scope condition = grind (arith, off)

    same_rows :
        (scope : Scope) (w : Option (MarkupRule → Bool))
        → rows_of scope w (rule ∷ rules) ≡ rows_of scope w rules
    same_rows scope none = refl
    same_rows scope (some c) = rw (asked scope c) refl

    go :
        (scopes : List Scope)
        → winning_rule scopes ctx (rule ∷ rules) ≡ winning_rule scopes ctx rules
    go [] = refl
    go (scope ∷ scopes) =
        ap₂ (λ rows rest. found_at scope (first_by_priority rows) rest)
          (same_rows scope (where_for_scope scope ctx)) (go scopes)
