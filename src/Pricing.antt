-- ===== src/Pricing.antt =====
-- apps/api/src/modules/flights/pricing.service.ts: the markup that is added to a fare. Amounts
-- are in cents, and the value of a rule is in ten-thousandths, of a unit or of a percent. Of the
-- rules of equal priority, which the query leaves in no order, the first of the table is taken.
pub mod Scopes
pub mod Laws
pub mod Tests
use muhammad_tours_and_trave.Prelude.{
  ℕ, suc, ◌+◌, ◌*◌, ◌/◌, ℤ, pos, negsuc, sub_ℕ, leb_ℤ, round2, round_cents, max_ℤ, min_ℤ,
  if◌then◌else◌, Bool, false, true, ◌&&◌, Option, none, some, List, [], ◌∷◌, ◌==◌, same_id,
  find_many,
}

pub data Scope : Type 0 where
  agency fare_family route cabin airline supplier global : Scope

abbrev pub scope_rank : Scope → ℕ
scope_rank agency = 0
scope_rank fare_family = 1
scope_rank route = 2
scope_rank cabin = 3
scope_rank airline = 4
scope_rank supplier = 5
scope_rank global = 6

-- Most specific first.
abbrev pub scope_order : List Scope
scope_order = agency ∷ fare_family ∷ route ∷ cabin ∷ airline ∷ supplier ∷ global ∷ []

pub data MarkupType : Type 0 where
  fixed percentage : MarkupType

pub record MarkupRule : Type 0 where
  pub id : ℕ
  pub scope : Scope
  pub agency_id : Option ℕ
  pub fare_family_code : Option ℕ
  pub route_code : Option ℕ
  pub cabin_code : Option ℕ
  pub airline_code : Option ℕ
  pub supplier_id : Option ℕ
  pub type_ : MarkupType
  pub value : ℤ
  pub min_amount : Option ℤ
  pub max_amount : Option ℤ
  pub priority : ℤ
  pub active : Bool

pub record MarkupContext : Type 0 where
  pub supplier_id : ℕ
  pub airline_code : ℕ
  pub route_code : ℕ
  pub cabin_code : ℕ
  pub fare_family_code : ℕ
  pub agency_id : Option ℕ

pub record MarkupOutcome : Type 0 where
  pub markup_amount : ℤ
  pub rule_id : Option ℕ
  pub scope : Option Scope

-- The default markup of a supplier's row, where both of its columns are set.
pub record SupplierDefault : Type 0 where
  pub type_ : MarkupType
  pub value : ℤ

-- `whereForScope`, as the condition that it puts on a rule. With no agency in the context there
-- is no condition for AGENCY, and the scope is passed over.
abbrev pub for_agency : Option ℕ → Option (MarkupRule → Bool)
for_agency none = none
for_agency (some i) = some (λ r. same_id r.agency_id (some i))

unfoldable pub where_for_scope : Scope → MarkupContext → Option (MarkupRule → Bool)
where_for_scope agency ctx = for_agency ctx.agency_id
where_for_scope fare_family ctx = some (λ r. same_id r.fare_family_code (some ctx.fare_family_code))
where_for_scope route ctx = some (λ r. same_id r.route_code (some ctx.route_code))
where_for_scope cabin ctx = some (λ r. same_id r.cabin_code (some ctx.cabin_code))
where_for_scope airline ctx = some (λ r. same_id r.airline_code (some ctx.airline_code))
where_for_scope supplier ctx = some (λ r. same_id r.supplier_id (some ctx.supplier_id))
where_for_scope global ctx = some (λ r. true)

-- `round2(baseFare * (value / 100))`, halves upwards.
unfoldable pub percent_of : ℕ → ℤ → ℤ
percent_of base_fare (pos v) = pos ((base_fare * v + 500000) / 1000000)
percent_of base_fare (negsuc v) = sub_ℕ 0 ((base_fare * suc v + 499999) / 1000000)

unfoldable pub apply_value : ℕ → MarkupType → ℤ → ℤ
apply_value base_fare percentage value = percent_of base_fare value
apply_value base_fare fixed value = round2 value

abbrev pub at_least : Option ℤ → ℤ → ℤ
at_least none amount = amount
at_least (some low) amount = max_ℤ amount low

abbrev pub at_most : Option ℤ → ℤ → ℤ
at_most none amount = amount
at_most (some high) amount = min_ℤ amount high

unfoldable pub apply_rule : ℕ → MarkupRule → ℤ
apply_rule base_fare rule = round_cents (
    at_most rule.max_amount
      (at_least rule.min_amount (apply_value base_fare rule.type_ rule.value)))

-- `orderBy: { priority: 'asc' }` and `findFirst`: the first row of the least priority.
abbrev pub better : MarkupRule → Option MarkupRule → MarkupRule
better r none = r
better r (some best) = if leb_ℤ r.priority best.priority then r else best

unfoldable pub first_by_priority : List MarkupRule → Option MarkupRule
first_by_priority [] = none
first_by_priority (r ∷ rs) = some (better r (first_by_priority rs))

-- `{ ...where, scope, active: true }`
abbrev pub asked_for : Scope → (MarkupRule → Bool) → MarkupRule → Bool
asked_for scope condition r = (scope_rank r.scope == scope_rank scope) && (r.active && condition r)

abbrev pub rows_of : Scope → Option (MarkupRule → Bool) → List MarkupRule → List MarkupRule
rows_of scope none rules = []
rows_of scope (some condition) rules = find_many (asked_for scope condition) rules

-- The rows that one turn of the loop asks for.
abbrev pub candidates : Scope → MarkupContext → List MarkupRule → List MarkupRule
candidates scope ctx rules = rows_of scope (where_for_scope scope ctx) rules

abbrev pub found_at :
    Scope → Option MarkupRule → Option (Scope × MarkupRule) → Option (Scope × MarkupRule)
found_at scope (some rule) rest = some (scope, rule)
found_at scope none rest = rest

-- The loop over the scopes: the first scope with a rule wins.
unfoldable pub winning_rule :
    List Scope → MarkupContext → List MarkupRule → Option (Scope × MarkupRule)
winning_rule [] ctx rules = none
winning_rule (scope ∷ scopes) ctx rules =
    found_at scope (first_by_priority (candidates scope ctx rules)) (winning_rule scopes ctx rules)

abbrev pub by_default : ℕ → Option SupplierDefault → MarkupOutcome
by_default base_fare none = record { markup_amount = pos 0; rule_id = none; scope = none }
by_default base_fare (some d) = record {
  markup_amount = apply_value base_fare d.type_ d.value;
  rule_id = none;
  scope = none;
}

-- The outcome of the loop, `supplier` being the row of the context's supplier.
abbrev pub outcome : ℕ → Option SupplierDefault → Option (Scope × MarkupRule) → MarkupOutcome
outcome base_fare row none = by_default base_fare row
outcome base_fare row (some (scope, rule)) = record {
  markup_amount = apply_rule base_fare rule;
  rule_id = some rule.id;
  scope = some scope;
}

unfoldable pub compute_markup :
    ℕ → MarkupContext → List MarkupRule → Option SupplierDefault → MarkupOutcome
unfolding winning_rule
compute_markup base_fare ctx rules row = outcome base_fare row (winning_rule scope_order ctx rules)
