-- ===== src/TravelPolicy/Evaluate.antt =====
-- What apps/api/src/modules/travel-policy/travel-policy.service.ts decides when a flight is booked:
-- `evaluate`, `resolvePolicy` and `resolveCostCenter`. `settings`, `upper` and `now` are what the
-- conversion of a fare depends on.
pub mod Severity
pub mod CostCenters
use muhammad_tours_and_trave.Prelude.{
  ℕ, ◌==◌, ltb, ℤ, ltb_ℤ, Bool, true, false, not, ◌||◌, if◌then◌else◌, Option, none, some, Action,
  bad_request, failure, ◌>>=◌, ◌>>◌, pure, gets, throw_if, or_throw, zoom,
}
use muhammad_tours_and_trave.Fx.{FxSettings, FxState, convert}
use muhammad_tours_and_trave.TravelPolicy.Model.{
  CabinClass, cabin_rank, TravelPolicy, PolicyNote, over_max_cabin, over_hard_cap, over_soft_cap,
  PolicyEvaluation, EvaluationInput, Employee, CostCenter, Store, policy_of, find_employee,
  find_cost_center,
}

abbrev override_of : Option ℕ → Store → Option TravelPolicy
override_of none s = none
override_of (some department) s = policy_of department s.department_policies

abbrev or_default : Option TravelPolicy → Option TravelPolicy → Option TravelPolicy
or_default (some override) default = some override
or_default none default = default

unfoldable pub resolve_policy : ℕ → Option ℕ → Store → Option TravelPolicy
resolve_policy corporate department s =
    or_default (override_of department s) (policy_of corporate s.policies)

-- The four things that an evaluation can say.
abbrev pub in_policy : PolicyEvaluation
in_policy = record { blocked = false; requires_approval = false; note = none }

abbrev pub no_policy : PolicyEvaluation
no_policy = record { blocked = false; requires_approval = true; note = none }

abbrev pub needs_approval : PolicyNote → PolicyEvaluation
needs_approval note = record { blocked = false; requires_approval = true; note = some note }

abbrev pub is_blocked : PolicyNote → PolicyEvaluation
is_blocked note = record { blocked = true; requires_approval = false; note = some note }

-- `cap !== null && fare > Number(cap)`
abbrev pub exceeds : Option ℤ → ℤ → Bool
exceeds none fare = false
exceeds (some cap) fare = ltb_ℤ cap fare

abbrev cap_or_zero : Option ℤ → ℤ → ℤ
cap_or_zero none fare = fare
cap_or_zero (some cap) fare = cap

abbrev pub by_caps : TravelPolicy → EvaluationInput → ℤ → PolicyEvaluation
by_caps p input fare =
    if exceeds p.hard_fare_cap_amount fare
    then is_blocked (
        over_hard_cap input.total_fare input.currency fare (cap_or_zero p.hard_fare_cap_amount fare)
          p.currency)
    else (if exceeds p.soft_fare_cap_amount fare
        then needs_approval (
            over_soft_cap input.total_fare input.currency fare
              (cap_or_zero p.soft_fare_cap_amount fare) p.currency)
        else in_policy)

-- Where the fare cannot be put in the policy's currency, its caps are not applied.
abbrev pub by_fare : TravelPolicy → EvaluationInput → Option ℤ → PolicyEvaluation
by_fare p input none = in_policy
by_fare p input (some fare) = by_caps p input fare

abbrev pub over_cabin : TravelPolicy → EvaluationInput → PolicyEvaluation
over_cabin p input =
    let note = over_max_cabin input.cabin p.max_cabin in
    if p.block_over_max_cabin then is_blocked note else needs_approval note

abbrev pub exceeds_cabin : TravelPolicy → EvaluationInput → Bool
exceeds_cabin p input = ltb (cabin_rank p.max_cabin) (cabin_rank input.cabin)

-- A call of the service for exchange rates.
abbrev pub on_fx : {A : Type 0} → Action FxState A → Action Store A
on_fx = zoom (λ s. s.fx) (λ t s. record s { fx = t })

module _ (settings : Option FxSettings) (upper : ℕ → ℕ) (now : ℕ) where
  abbrev pub fare_in_policy_currency : TravelPolicy → EvaluationInput → Action Store (Option ℤ)
  fare_in_policy_currency p input =
      if input.currency == p.currency
      then pure (some input.total_fare)
      else on_fx (convert settings upper now input.total_fare input.currency p.currency)

  abbrev pub check_fare : TravelPolicy → EvaluationInput → Action Store PolicyEvaluation
  check_fare p input = do fare ← fare_in_policy_currency p input; pure (by_fare p input fare)

  abbrev pub evaluate_by : Option TravelPolicy → EvaluationInput → Action Store PolicyEvaluation
  evaluate_by none input = pure no_policy
  evaluate_by (some p) input =
      if exceeds_cabin p input then pure (over_cabin p input) else check_fare p input

  unfoldable pub evaluate : ℕ → EvaluationInput → Action Store PolicyEvaluation
  evaluate corporate input = do
    policy ← gets (resolve_policy corporate input.department_id)
    evaluate_by policy input

-- `!costCenter || costCenter.corporateId !== employee.corporateId || !costCenter.active`
abbrev pub is_foreign : Employee → Option CostCenter → Bool
is_foreign e none = true
is_foreign e (some c) = not (c.corporate_id == e.corporate_id) || not c.active

abbrev requested_or_default : Employee → Option ℕ → Action Store (Option ℕ)
requested_or_default e none = pure e.cost_center_id
requested_or_default e (some requested) = do
  found ← gets (find_cost_center requested)
  throw_if (is_foreign e found) bad_request
  c ← or_throw found failure
  pure (some c.id)

unfoldable pub resolve_cost_center : ℕ → Option ℕ → Action Store (Option ℕ)
resolve_cost_center employee requested = do
  found ← gets (find_employee employee)
  e ← or_throw found failure
  requested_or_default e requested
