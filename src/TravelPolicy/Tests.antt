-- ===== src/TravelPolicy/Tests.antt =====
-- The theorems on travel policies at one company with a department.
use muhammad_tours_and_trave.Prelude.{
  ◌≡◌, ◌≤◌, ◌⊎◌, refl, arith, pos, true, false, some, none, [], ◌∷◌, ok, err, bad_request,
}
use muhammad_tours_and_trave.Access.{AuthenticatedUser}
use muhammad_tours_and_trave.Fx.{FxSettings}
use muhammad_tours_and_trave.TravelPolicy.Model.{
  economy, business, TravelPolicy, Employee, CostCenter, PolicyEvaluation, EvaluationInput, Store,
  policy_of,
}
use muhammad_tours_and_trave.TravelPolicy.Evaluate.{evaluate, resolve_cost_center}
use muhammad_tours_and_trave.TravelPolicy.Evaluate.Severity.{severity, at_fare, evaluate_mono}
use muhammad_tours_and_trave.TravelPolicy.Evaluate.CostCenters.{
  IsUsable, resolve_cost_center-Usable,
}
use muhammad_tours_and_trave.TravelPolicy.Admin.{
  UpsertTravelPolicyDto, put_policy, put_department_policy, handle,
}
use muhammad_tours_and_trave.TravelPolicy.Admin.Caps.{AllOrdered, handle-AllOrdered}
use muhammad_tours_and_trave.TravelPolicy.Admin.Tenancy.{handle_tenancy}

-- Sign-off from 500.00 on, and nothing above 900.00.
abbrev policy : TravelPolicy
policy = record {
  id = 1;
  owner_id = 50;
  name = 0;
  max_cabin = business;
  block_over_max_cabin = true;
  soft_fare_cap_amount = some (pos 50000);
  hard_fare_cap_amount = some (pos 90000);
  currency = 7;
}

abbrev employee : Employee
employee = record {
  id = 30;
  user_id = 40;
  corporate_id = 50;
  department_id = none;
  cost_center_id = none;
}

abbrev center : CostCenter
center = record { id = 9; corporate_id = 50; code = 1; name = 2; active = true }

abbrev tables : Store
tables = record {
  corporates = 50 ∷ 51 ∷ [];
  departments = record { id = 60; corporate_id = 50 } ∷ record { id = 61; corporate_id = 51 } ∷ [];
  employees = employee ∷ [];
  cost_centers = center ∷ [];
  policies = policy ∷ [];
  department_policies = [];
  fx = record { live_cache = none; requests = [] };
  audit = [];
  next_id = 10;
}

-- One unit of currency 7 is two units of currency 8.
abbrev settings : FxSettings
settings = record {
  base_currency = 7;
  rates = (7, 1) ∷ (8, 2) ∷ [];
  provider = some (λ now. err bad_request);
}

abbrev trip : EvaluationInput
trip = record { cabin = economy; total_fare = pos 0; currency = 8; department_id = none }

evaluate_mono_example :
    (x y : PolicyEvaluation) × (s' : Store) × (evaluate
        (some settings)
        (λ c. c)
        5
        50
        (at_fare trip (pos 80000))
        tables
      ≡ (ok x, s'))
    × (evaluate (some settings) (λ c. c) 5 50 (at_fare trip (pos 200000)) tables ≡ (ok y, s'))
    × (severity x ≤ severity y)
evaluate_mono_example =
    evaluate_mono (some settings) (λ c. c) 5 50 tables trip (pos 80000) (pos 200000) (omega arith)

resolve_cost_center-Usable_example :
    (IsUsable employee 9 tables × (resolve_cost_center 30 (some 9) tables ≡ (ok (some 9), tables)))
    ⊎ ((IsUsable employee 9 tables → ⊥)
        × (resolve_cost_center 30 (some 9) tables ≡ (err bad_request, tables)))
resolve_cost_center-Usable_example = resolve_cost_center-Usable 30 9 tables {e = employee} refl

abbrev administrator : AuthenticatedUser
administrator = record { id = 1; permissions = [] }

abbrev dto : UpsertTravelPolicyDto
dto = record {
  name = none;
  max_cabin = economy;
  block_over_max_cabin = false;
  soft_fare_cap_amount = some (pos 3000000);
  hard_fare_cap_amount = some (pos 4000000);
  currency = 7;
}

tables-AllOrdered : AllOrdered tables
tables-AllOrdered = record { of_companies = (omega arith, tt); of_departments = tt }

handle-AllOrdered_example : AllOrdered (handle administrator 50 (put_policy dto) tables).1
handle-AllOrdered_example =
    handle-AllOrdered administrator 50 (put_policy dto) tables tables-AllOrdered

handle_tenancy_example :
    (policy_of 51 (handle administrator 50 (put_department_policy 61 dto) tables).1.policies
      ≡ policy_of 51 tables.policies)
    × (policy_of 61
          (handle administrator 50 (put_department_policy 61 dto) tables).1.department_policies
        ≡ policy_of 61 tables.department_policies)
handle_tenancy_example =
    handle_tenancy administrator 50 51 61 (put_department_policy 61 dto) tables (omega arith) refl
