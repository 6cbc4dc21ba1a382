-- ===== src/TravelPolicy/Admin.antt =====
-- The administration of policies and cost centres by
-- apps/api/src/modules/travel-policy/travel-policy.service.ts.
pub mod Caps
pub mod Tenancy
use muhammad_tours_and_trave.Prelude.{
  ℕ, ◌+◌, ◌==◌, ℤ, ltb_ℤ, round2, Bool, true, false, not, ◌&&◌, if◌then◌else◌, Option, none, some,
  List, [], ◌∷◌, any, is_some, or_else, Action, bad_request, conflict, not_found, ◌>>=◌, ◌>>◌, pure,
  gets, modify, throw_if, or_throw, find?, find_many, update_where,
}
use muhammad_tours_and_trave.Access.{AuthenticatedUser}
use muhammad_tours_and_trave.TravelPolicy.Model.{
  CabinClass, Department, Employee, CostCenter, TravelPolicy, AuditAction, travel_policy_updated,
  travel_policy_created, department_policy_updated, department_policy_created,
  department_policy_deleted, cost_center_created, cost_center_updated, Store, policy_of,
  employee_of_user, find_department, find_cost_center,
}

pub record UpsertTravelPolicyDto : Type 0 where
  pub name : Option ℕ
  pub max_cabin : CabinClass
  pub block_over_max_cabin : Bool
  pub soft_fare_cap_amount : Option ℤ
  pub hard_fare_cap_amount : Option ℤ
  pub currency : ℕ

pub record CreateCostCenterDto : Type 0 where
  pub code : ℕ
  pub name : ℕ

pub record UpdateCostCenterDto : Type 0 where
  pub name : Option ℕ
  pub active : Option Bool

-- `hard !== undefined && soft !== undefined && hard < soft`
abbrev pub caps_crossed : Option ℤ → Option ℤ → Bool
caps_crossed (some hard) (some soft) = ltb_ℤ hard soft
caps_crossed _ _ = false

-- The column keeps two decimals.
abbrev pub to_column : Option ℤ → Option ℤ
to_column none = none
to_column (some amount) = some (round2 amount)

-- The row with the `data` of a request.
abbrev pub policy_row : ℕ → ℕ → ℕ → UpsertTravelPolicyDto → TravelPolicy
policy_row default_name i owner dto = record {
  id = i;
  owner_id = owner;
  name = or_else dto.name default_name;
  max_cabin = dto.max_cabin;
  block_over_max_cabin = dto.block_over_max_cabin;
  soft_fare_cap_amount = to_column dto.soft_fare_cap_amount;
  hard_fare_cap_amount = to_column dto.hard_fare_cap_amount;
  currency = dto.currency;
}

-- The table after `update` where there was a row, and after `create` where there was none.
abbrev pub upserted :
    ℕ → ℕ → ℕ → UpsertTravelPolicyDto → Option TravelPolicy → List TravelPolicy → List TravelPolicy
upserted default_name i owner dto none rows = policy_row default_name i owner dto ∷ rows
upserted default_name i owner dto (some _) rows =
    update_where (λ p. p.owner_id == owner) (λ p. policy_row default_name p.id owner dto) rows

abbrev pub row_id : ℕ → Option TravelPolicy → ℕ
row_id fresh none = fresh
row_id fresh (some p) = p.id

-- The names that a policy has by default, as numbered texts.
abbrev pub standard_policy : ℕ
standard_policy = 0

abbrev pub department_policy : ℕ
department_policy = 1

abbrev pub record_audit : ℕ → AuditAction → Store → Store
record_audit user action s = record s {
  audit = record { user_id = user; action = action } ∷ s.audit;
}

unfoldable pub assert_corporate_exists : ℕ → Action Store (Unit {0})
assert_corporate_exists corporate = do
  exists ← gets (λ s. any (λ i. i == corporate) s.corporates)
  throw_if (not exists) not_found

abbrev pub is_of : ℕ → Option Department → Bool
is_of corporate none = false
is_of corporate (some d) = d.corporate_id == corporate

unfoldable pub assert_department_belongs_to_corporate : ℕ → ℕ → Action Store (Unit {0})
assert_department_belongs_to_corporate corporate department = do
  found ← gets (find_department department)
  throw_if (not (is_of corporate found)) not_found

abbrev pub write_policy :
    ℕ → UpsertTravelPolicyDto → Option TravelPolicy → Action Store TravelPolicy
write_policy corporate dto existing s =
    let row = policy_row standard_policy (row_id s.next_id existing) corporate dto in
    pure row (record s {
      policies = upserted standard_policy s.next_id corporate dto existing s.policies;
      next_id = s.next_id + 1;
    })

abbrev pub write_department_policy :
    ℕ → UpsertTravelPolicyDto → Option TravelPolicy → Action Store TravelPolicy
write_department_policy department dto existing s =
    let row = policy_row department_policy (row_id s.next_id existing) department dto in
    pure row (record s {
      department_policies =
          upserted department_policy s.next_id department dto existing s.department_policies;
      next_id = s.next_id + 1;
    })

unfoldable pub get_policy : ℕ → Action Store (Option TravelPolicy)
get_policy corporate = gets (λ s. policy_of corporate s.policies)

module _ (user : AuthenticatedUser) where
  unfoldable pub upsert_policy : ℕ → UpsertTravelPolicyDto → Action Store TravelPolicy
  upsert_policy corporate dto = do
    throw_if (caps_crossed dto.hard_fare_cap_amount dto.soft_fare_cap_amount) bad_request
    assert_corporate_exists corporate
    existing ← gets (λ s. policy_of corporate s.policies)
    policy ← write_policy corporate dto existing
    modify (
        record_audit user.id (
          if is_some existing
          then travel_policy_updated policy.id
          else travel_policy_created policy.id))
    pure policy

  unfoldable pub upsert_department_policy :
      ℕ → ℕ → UpsertTravelPolicyDto → Action Store TravelPolicy
  upsert_department_policy corporate department dto = do
    throw_if (caps_crossed dto.hard_fare_cap_amount dto.soft_fare_cap_amount) bad_request
    assert_department_belongs_to_corporate corporate department
    existing ← gets (λ s. policy_of department s.department_policies)
    policy ← write_department_policy department dto existing
    modify (
        record_audit user.id (
          if is_some existing
          then department_policy_updated policy.id
          else department_policy_created policy.id))
    pure policy

  -- `delete`, and its audit entry
  abbrev pub delete_existing : ℕ → Option TravelPolicy → Action Store Bool
  delete_existing department none = pure false
  delete_existing department (some existing) = do
    modify (λ s. record s {
      department_policies = find_many (λ p. not (p.owner_id == department)) s.department_policies;
    })
    modify (record_audit user.id (department_policy_deleted existing.id))
    pure true

  unfoldable pub delete_department_policy : ℕ → ℕ → Action Store Bool
  delete_department_policy corporate department = do
    assert_department_belongs_to_corporate corporate department
    existing ← gets (λ s. policy_of department s.department_policies)
    delete_existing department existing

  abbrev pub create_row : ℕ → CreateCostCenterDto → Action Store CostCenter
  create_row corporate dto s =
      let row : CostCenter = record {
        id = s.next_id;
        corporate_id = corporate;
        code = dto.code;
        name = dto.name;
        active = true;
      } in
      pure row (record s { cost_centers = row ∷ s.cost_centers; next_id = s.next_id + 1 })

  abbrev pub has_code : ℕ → ℕ → Store → Bool
  has_code corporate code s =
      any (λ (c : CostCenter). c.corporate_id == corporate && c.code == code) s.cost_centers

  unfoldable pub create_cost_center : ℕ → CreateCostCenterDto → Action Store CostCenter
  create_cost_center corporate dto = do
    assert_corporate_exists corporate
    clash ← gets (has_code corporate dto.code)
    throw_if clash conflict
    c ← create_row corporate dto
    modify (record_audit user.id (cost_center_created c.id))
    pure c

  unfoldable pub update_cost_center : ℕ → UpdateCostCenterDto → Action Store CostCenter
  update_cost_center i dto = do
    found ← gets (find_cost_center i)
    existing ← or_throw found not_found
    let updated = record existing {
      name = or_else dto.name existing.name;
      active = or_else dto.active existing.active;
    }
    modify (λ s. record s {
      cost_centers = update_where (λ c. c.id == i) (λ c. updated) s.cost_centers;
    })
    modify (record_audit user.id (cost_center_updated i))
    pure updated

unfoldable pub get_department_policy : ℕ → ℕ → Action Store (Option TravelPolicy)
get_department_policy corporate department = do
  assert_department_belongs_to_corporate corporate department
  gets (λ s. policy_of department s.department_policies)

unfoldable pub list_cost_centers : ℕ → Action Store (List CostCenter)
list_cost_centers corporate =
    gets (λ s. find_many (λ c. c.corporate_id == corporate) s.cost_centers)

abbrev of_company : Option Employee → List CostCenter → List CostCenter
of_company none rows = []
of_company (some e) rows = find_many (λ c. c.corporate_id == e.corporate_id && c.active) rows

unfoldable pub list_my_cost_centers : AuthenticatedUser → Action Store (List CostCenter)
list_my_cost_centers user = gets (λ s. of_company (employee_of_user user.id s) s.cost_centers)

-- A request that writes, with the company that its URL names.
pub data Request : Type 0 where
  put_policy : UpsertTravelPolicyDto → Request
  put_department_policy : ℕ → UpsertTravelPolicyDto → Request
  remove_department_policy : ℕ → Request
  post_cost_center : CreateCostCenterDto → Request

abbrev pub done : {A : Type 0} → Action Store A → Action Store (Unit {0})
done m = m >>= λ _. pure tt

unfoldable pub handle : AuthenticatedUser → ℕ → Request → Action Store (Unit {0})
handle user corporate (put_policy dto) = done (upsert_policy user corporate dto)
handle user corporate (put_department_policy department dto) =
    done (upsert_department_policy user corporate department dto)
handle user corporate (remove_department_policy department) =
    done (delete_department_policy user corporate department)
handle user corporate (post_cost_center dto) = done (create_cost_center user corporate dto)
