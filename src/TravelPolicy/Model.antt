-- ===== src/TravelPolicy/Model.antt =====
-- The tables that apps/api/src/modules/travel-policy/travel-policy.service.ts reads and writes:
-- models Corporate, Department, Employee, CostCenter, TravelPolicy and DepartmentTravelPolicy of
-- apps/api/prisma/schema.prisma, and what the service answers with. The amounts of a row are in
-- cents, those of a request in ten-thousandths.
use muhammad_tours_and_trave.Prelude.{ℕ, ℤ, Bool, Option, List, find?, ◌==◌}
use muhammad_tours_and_trave.Fx.{FxState}

pub data CabinClass : Type 0 where
  economy premium_economy business first : CabinClass

-- `CABIN_RANK`
abbrev pub cabin_rank : CabinClass → ℕ
cabin_rank economy = 0
cabin_rank premium_economy = 1
cabin_rank business = 2
cabin_rank first = 3

pub record Department : Type 0 where
  pub id : ℕ
  pub corporate_id : ℕ

pub record Employee : Type 0 where
  pub id : ℕ
  pub user_id : ℕ
  pub corporate_id : ℕ
  pub department_id : Option ℕ
  pub cost_center_id : Option ℕ

pub record CostCenter : Type 0 where
  pub id : ℕ
  pub corporate_id : ℕ
  pub code : ℕ
  pub name : ℕ
  pub active : Bool

-- A row of either table: `owner_id` is the company of a TravelPolicy, and the department of a
-- DepartmentTravelPolicy.
pub record TravelPolicy : Type 0 where
  pub id : ℕ
  pub owner_id : ℕ
  pub name : ℕ
  pub max_cabin : CabinClass
  pub block_over_max_cabin : Bool
  pub soft_fare_cap_amount : Option ℤ
  pub hard_fare_cap_amount : Option ℤ
  pub currency : ℕ

-- The texts of a note, by what they say.
pub data PolicyNote : Type 0 where
  over_max_cabin : CabinClass → CabinClass → PolicyNote
  over_hard_cap over_soft_cap : ℤ → ℕ → ℤ → ℤ → ℕ → PolicyNote

pub record PolicyEvaluation : Type 0 where
  pub blocked : Bool
  pub requires_approval : Bool
  pub note : Option PolicyNote

pub record EvaluationInput : Type 0 where
  pub cabin : CabinClass
  pub total_fare : ℤ
  pub currency : ℕ
  pub department_id : Option ℕ

-- The action of an audit entry, with the id of its resource.
pub data AuditAction : Type 0 where
  travel_policy_updated travel_policy_created : ℕ → AuditAction
  department_policy_updated department_policy_created : ℕ → AuditAction
  department_policy_deleted : ℕ → AuditAction
  cost_center_created cost_center_updated : ℕ → AuditAction

pub record AuditEntry : Type 0 where
  pub user_id : ℕ
  pub action : AuditAction

-- The tables, each with its latest row first, and the memory of the service for exchange rates.
pub record Store : Type 0 where
  pub corporates : List ℕ
  pub departments : List Department
  pub employees : List Employee
  pub cost_centers : List CostCenter
  pub policies : List TravelPolicy
  pub department_policies : List TravelPolicy
  pub fx : FxState
  pub audit : List AuditEntry
  pub next_id : ℕ

-- `findUnique({ where: { corporateId } })`, and `{ departmentId }` on the other table
abbrev pub policy_of : ℕ → List TravelPolicy → Option TravelPolicy
policy_of owner rows = find? (λ p. p.owner_id == owner) rows

abbrev pub find_employee : ℕ → Store → Option Employee
find_employee i s = find? (λ e. e.id == i) s.employees

abbrev pub employee_of_user : ℕ → Store → Option Employee
employee_of_user i s = find? (λ e. e.user_id == i) s.employees

abbrev pub find_department : ℕ → Store → Option Department
find_department i s = find? (λ d. d.id == i) s.departments

abbrev pub find_cost_center : ℕ → Store → Option CostCenter
find_cost_center i s = find? (λ c. c.id == i) s.cost_centers
