-- ===== src/Access.antt =====
-- Who asks, and what is his: the parts that the services under apps/api/src/modules/ have in
-- common, and the guard of apps/api/src/common/guards/permissions.guard.ts.
pub mod Laws
pub mod Tests
use muhammad_tours_and_trave.Prelude.{
  ℕ, Bool, false, not, ◌||◌, Option, none, some, List, [], ◌∷◌, all, is_some, same_id, Result, ok,
  err, Error, forbidden, if◌then◌else◌,
}
use muhammad_tours_and_trave.Roles.{Permission, includes}

pub record AuthenticatedUser : Type 0 where
  pub id : ℕ
  pub permissions : List Permission

-- The profiles of an account, as `prisma.user.findUnique` selects them.
pub record AgentProfile : Type 0 where
  pub id : ℕ
  pub agency_id : ℕ

pub record UserProfile : Type 0 where
  pub customer : Option ℕ
  pub agent : Option AgentProfile
  pub employee : Option ℕ

-- The `Actor` of a service.
pub record Actor : Type 0 where
  pub customer_id : Option ℕ
  pub agent_id : Option ℕ
  pub employee_id : Option ℕ
  pub agency_id : Option ℕ

-- The owner columns of a booking or an application.
pub record Owner : Type 0 where
  pub customer_id : Option ℕ
  pub agent_id : Option ℕ
  pub employee_id : Option ℕ

abbrev actor_of_employee : Error → Option ℕ → Result Actor
actor_of_employee e (some i) =
    ok (record { customer_id = none; agent_id = none; employee_id = some i; agency_id = none })
actor_of_employee e none = err e

abbrev actor_of_agent : Error → Option AgentProfile → Option ℕ → Result Actor
actor_of_agent e (some a) _ = ok (record {
  customer_id = none;
  agent_id = some a.id;
  employee_id = none;
  agency_id = some a.agency_id;
})
actor_of_agent e none employee = actor_of_employee e employee

abbrev actor_of_customer : Error → Option ℕ → Option AgentProfile → Option ℕ → Result Actor
actor_of_customer e (some i) _ _ =
    ok (record { customer_id = some i; agent_id = none; employee_id = none; agency_id = none })
actor_of_customer e none agent employee = actor_of_agent e agent employee

-- `resolveActor`, with the exception that the service throws where there is no profile.
unfoldable pub resolve_actor : Error → Option UserProfile → Result Actor
resolve_actor e none = err e
resolve_actor e (some p) = actor_of_customer e p.customer p.agent p.employee

-- `ownsIt`
unfoldable pub owns_it : Option Actor → Owner → Bool
owns_it none owner = false
owns_it (some a) owner =
    same_id owner.customer_id a.customer_id
    || same_id owner.agent_id a.agent_id
    || same_id owner.employee_id a.employee_id

-- The filter of `listMine`: the customer's column, else the agent's, else the employee's.
abbrev pub is_mine : Actor → Owner → Bool
is_mine actor owner =
    if is_some actor.customer_id
    then same_id owner.customer_id actor.customer_id
    else (if is_some actor.agent_id
        then same_id owner.agent_id actor.agent_id
        else same_id owner.employee_id actor.employee_id)

-- `PermissionsGuard.canActivate`
unfoldable pub can_activate :
    Option (List Permission) → Option AuthenticatedUser → Result (Unit {0})
can_activate none user = ok tt
can_activate (some []) user = ok tt
can_activate (some (p ∷ required)) none = err forbidden
can_activate (some (p ∷ required)) (some user) =
    if not (all (includes user.permissions) (p ∷ required)) then err forbidden else ok tt
