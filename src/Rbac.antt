-- ===== src/Rbac.antt =====
-- The administration of roles: apps/api/src/modules/rbac/rbac.service.ts over the models User, Role,
-- Permission, UserRole and RolePermission of apps/api/prisma/schema.prisma. `contains` is the
-- database's search in a text, and the lists come in the order of their tables.
pub mod Laws
pub mod Own
pub mod Tests
use muhammad_tours_and_trave.Prelude.{
  ℕ, zero, suc, Bool, not, ◌&&◌, ◌||◌, if◌then◌else◌, Option, none, some, true, List, [], ◌∷◌, ◌==◌,
  any, is_some, Result, Action, forbidden, not_found, ◌>>=◌, ◌>>◌, pure, throw_if, gets, modify,
  or_throw, find?, find_many,
}
use Prim.Native.Nat.{min}

pub record User : Type 0 where
  pub id : ℕ
  pub email : ℕ
  pub full_name : ℕ
  pub deleted_at : Option ℕ

-- The name SUPER_ADMIN is 0.
pub record RoleRow : Type 0 where
  pub id : ℕ
  pub name : ℕ

abbrev pub super_admin_name : ℕ
super_admin_name = 0

pub record PermissionRow : Type 0 where
  pub id : ℕ
  pub name : ℕ

pub record UserRole : Type 0 where
  pub user_id : ℕ
  pub role_id : ℕ

pub record RolePermission : Type 0 where
  pub role_id : ℕ
  pub permission_id : ℕ

pub data AuditEntry : Type 0 where
  role_assigned role_revoked : ℕ → ℕ → ℕ → AuditEntry
  permission_granted permission_revoked : ℕ → ℕ → ℕ → AuditEntry

pub record Store : Type 0 where
  pub users : List User
  pub roles : List RoleRow
  pub permissions : List PermissionRow
  pub user_roles : List UserRole
  pub role_permissions : List RolePermission
  pub audit : List AuditEntry

abbrev pub find_user : ℕ → Store → Option User
find_user i s = find? (λ u. u.id == i) s.users

abbrev pub find_role : ℕ → Store → Option RoleRow
find_role i s = find? (λ r. r.id == i) s.roles

abbrev pub find_role_by_name : ℕ → Store → Option RoleRow
find_role_by_name name s = find? (λ r. r.name == name) s.roles

abbrev pub find_permission : ℕ → Store → Option PermissionRow
find_permission i s = find? (λ p. p.id == i) s.permissions

-- `include: { permissions }`: the grants of each role.
abbrev with_grants : Store → List RoleRow → List (RoleRow × List RolePermission)
with_grants s [] = []
with_grants s (r ∷ rs) =
    (r, find_many (λ g. g.role_id == r.id) s.role_permissions) ∷ with_grants s rs

unfoldable pub list_roles : Action Store (List (RoleRow × List RolePermission))
list_roles = gets (λ s. with_grants s s.roles)

unfoldable pub list_permissions : Action Store (List PermissionRow)
list_permissions = gets (λ s. s.permissions)

abbrev matches : (ℕ → ℕ → Bool) → Option ℕ → User → Bool
matches contains none u = true
matches contains (some text) u = contains u.email text || contains u.full_name text

abbrev first_rows : ℕ → List User → List User
first_rows zero rows = []
first_rows (suc n) [] = []
first_rows (suc n) (u ∷ rows) = u ∷ first_rows n rows

unfoldable pub list_users : (ℕ → ℕ → Bool) → Option ℕ → ℕ → Action Store (List User)
list_users contains search take = gets (λ s.
    first_rows (min take 50)
      (find_many (λ u. not (is_some u.deleted_at) && matches contains search u) s.users))

abbrev pub has_role : ℕ → ℕ → List UserRole → Bool
has_role user_id role_id rows = any (λ x. (x.user_id == user_id) && (x.role_id == role_id)) rows

abbrev pub has_permission : ℕ → ℕ → List RolePermission → Bool
has_permission role_id permission_id rows =
    any (λ x. (x.role_id == role_id) && (x.permission_id == permission_id)) rows

-- `userRole.upsert` and `userRole.deleteMany`
abbrev pub upsert_user_role : ℕ → ℕ → Store → Store
upsert_user_role u r s =
    if has_role u r s.user_roles
    then s
    else record s { user_roles = record { user_id = u; role_id = r } ∷ s.user_roles }

abbrev pub delete_user_role : ℕ → ℕ → Store → Store
delete_user_role u r s = record s {
  user_roles = find_many (λ x. not ((x.user_id == u) && (x.role_id == r))) s.user_roles;
}

-- `rolePermission.upsert` and `rolePermission.deleteMany`
abbrev pub upsert_role_permission : ℕ → ℕ → Store → Store
upsert_role_permission r p s = if has_permission r p s.role_permissions then s else record s {
  role_permissions = record { role_id = r; permission_id = p } ∷ s.role_permissions;
}

abbrev pub delete_role_permission : ℕ → ℕ → Store → Store
delete_role_permission r p s = record s {
  role_permissions =
      find_many (λ x. not ((x.role_id == r) && (x.permission_id == p))) s.role_permissions;
}

abbrev pub record_audit : AuditEntry → Store → Store
record_audit entry s = record s { audit = entry ∷ s.audit }

-- `roleName === 'SUPER_ADMIN' && actingUserId === targetUserId`
abbrev pub is_own_super_admin : ℕ → ℕ → ℕ → Bool
is_own_super_admin acting target name = (name == super_admin_name) && (acting == target)

module _ (acting_user_id : ℕ) where
  unfoldable pub assign_role : ℕ → ℕ → Action Store (Unit {0})
  assign_role target name = do
    user ← gets (find_user target)
    role ← gets (find_role_by_name name)
    or_throw user not_found
    r ← or_throw role not_found
    throw_if (is_own_super_admin acting_user_id target name) forbidden
    modify (upsert_user_role target r.id)
    modify (record_audit (role_assigned acting_user_id target name))

  unfoldable pub revoke_role : ℕ → ℕ → Action Store (Unit {0})
  revoke_role target name = do
    role ← gets (find_role_by_name name)
    r ← or_throw role not_found
    throw_if (is_own_super_admin acting_user_id target name) forbidden
    modify (delete_user_role target r.id)
    modify (record_audit (role_revoked acting_user_id target name))

  unfoldable pub grant_permission : ℕ → ℕ → Action Store (Unit {0})
  grant_permission role_id permission_id = do
    role ← gets (find_role role_id)
    permission ← gets (find_permission permission_id)
    or_throw role not_found
    or_throw permission not_found
    modify (upsert_role_permission role_id permission_id)
    modify (record_audit (permission_granted acting_user_id role_id permission_id))

  unfoldable pub revoke_permission : ℕ → ℕ → Action Store (Unit {0})
  revoke_permission role_id permission_id = do
    role ← gets (find_role role_id)
    permission ← gets (find_permission permission_id)
    r ← or_throw role not_found
    or_throw permission not_found
    throw_if (r.name == super_admin_name) forbidden
    modify (delete_role_permission role_id permission_id)
    modify (record_audit (permission_revoked acting_user_id role_id permission_id))

-- A request of one user, and a sequence of them.
pub data Request : Type 0 where
  assigns revokes grants withdraws : ℕ → ℕ → ℕ → Request

abbrev pub handle : Request → Action Store (Unit {0})
handle (assigns by target name) = assign_role by target name
handle (revokes by target name) = revoke_role by target name
handle (grants by role permission) = grant_permission by role permission
handle (withdraws by role permission) = revoke_permission by role permission

abbrev pub handle_all : List Request → Store → Store
handle_all [] s = s
handle_all (q ∷ qs) s = handle_all qs (handle q s).1
