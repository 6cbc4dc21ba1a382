-- ===== src/Rbac/Tests.antt =====
-- The theorems on the administration of roles, with two roles and one administrator.
use muhammad_tours_and_trave.Prelude.{refl, none, [], ◌∷◌}
use muhammad_tours_and_trave.Rbac.{RoleRow, Store, revokes, grants, withdraws, handle_all}
use muhammad_tours_and_trave.Rbac.Laws.{IsWhole, handle_all-IsWhole}

abbrev super_admin : RoleRow
super_admin = record { id = 1; name = 0 }

abbrev tables : Store
tables = record {
  users = record { id = 5; email = 50; full_name = 51; deleted_at = none } ∷ [];
  roles = super_admin ∷ record { id = 2; name = 7 } ∷ [];
  permissions = record { id = 30; name = 300 } ∷ [];
  user_roles = record { user_id = 5; role_id = 1 } ∷ [];
  role_permissions =
      record { role_id = 1; permission_id = 30 } ∷ record { role_id = 2; permission_id = 30 } ∷ [];
  audit = [];
}

handle_all-IsWhole_example :
    IsWhole 1 30
      (handle_all (withdraws 5 1 30 ∷ withdraws 5 2 30 ∷ grants 5 2 30 ∷ revokes 5 5 0 ∷ []) tables)
handle_all-IsWhole_example =
    handle_all-IsWhole 1 30
      (withdraws 5 1 30 ∷ withdraws 5 2 30 ∷ grants 5 2 30 ∷ revokes 5 5 0 ∷ []) tables
      (super_admin, refl, refl, refl)
