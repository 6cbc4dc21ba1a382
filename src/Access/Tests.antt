-- ===== src/Access/Tests.antt =====
-- The theorems on roles and on the guard, each at one user.
use muhammad_tours_and_trave.Prelude.{◌≡◌, ◌↔◌, refl, true, some, none, List, [], ◌∷◌, All, ok}
use muhammad_tours_and_trave.Roles.{
  Permission, super_admin, finance, visa_manage, audit_read, wallet_adjust, includes,
  default_role_permissions,
}
use muhammad_tours_and_trave.Roles.Laws.{super_admin-all}
use muhammad_tours_and_trave.Access.{AuthenticatedUser, can_activate}
use muhammad_tours_and_trave.Access.Laws.{can_activate_iff, can_activate_anonymous}

abbrev officer : AuthenticatedUser
officer = record { id = 1; permissions = visa_manage ∷ [] }

abbrev required : List Permission
required = visa_manage ∷ audit_read ∷ []

super_admin-all_example : includes (default_role_permissions super_admin) wallet_adjust ≡ true
super_admin-all_example = super_admin-all wallet_adjust

wallet_of_finance : includes (default_role_permissions finance) wallet_adjust ≡ true
unfolding default_role_permissions
wallet_of_finance = refl

can_activate_iff_example :
    (can_activate (some required) (some officer) ≡ ok tt)
    ↔ All (λ p. includes officer.permissions p ≡ true) required
can_activate_iff_example = can_activate_iff required officer

can_activate_anonymous_example : (can_activate (some required) none ≡ ok tt) ↔ (required ≡ [])
can_activate_anonymous_example = can_activate_anonymous required
