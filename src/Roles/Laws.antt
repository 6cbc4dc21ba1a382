-- ===== src/Roles/Laws.antt =====
-- Who starts out with which powers.
use muhammad_tours_and_trave.Prelude.{◌≡◌, ◌⊎◌, Bool, true, false, inl, inr, refl}
use muhammad_tours_and_trave.Roles.{
  Role, super_admin, ops_support, finance, Permission, booking_read_any, booking_cancel_any,
  ticket_issue_any, refund_process, wallet_adjust, pricing_manage, roles_manage, suppliers_manage,
  users_manage, includes, default_role_permissions,
}

-- The permissions that reach beyond one's own and one's agency's rows.
abbrev is_platform_wide : Permission → Bool
is_platform_wide booking_read_any = true
is_platform_wide booking_cancel_any = true
is_platform_wide ticket_issue_any = true
is_platform_wide refund_process = true
is_platform_wide wallet_adjust = true
is_platform_wide pricing_manage = true
is_platform_wide roles_manage = true
is_platform_wide suppliers_manage = true
is_platform_wide _ = false

-- A super administrator starts out with every permission.
pub super_admin-all : (p : Permission) → includes (default_role_permissions super_admin) p ≡ true
unfolding default_role_permissions
super_admin-all users_manage = refl
super_admin-all _ = refl

-- Only the platform's own staff starts out with a permission that reaches beyond one's own and
-- one's agency's rows.
platform_wide-staff :
    (r : Role) (p : Permission)
    → is_platform_wide p ≡ true
    → includes (default_role_permissions r) p ≡ true
    → (r ≡ super_admin) ⊎ ((r ≡ ops_support) ⊎ (r ≡ finance))
unfolding default_role_permissions
platform_wide-staff super_admin p wide held = inl refl
platform_wide-staff ops_support p wide held = inr (inl refl)
platform_wide-staff finance p wide held = inr (inr refl)
platform_wide-staff _ users_manage wide held = cc
platform_wide-staff _ _ wide held = cc
