-- ===== src/Roles.antt =====
-- packages/types/src/roles.ts: roles, permissions and the grants that a role starts with.
pub mod Laws
use muhammad_tours_and_trave.Prelude.{ℕ, Bool, List, [], ◌∷◌, ◌==◌, any}

pub data Role : Type 0 where
  super_admin ops_support finance b2b_agency_admin b2b_agent : Role
  corporate_approver corporate_employee b2c_customer : Role

pub data Permission : Type 0 where
  users_manage roles_manage search_flights booking_create_own booking_read_own : Permission
  booking_read_agency booking_read_department booking_read_any : Permission
  booking_approve_corporate booking_cancel_own booking_cancel_any ticket_issue_own : Permission
  ticket_issue_agency ticket_issue_any refund_request refund_process wallet_read_own : Permission
  wallet_adjust pricing_manage agency_manage corporate_manage cost_centers_manage : Permission
  travel_policy_manage search_hotels visa_apply visa_manage suppliers_manage : Permission
  audit_read audit_read_financial analytics_read hajj_umrah_manage manpower_manage : Permission

-- The place of a permission in the enumeration, to compare permissions by.
abbrev pub rank : Permission → ℕ
rank users_manage = 0
rank roles_manage = 1
rank search_flights = 2
rank booking_create_own = 3
rank booking_read_own = 4
rank booking_read_agency = 5
rank booking_read_department = 6
rank booking_read_any = 7
rank booking_approve_corporate = 8
rank booking_cancel_own = 9
rank booking_cancel_any = 10
rank ticket_issue_own = 11
rank ticket_issue_agency = 12
rank ticket_issue_any = 13
rank refund_request = 14
rank refund_process = 15
rank wallet_read_own = 16
rank wallet_adjust = 17
rank pricing_manage = 18
rank agency_manage = 19
rank corporate_manage = 20
rank cost_centers_manage = 21
rank travel_policy_manage = 22
rank search_hotels = 23
rank visa_apply = 24
rank visa_manage = 25
rank suppliers_manage = 26
rank audit_read = 27
rank audit_read_financial = 28
rank analytics_read = 29
rank hajj_umrah_manage = 30
rank manpower_manage = 31

-- `permissions.includes(permission)`
abbrev pub includes : List Permission → Permission → Bool
includes l p = any (λ q. rank q == rank p) l

-- `Object.values(Permission)`
abbrev pub all_permissions : List Permission
all_permissions =
    users_manage ∷ roles_manage ∷ search_flights ∷ booking_create_own ∷ booking_read_own
    ∷ booking_read_agency ∷ booking_read_department ∷ booking_read_any ∷ booking_approve_corporate
    ∷ booking_cancel_own ∷ booking_cancel_any ∷ ticket_issue_own ∷ ticket_issue_agency
    ∷ ticket_issue_any ∷ refund_request ∷ refund_process ∷ wallet_read_own ∷ wallet_adjust
    ∷ pricing_manage ∷ agency_manage ∷ corporate_manage ∷ cost_centers_manage ∷ travel_policy_manage
    ∷ search_hotels ∷ visa_apply ∷ visa_manage ∷ suppliers_manage ∷ audit_read
    ∷ audit_read_financial ∷ analytics_read ∷ hajj_umrah_manage ∷ manpower_manage ∷ []

unfoldable pub default_role_permissions : Role → List Permission
default_role_permissions super_admin = all_permissions
default_role_permissions ops_support =
    search_flights ∷ search_hotels ∷ booking_read_any ∷ booking_cancel_any ∷ ticket_issue_any
    ∷ refund_process ∷ agency_manage ∷ corporate_manage ∷ cost_centers_manage ∷ travel_policy_manage
    ∷ visa_manage ∷ audit_read ∷ analytics_read ∷ hajj_umrah_manage ∷ manpower_manage ∷ []
default_role_permissions finance =
    booking_read_any ∷ wallet_adjust ∷ pricing_manage ∷ refund_process ∷ audit_read
    ∷ audit_read_financial ∷ analytics_read ∷ []
default_role_permissions b2b_agency_admin =
    search_flights ∷ search_hotels ∷ booking_create_own ∷ booking_read_agency ∷ booking_cancel_own
    ∷ ticket_issue_agency ∷ wallet_read_own ∷ refund_request ∷ visa_apply ∷ users_manage ∷ []
default_role_permissions b2b_agent =
    search_flights ∷ search_hotels ∷ booking_create_own ∷ booking_read_own ∷ booking_cancel_own
    ∷ ticket_issue_own ∷ wallet_read_own ∷ refund_request ∷ visa_apply ∷ []
default_role_permissions corporate_approver =
    search_flights ∷ search_hotels ∷ booking_read_department ∷ booking_approve_corporate ∷ []
default_role_permissions corporate_employee =
    search_flights ∷ search_hotels ∷ booking_create_own ∷ booking_read_own ∷ booking_cancel_own
    ∷ visa_apply ∷ []
default_role_permissions b2c_customer =
    search_flights ∷ search_hotels ∷ booking_create_own ∷ booking_read_own ∷ booking_cancel_own
    ∷ refund_request ∷ visa_apply ∷ []
