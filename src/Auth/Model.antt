-- ===== src/Auth/Model.antt =====
-- The tables that apps/api/src/modules/auth/auth.service.ts reads and writes: the models User,
-- RefreshToken, PasswordResetToken, Customer, B2BAgency, Agent and Wallet of
-- apps/api/prisma/schema.prisma, with those of the roles.
use muhammad_tours_and_trave.Prelude.{
  ℕ, ◌+◌, ◌*◌, ◌==◌, Bool, Option, List, ◌∷◌, ◌++◌, find?, update_where, Action, ◌>>=◌, ◌>>◌, gets,
  or_throw, modify, failure,
}
use muhammad_tours_and_trave.Rbac.{RoleRow, PermissionRow, UserRole, RolePermission}
use muhammad_tours_and_trave.Wallet.Model.{AgencyStatus}
use muhammad_tours_and_trave.Auth.Text.{Text, same_text}

pub record User : Type 0 where
  pub id : ℕ
  pub email : Text
  pub password_hash : ℕ
  pub full_name : Text
  pub phone_number : Option Text
  pub address : Option Text
  pub is_active : Bool
  pub deleted_at : Option ℕ
  pub last_login_at : Option ℕ
  pub two_factor_enabled : Bool
  pub two_factor_secret : Option Text
  pub two_factor_backup_codes : List ℕ

pub record RefreshToken : Type 0 where
  pub id : ℕ
  pub user_id : ℕ
  pub token_hash : ℕ
  pub device_label : Option Text
  pub issued_at : ℕ
  pub expires_at : ℕ
  pub revoked_at : Option ℕ

pub record PasswordResetToken : Type 0 where
  pub id : ℕ
  pub user_id : ℕ
  pub token_hash : ℕ
  pub expires_at : ℕ
  pub used_at : Option ℕ

pub record Customer : Type 0 where
  pub id : ℕ
  pub user_id : ℕ

pub record Agency : Type 0 where
  pub id : ℕ
  pub name : Text
  pub status : AgencyStatus

-- A membership; the title of the one that signs an agency up is Owner.
pub record Agent : Type 0 where
  pub id : ℕ
  pub user_id : ℕ
  pub agency_id : ℕ
  pub is_owner : Bool

-- The wallet of a new agency, in dollars.
pub record UsdWallet : Type 0 where
  pub id : ℕ
  pub agency_id : ℕ

pub data AccountType : Type 0 where
  b2c_customer_account b2b_agent_account : AccountType

pub data AuditEntry : Type 0 where
  user_registered : ℕ → AccountType → AuditEntry
  two_factor_was_enabled two_factor_was_disabled : ℕ → AuditEntry
  password_reset_requested password_reset_completed : ℕ → AuditEntry

-- A mail with the link to reset a password: to whom, and the token in the link.
pub record ResetMail : Type 0 where
  pub to_email : Text
  pub to_name : Text
  pub token : Text

-- The tables, and the next id, which also numbers what the random generator yields.
pub record Store : Type 0 where
  pub users : List User
  pub refresh_tokens : List RefreshToken
  pub reset_tokens : List PasswordResetToken
  pub roles : List RoleRow
  pub permissions : List PermissionRow
  pub user_roles : List UserRole
  pub role_permissions : List RolePermission
  pub customers : List Customer
  pub agencies : List Agency
  pub agents : List Agent
  pub wallets : List UsdWallet
  pub mails : List ResetMail
  pub audit : List AuditEntry
  pub next_id : ℕ

-- `jwt.accessSecret` and `jwt.refreshSecret`
pub data Secret : Type 0 where
  access_secret refresh_secret : Secret

-- What a token says: `AccessTokenPayload`, the one of `refresh` and `TwoFactorChallengePayload`.
pub data Payload : Type 0 where
  access : ℕ → Payload
  session : ℕ → Text → Payload
  two_factor_challenge : ℕ → Option Text → Payload

-- The libraries (argon2, crypto and JwtService) and the settings. `sign` takes the
-- time that a token is to live, as a text, and the time of the call; `verify` is asked at a time,
-- and a token that is not valid then has no payload.
pub record Services : Type 0 where
  pub hash_password : ℕ → Text → ℕ
  pub verify_password : ℕ → Text → Bool
  pub sha256 : Text → ℕ
  pub hmac : List ℕ → List ℕ → List ℕ
  pub sign : Secret → Payload → Text → ℕ → Text
  pub verify : Secret → Text → ℕ → Option Payload
  pub random_uuid : ℕ → Text
  pub random_bytes : ℕ → ℕ → List ℕ
  pub access_ttl : Text
  pub refresh_ttl : Text

pub record AuthTokens : Type 0 where
  pub access_token : Text
  pub refresh_token : Text
  pub expires_in : ℕ

pub record AuthenticatedUser : Type 0 where
  pub id : ℕ
  pub email : Text
  pub full_name : Text
  pub roles : List ℕ
  pub permissions : List ℕ

abbrev pub find_user : ℕ → Store → Option User
find_user i s = find? (λ u. u.id == i) s.users

abbrev pub find_user_by_email : Text → Store → Option User
find_user_by_email email s = find? (λ u. same_text u.email email) s.users

abbrev pub record_audit : AuditEntry → Store → Store
record_audit entry s = record s { audit = entry ∷ s.audit }

abbrev pub write_user : ℕ → (User → User) → Store → Store
write_user i f s = record s { users = update_where (λ u. u.id == i) f s.users }

-- `user.update`, which throws where there is no such row
abbrev pub update_user : ℕ → (User → User) → Action Store (Unit {0})
update_user i f = do found ← gets (find_user i); or_throw found failure; modify (write_user i f)

-- `randomUUID() + randomUUID()`
abbrev pub token_value : Services → ℕ → Text
token_value services n = services.random_uuid (2 * n) ++ services.random_uuid (2 * n + 1)
