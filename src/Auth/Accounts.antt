-- ===== src/Auth/Accounts.antt =====
-- Signing up, the check of a password and its reset: apps/api/src/modules/auth/auth.service.ts.
use muhammad_tours_and_trave.Prelude.{
  ℕ, ◌+◌, ◌*◌, ◌==◌, ltb, Bool, true, false, not, ◌&&◌, if◌then◌else◌, Option, none, some, [], ◌∷◌,
  is_some, find?, update_where, Action, unauthorized, conflict, ◌>>=◌, ◌>>◌, pure, gets, modify,
  throw_if, or_throw, transaction,
}
use muhammad_tours_and_trave.Rbac.{RoleRow}
use muhammad_tours_and_trave.Wallet.Model.{pending_approval}
use muhammad_tours_and_trave.Auth.Text.{Text, lower, hex}
use muhammad_tours_and_trave.Auth.Model.{
  User, AccountType, b2c_customer_account, b2b_agent_account, PasswordResetToken, Store, Services,
  AuthenticatedUser, find_user_by_email, record_audit, user_registered, password_reset_requested,
  password_reset_completed, update_user,
}
use muhammad_tours_and_trave.Auth.Tokens.{load_authenticated_user, is_live, revoke_where}

-- `RegisterInput`
pub record RegisterInput : Type 0 where
  pub email : Text
  pub password : Text
  pub full_name : Text
  pub phone_number : Text
  pub address : Option Text
  pub account_type : AccountType

-- The names of the roles are numbers, of which these two are given out here.
abbrev pub b2c_customer_name : ℕ
b2c_customer_name = 1

abbrev pub b2b_agency_admin_name : ℕ
b2b_agency_admin_name = 2

abbrev pub role_name : AccountType → ℕ
role_name b2c_customer_account = b2c_customer_name
role_name b2b_agent_account = b2b_agency_admin_name

abbrev pub password_reset_ttl_minutes : ℕ
password_reset_ttl_minutes = 30

abbrev pub is_open : Option User → Bool
is_open none = false
is_open (some u) = u.is_active && not (is_some u.deleted_at)

module _ (services : Services) where
  abbrev pub new_user : RegisterInput → ℕ → User
  new_user input i = record {
    id = i;
    email = lower input.email;
    password_hash = services.hash_password i input.password;
    full_name = input.full_name;
    phone_number = some input.phone_number;
    address = input.address;
    is_active = true;
    deleted_at = none;
    last_login_at = none;
    two_factor_enabled = false;
    two_factor_secret = none;
    two_factor_backup_codes = [];
  }

  abbrev pub create_user : RegisterInput → Action Store ℕ
  create_user input s =
      pure s.next_id
        (record s { users = new_user input s.next_id ∷ s.users; next_id = s.next_id + 1 })

abbrev pub give_role : ℕ → Option RoleRow → Store → Store
give_role user none s = s
give_role user (some r) s = record s {
  user_roles = record { user_id = user; role_id = r.id } ∷ s.user_roles;
}

-- The customer, or the agency with its first member and its wallet.
abbrev pub add_profile : AccountType → Text → ℕ → Store → Store
add_profile b2c_customer_account name user s = record s {
  customers = record { id = s.next_id; user_id = user } ∷ s.customers;
  next_id = s.next_id + 1;
}
add_profile b2b_agent_account name user s = record s {
  agencies = record { id = s.next_id; name = name; status = pending_approval } ∷ s.agencies;
  agents =
      record { id = s.next_id + 1; user_id = user; agency_id = s.next_id; is_owner = true }
      ∷ s.agents;
  wallets = record { id = s.next_id + 2; agency_id = s.next_id } ∷ s.wallets;
  next_id = s.next_id + 3;
}

module _ (services : Services) where
  abbrev pub sign_up : RegisterInput → Action Store ℕ
  sign_up input = transaction (do
    i ← create_user services input
    role ← gets (λ s. find? (λ r. r.name == role_name input.account_type) s.roles)
    modify (give_role i role)
    modify (add_profile input.account_type input.full_name i)
    pure i)

  unfoldable pub register : RegisterInput → Action Store AuthenticatedUser
  register input = do
    existing ← gets (find_user_by_email (lower input.email))
    throw_if (is_some existing) conflict
    i ← sign_up input
    modify (record_audit (user_registered i input.account_type))
    load_authenticated_user i

  abbrev pub checked : Text → Option User → Action Store (Option AuthenticatedUser)
  checked password none = pure none
  checked password (some u) =
      if services.verify_password u.password_hash password
      then load_authenticated_user u.id >>= (λ a. pure (some a))
      else pure none

  unfoldable pub validate_credentials : Text → Text → Action Store (Option AuthenticatedUser)
  validate_credentials email password = do
    found ← gets (find_user_by_email (lower email))
    if is_open found then checked password found else pure none

  -- `LocalStrategy.validate`
  unfoldable pub local_validate : Text → Text → Action Store AuthenticatedUser
  local_validate email password = do
    user ← validate_credentials email password
    or_throw user unauthorized

  -- `randomBytes(32).toString('hex')`
  abbrev pub raw_token : ℕ → Text
  raw_token i = hex (services.random_bytes i 32)

  module _ (now : ℕ) where
    abbrev pub new_reset : ℕ → ℕ → PasswordResetToken
    new_reset user i = record {
      id = i;
      user_id = user;
      token_hash = services.sha256 (raw_token i);
      expires_at = now + password_reset_ttl_minutes * 60 * 1000;
      used_at = none;
    }

    abbrev pub add_reset : User → Store → Store
    add_reset u s = record s {
      reset_tokens = new_reset u.id s.next_id ∷ s.reset_tokens;
      mails =
          record { to_email = u.email; to_name = u.full_name; token = raw_token s.next_id }
          ∷ s.mails;
      next_id = s.next_id + 1;
    }

    abbrev pub send_reset : Option User → Action Store (Unit {0})
    send_reset none = pure tt
    send_reset (some u) = do
      modify (add_reset u)
      modify (record_audit (password_reset_requested u.id))

    unfoldable pub request_password_reset : Text → Action Store (Unit {0})
    request_password_reset email = do
      found ← gets (find_user_by_email (lower email))
      if is_open found then send_reset found else pure tt

    abbrev pub is_usable : ℕ → PasswordResetToken → Bool
    is_usable hash t = (t.token_hash == hash) && not (is_some t.used_at) && ltb now t.expires_at

    abbrev pub use_reset : ℕ → Store → Store
    use_reset i s = record s {
      reset_tokens =
          update_where (λ t. t.id == i) (λ t. record t { used_at = some now }) s.reset_tokens;
    }

    abbrev pub change_password : Text → ℕ → PasswordResetToken → Action Store (Unit {0})
    change_password password draw r = transaction (do
      update_user r.user_id (λ u. record u { password_hash = services.hash_password draw password })
      modify (use_reset r.id)
      modify (revoke_where (is_live (λ t. t.user_id == r.user_id)) now))

    unfoldable pub reset_password : Text → Text → Action Store (Unit {0})
    reset_password token password = do
      found ← gets (λ s. find? (is_usable (services.sha256 token)) s.reset_tokens)
      r ← or_throw found unauthorized
      draw ← gets (λ s. s.next_id)
      modify (λ s. record s { next_id = s.next_id + 1 })
      change_password password draw r
      modify (record_audit (password_reset_completed r.user_id))
