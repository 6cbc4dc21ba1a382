-- ===== src/Auth/Steps.antt =====
-- What every request of apps/api/src/modules/auth/auth.controller.ts keeps true of the refresh
-- tokens, from what its steps keep.
pub mod Parts
pub mod Sessions
pub mod Accounts
pub mod Factors
use muhammad_tours_and_trave.Prelude.{
  ℕ, ◌≡◌, ◌≤◌, refl, ltb, any, unauthorized, not_found, failure, conflict, ◌+◌, or_throw,
  from_result, ◌==◌, Bool, true, false, not, ◌||◌, if◌then◌else◌, Option, none, some, List, [], ◌∷◌,
  is_some, find?, Action, ◌>>=◌, pure, modify, Keeps, bind-Keeps, throw_if-Keeps, or_throw-Keeps,
  from_result-Keeps, gets-Keeps, pure-Keeps, modify-Keeps, transaction-Keeps, arith,
}
use muhammad_tours_and_trave.Rbac.{RoleRow}
use muhammad_tours_and_trave.Auth.Text.{Text, lower}
use muhammad_tours_and_trave.Auth.Totp.{verify_totp}
use muhammad_tours_and_trave.Auth.Model.{
  User, RefreshToken, PasswordResetToken, Store, Services, Payload, access, session,
  two_factor_challenge, refresh_secret, AccountType, b2c_customer_account, b2b_agent_account,
  AuditEntry, find_user, find_user_by_email, update_user, write_user, record_audit, user_registered,
  two_factor_was_enabled, two_factor_was_disabled, password_reset_requested,
  password_reset_completed,
}
use muhammad_tours_and_trave.Auth.Tokens.{
  load_authenticated_user, authenticated, has_hash, issued_pair, add_refresh_token, revoke_where,
  is_live, new_token, create_token, issue_tokens, rotate, refresh_by, refresh, logout_by, logout,
  is_own_session, revoke_session, find_live,
}
use muhammad_tours_and_trave.Auth.Accounts.{
  RegisterInput, role_name, create_user, give_role, add_profile, register, sign_up, is_open,
  add_reset, use_reset, send_reset, request_password_reset, change_password, reset_password,
  is_usable,
}
use muhammad_tours_and_trave.Auth.TwoFactor.{
  logged_in, drop_code, redeem, write_setup, setup, switched_off, challenge_of, secret_of, has_code,
  backup_hash, answer_login, begin_login, spend_unless, verify_two_factor, enable_two_factor,
  confirm_two_factor, disable_two_factor,
}
use muhammad_tours_and_trave.Auth.Requests.{
  Request, registers, logs_in, verifies, enables, confirms, disables, revokes, asks_for_reset,
  resets, refreshes, logs_out, done, handle, handle_all,
}
use muhammad_tours_and_trave.Auth.Steps.Parts.{IsKept}
use muhammad_tours_and_trave.Auth.Steps.Parts.{kept}
use muhammad_tours_and_trave.Auth.Steps.Sessions.{refresh-Keeps, logout-Keeps, revoke_session-Keeps}
use muhammad_tours_and_trave.Auth.Steps.Accounts.{
  register-Keeps, request_reset-Keeps, reset_password-Keeps,
}
use muhammad_tours_and_trave.Auth.Steps.Factors.{
  begin_login-Keeps, verify_two_factor-Keeps, enable_two_factor-Keeps, confirm_two_factor-Keeps,
  disable_two_factor-Keeps,
}

module _ (services : Services) (I : Store → Type 0) (law : IsKept services I) where
  done-Keeps : {A : Type 0} {m : Action Store A} → Keeps I m → Keeps I (done m)
  done-Keeps k = bind-Keeps I k (λ a. pure-Keeps I)

  module _ (now : ℕ) where
    handle-Keeps : (q : Request) → Keeps I (handle services now q)
    unfolding handle
    handle-Keeps (registers input) = done-Keeps (register-Keeps services I law now input)
    handle-Keeps (logs_in user label) = done-Keeps (begin_login-Keeps services I law now user label)
    handle-Keeps (verifies token code) =
        done-Keeps (verify_two_factor-Keeps services I law now token code)
    handle-Keeps (enables user) = done-Keeps (enable_two_factor-Keeps services I law now user)
    handle-Keeps (confirms user code) = confirm_two_factor-Keeps services I law now user code
    handle-Keeps (disables user password) =
        disable_two_factor-Keeps services I law now user password
    handle-Keeps (revokes user i) = revoke_session-Keeps services I law now user i
    handle-Keeps (asks_for_reset email) = request_reset-Keeps services I law now email
    handle-Keeps (resets token password) = reset_password-Keeps services I law now token password
    handle-Keeps (refreshes token) = done-Keeps (refresh-Keeps services I law now token)
    handle-Keeps (logs_out user token) = logout-Keeps services I law now user token

  pub handle_all-kept : (qs : List (ℕ × Request)) (s : Store) → I s → I (handle_all services qs s)
  handle_all-kept [] s h = h
  handle_all-kept ((now, q) ∷ qs) s h =
      handle_all-kept qs (handle services now q s).1 ((handle-Keeps now q).kept s h)
