-- ===== src/Auth/Requests.antt =====
-- The requests of apps/api/src/modules/auth/auth.controller.ts that write.
use muhammad_tours_and_trave.Prelude.{ℕ, Option, List, [], ◌∷◌, Action, ◌>>=◌, pure}
use muhammad_tours_and_trave.Auth.Text.{Text}
use muhammad_tours_and_trave.Auth.Model.{Store, Services}
use muhammad_tours_and_trave.Auth.Tokens.{refresh, logout, revoke_session}
use muhammad_tours_and_trave.Auth.Accounts.{
  RegisterInput, register, request_password_reset, reset_password,
}
use muhammad_tours_and_trave.Auth.TwoFactor.{
  begin_login, verify_two_factor, enable_two_factor, confirm_two_factor, disable_two_factor,
}

pub data Request : Type 0 where
  registers : RegisterInput → Request
  logs_in : ℕ → Option Text → Request
  verifies : Text → Text → Request
  enables : ℕ → Request
  confirms disables : ℕ → Text → Request
  revokes : ℕ → ℕ → Request
  asks_for_reset : Text → Request
  resets : Text → Text → Request
  refreshes : Text → Request
  logs_out : ℕ → Text → Request

abbrev pub done : {A : Type 0} → Action Store A → Action Store (Unit {0})
done m = m >>= λ _. pure tt

unfoldable pub handle : Services → ℕ → Request → Action Store (Unit {0})
handle services now (registers input) = done (register services input)
handle services now (logs_in user label) = done (begin_login services now user label)
handle services now (verifies token code) = done (verify_two_factor services now token code)
handle services now (enables user) = done (enable_two_factor services now user)
handle services now (confirms user code) = confirm_two_factor services now user code
handle services now (disables user password) = disable_two_factor services now user password
handle services now (revokes user i) = revoke_session now user i
handle services now (asks_for_reset email) = request_password_reset services now email
handle services now (resets token password) = reset_password services now token password
handle services now (refreshes token) = done (refresh services now token)
handle services now (logs_out user token) = logout services now user token

-- Requests with their times, whether they return or throw.
abbrev pub handle_all : Services → List (ℕ × Request) → Store → Store
handle_all services [] s = s
handle_all services ((now, q) ∷ qs) s = handle_all services qs (handle services now q s).1
