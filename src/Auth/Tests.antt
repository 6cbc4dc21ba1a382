-- ===== src/Auth/Tests.antt =====
-- The theorems on signing in at one user with a session, a second factor and a link to reset.
use muhammad_tours_and_trave.Prelude.{
  ℕ, ◌+◌, ◌*◌, ◌≡◌, ◌↔◌, refl, sym, ◌∙◌, ltb, ◌==◌, true, false, if◌then◌else◌, Option, none, some,
  some_eq, List, [], ◌∷◌, ok, err, unauthorized, arith,
}
use muhammad_tours_and_trave.Auth.Text.{Text, parse_duration_to_seconds}
use muhammad_tours_and_trave.Auth.Totp.{
  clean, generate_totp, verify_totp, base32_encode, base32_decode,
}
use muhammad_tours_and_trave.Auth.Totp.Window.{IsNear, verify-generate_totp, verify_totp_iff}
use muhammad_tours_and_trave.Auth.Totp.Base32.{decode-encode}
use muhammad_tours_and_trave.Auth.Model.{
  User, Store, Services, Secret, access_secret, refresh_secret, Payload, access, session,
  two_factor_challenge, b2b_agent_account,
}
use muhammad_tours_and_trave.Auth.Tokens.{
  authenticated, load_authenticated_user, issue_tokens, issued_pair, refresh,
}
use muhammad_tours_and_trave.Auth.Accounts.{
  local_validate, validate_credentials, RegisterInput, register, reset_password,
}
use muhammad_tours_and_trave.Auth.TwoFactor.{verify_two_factor, enable_two_factor}
use muhammad_tours_and_trave.Auth.Requests.{logs_in, revokes, handle_all}
use muhammad_tours_and_trave.Auth.Rotation.{Differ, refresh_once}
use muhammad_tours_and_trave.Auth.Codes.{verify_two_factor_once}
use muhammad_tours_and_trave.Auth.Reset.{Outcome, reset_password-Outcome}
use muhammad_tours_and_trave.Auth.SignUp.{register-Outcome}
use muhammad_tours_and_trave.Auth.SignUp as S
use muhammad_tours_and_trave.Auth.SignIn.{local_validate-Outcome}
use muhammad_tours_and_trave.Auth.SignIn as I

-- A digest that is the first letter, and passwords stored as their first letter.
abbrev first : Text → ℕ
first [] = 0
first (c ∷ cs) = c

-- A token in the clear: its kind, its user, when it expires and its value.
abbrev expiry : Text → ℕ → ℕ
expiry ttl now = now + parse_duration_to_seconds ttl * 1000

abbrev sign : Secret → Payload → Text → ℕ → Text
sign access_secret payload ttl now = 0 ∷ []
sign refresh_secret (access user) ttl now = 0 ∷ []
sign refresh_secret (session user jti) ttl now = 1 ∷ user ∷ expiry ttl now ∷ jti
sign refresh_secret (two_factor_challenge user label) ttl now = 2 ∷ user ∷ expiry ttl now ∷ []

abbrev payload_of : ℕ → ℕ → Text → Option Payload
payload_of kind user rest =
    if kind == 1
    then some (session user rest)
    else (if kind == 2 then some (two_factor_challenge user none) else none)

abbrev verify : Secret → Text → ℕ → Option Payload
verify refresh_secret (kind ∷ user ∷ expires ∷ rest) now =
    if ltb now expires then payload_of kind user rest else none
verify _ _ now = none

-- A digest of twenty bytes.
abbrev digest : List ℕ → List ℕ → List ℕ
digest key message =
    1 ∷ 2 ∷ 3 ∷ 4 ∷ 5 ∷ 6 ∷ 7 ∷ 8 ∷ 9 ∷ 10 ∷ 11 ∷ 12 ∷ 13 ∷ 14 ∷ 15 ∷ 16 ∷ 17 ∷ 18 ∷ 19 ∷ 0 ∷ []

abbrev services : Services
services = record {
  hash_password = λ draw password. first password;
  verify_password = λ hash password. hash == first password;
  sha256 = first;
  hmac = digest;
  sign = sign;
  verify = verify;
  random_uuid = λ n. n ∷ [];
  random_bytes = λ n count. n ∷ [];
  access_ttl = 49 ∷ 53 ∷ 109 ∷ [];
  refresh_ttl = 55 ∷ 100 ∷ [];
}

-- The backup code `ab`, and the first letter of it as its digest.
abbrev backup : Text
backup = 97 ∷ 98 ∷ []

abbrev user : User
user = record {
  id = 1;
  email = 117 ∷ 64 ∷ 120 ∷ [];
  password_hash = 112;
  full_name = 85 ∷ [];
  phone_number = none;
  address = none;
  is_active = true;
  deleted_at = none;
  last_login_at = none;
  two_factor_enabled = true;
  two_factor_secret = some (65 ∷ 66 ∷ []);
  two_factor_backup_codes = 97 ∷ 99 ∷ [];
}

abbrev tables : Store
tables = record {
  users = user ∷ [];
  refresh_tokens =
      record {
        id = 2;
        user_id = 1;
        token_hash = 4;
        device_label = none;
        issued_at = 0;
        expires_at = 5000;
        revoked_at = none;
      }
      ∷ [];
  reset_tokens =
      record { id = 3; user_id = 1; token_hash = 122; expires_at = 9000; used_at = none } ∷ [];
  roles = record { id = 7; name = 2 } ∷ [];
  permissions = [];
  user_roles = [];
  role_permissions = [];
  customers = [];
  agencies = [];
  agents = [];
  wallets = [];
  mails = [];
  audit = [];
  next_id = 4;
}

abbrev token : Text
token = 1 ∷ 1 ∷ 5000 ∷ 4 ∷ 5 ∷ []

abbrev after : Store
after = (refresh services 1000 token tables).1

apart : Differ services
apart i j e = omega (arith, e)

steady :
    (p q : Payload)
    → services.verify refresh_secret token 1000 ≡ some p
    → services.verify refresh_secret token 2000 ≡ some q
    → p ≡ q
steady p q e f = some_eq (sym e ∙ f)

refreshed : refresh services 1000 token tables ≡ (ok (issued_pair services 1000 1 4), after)
unfolding refresh load_authenticated_user issue_tokens
refreshed = refl

refresh_once_example :
    (refresh services 2000 token
      (handle_all services ((1100, logs_in 1 none) ∷ (1200, revokes 1 2) ∷ []) after)).0
    ≡ err unauthorized
refresh_once_example =
    refresh_once services apart tables token 1000 2000 (record { rows = ((refl, omega arith), tt) })
      steady refreshed ((1100, logs_in 1 none) ∷ (1200, revokes 1 2) ∷ [])

-- Two challenges of the user, and the backup code that he answers both with.
abbrev challenge : Text
challenge = 2 ∷ 1 ∷ 90000 ∷ []

abbrev let_in : Store
let_in = (verify_two_factor services 40000 challenge backup tables).1

verified :
    verify_two_factor services 40000 challenge backup tables
    ≡ (ok (issued_pair services 40000 1 4), let_in)
unfolding verify_two_factor verify_totp load_authenticated_user issue_tokens
verified = refl

no_totp : (secret : Text) (now : ℕ) → verify_totp digest secret backup now ≡ ok false
unfolding verify_totp
no_totp secret now = refl

verify_two_factor_once_example :
    verify_two_factor services 50000 challenge backup let_in ≡ (err unauthorized, let_in)
verify_two_factor_once_example =
    verify_two_factor_once services 1 backup tables 40000 50000 challenge challenge none none refl
      refl (λ secret e. no_totp secret 40000) (λ secret e. no_totp secret 50000) verified

reset_password-Outcome_example :
    Outcome services 1000
      (122 ∷ [])
      (113 ∷ [])
      tables
      (reset_password services 1000 (122 ∷ []) (113 ∷ []) tables)
reset_password-Outcome_example = reset_password-Outcome services 1000 (122 ∷ []) (113 ∷ []) tables

verify-generate_totp_example :
    verify_totp digest (65 ∷ 66 ∷ []) (generate_totp digest (65 ∷ 66 ∷ []) 100000) 129000 ≡ ok true
verify-generate_totp_example =
    verify-generate_totp digest (65 ∷ 66 ∷ []) 100000 129000 (omega arith) (omega arith)
      (omega arith)

decode-encode_example : base32_decode (base32_encode (255 ∷ 0 ∷ 17 ∷ [])) ≡ 255 ∷ 0 ∷ 17 ∷ []
decode-encode_example =
    decode-encode (255 ∷ 0 ∷ 17 ∷ []) (omega arith, (omega arith, (omega arith, tt)))

-- `Hi` is JBUQ in base 32, without the padding signs.
encoded : base32_encode (72 ∷ 105 ∷ []) ≡ 74 ∷ 66 ∷ 85 ∷ 81 ∷ []
unfolding base32_encode
encoded = refl

-- An agency that signs itself up.
abbrev input : RegisterInput
input = record {
  email = 78 ∷ 64 ∷ 120 ∷ [];
  password = 113 ∷ [];
  full_name = 78 ∷ [];
  phone_number = 49 ∷ [];
  address = none;
  account_type = b2b_agent_account;
}

register-Outcome_example : S.Outcome services input tables (register services input tables)
register-Outcome_example = register-Outcome services input tables

-- Asking for a new setup switches a confirmed second factor off.
setup_switches_off :
    (enable_two_factor services 1000 1 tables).1.users
    ≡ record user {
      two_factor_enabled = false;
      two_factor_secret = some (65 ∷ 81 ∷ []);
      two_factor_backup_codes = 48 ∷ 48 ∷ 48 ∷ 48 ∷ 48 ∷ 48 ∷ 48 ∷ 48 ∷ [];
    }
      ∷ []
unfolding enable_two_factor base32_encode
setup_switches_off = refl

-- The user signs in with his email in capitals, and not with another password.
local_validate-Outcome_example :
    I.Outcome services
      (85 ∷ 64 ∷ 88 ∷ [])
      (112 ∷ [])
      tables
      (local_validate services (85 ∷ 64 ∷ 88 ∷ []) (112 ∷ []) tables)
local_validate-Outcome_example =
    local_validate-Outcome services (85 ∷ 64 ∷ 88 ∷ []) (112 ∷ []) tables (refl, tt)

signs_in :
    (local_validate services (85 ∷ 64 ∷ 88 ∷ []) (112 ∷ []) tables).0
    ≡ ok (authenticated tables user)
unfolding local_validate validate_credentials load_authenticated_user
signs_in = refl

verify_totp_iff_example :
    (verify_totp digest (65 ∷ 66 ∷ []) (generate_totp digest (65 ∷ 66 ∷ []) 70000) 60000 ≡ ok true)
    ↔ IsNear digest (65 ∷ 66 ∷ []) 60000 (clean digest (generate_totp digest (65 ∷ 66 ∷ []) 70000))
verify_totp_iff_example =
    verify_totp_iff digest (65 ∷ 66 ∷ []) (generate_totp digest (65 ∷ 66 ∷ []) 70000) 60000
      (omega arith)
