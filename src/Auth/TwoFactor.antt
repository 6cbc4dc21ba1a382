-- ===== src/Auth/TwoFactor.antt =====
-- The second factor: `beginLogin`, `verifyTwoFactorAndIssueTokens` and the methods that switch it on
-- and off, of apps/api/src/modules/auth/auth.service.ts.
use muhammad_tours_and_trave.Prelude.{
  ℕ, ◌+◌, ◌==◌, Bool, true, false, not, ◌&&◌, ◌||◌, if◌then◌else◌, Option, none, some, List, [],
  ◌∷◌, map, any, is_some, find_many, Action, unauthorized, failure, ◌>>=◌, ◌>>◌, pure, gets, modify,
  throw_if, or_throw, from_result,
}
use muhammad_tours_and_trave.Auth.Text.{Text, lower, trim}
use muhammad_tours_and_trave.Auth.Totp.{verify_totp, base32_encode, backup_code}
use muhammad_tours_and_trave.Auth.Model.{
  User, Store, Services, Payload, two_factor_challenge, refresh_secret, AuthTokens, find_user,
  update_user, record_audit, two_factor_was_enabled, two_factor_was_disabled,
}
use muhammad_tours_and_trave.Auth.Tokens.{load_authenticated_user, issue_tokens}

pub data LoginAnswer : Type 0 where
  two_factor_required : Text → LoginAnswer
  logged_in : AuthTokens → LoginAnswer

-- `TWO_FACTOR_CHALLENGE_TTL`: 5m
abbrev pub two_factor_challenge_ttl : Text
two_factor_challenge_ttl = 53 ∷ 109 ∷ []

-- `payload.sub` and the label, where the purpose is the right one.
abbrev pub challenge_of : Option Payload → Option (ℕ × Option Text)
challenge_of (some (two_factor_challenge user label)) = some (user, label)
challenge_of _ = none

-- `!record || !record.isActive || record.deletedAt || !record.twoFactorEnabled || !record.twoFactorSecret`
abbrev pub secret_of : Option User → Option Text
secret_of none = none
secret_of (some u) =
    if u.is_active && not (is_some u.deleted_at) && u.two_factor_enabled
    then u.two_factor_secret
    else none

-- What `enableTwoFactor` answers with; the URI is put together of the secret and the email.
pub record Setup : Type 0 where
  pub secret : Text
  pub email : Text
  pub backup_codes : List Text

-- Eight codes, each of five bytes.
abbrev pub backup_codes_from : Services → ℕ → List Text
backup_codes_from services n =
    map (λ i. backup_code (services.random_bytes (n + i) 5)) (0 ∷ 1 ∷ 2 ∷ 3 ∷ 4 ∷ 5 ∷ 6 ∷ 7 ∷ [])

abbrev pub switched_off : User → User
switched_off x = record x {
  two_factor_enabled = false;
  two_factor_secret = none;
  two_factor_backup_codes = [];
}

module _ (services : Services) (now : ℕ) where
  abbrev pub answer_login : ℕ → Option Text → Bool → Action Store LoginAnswer
  answer_login user label true = pure (
      two_factor_required (
        services.sign refresh_secret (two_factor_challenge user label) two_factor_challenge_ttl
          now))
  answer_login user label false = do
    tokens ← issue_tokens services now user label
    pure (logged_in tokens)

  unfoldable pub begin_login : ℕ → Option Text → Action Store LoginAnswer
  begin_login user label = do
    found ← gets (find_user user)
    u ← or_throw found failure
    answer_login user label u.two_factor_enabled

  abbrev pub backup_hash : Text → ℕ
  backup_hash code = services.sha256 (lower (trim code))

  abbrev pub has_code : ℕ → Option User → Bool
  has_code hash none = false
  has_code hash (some u) = any (λ c. c == hash) u.two_factor_backup_codes

  abbrev pub drop_code : ℕ → List ℕ → List ℕ
  drop_code hash codes = find_many (λ c. not (c == hash)) codes

  abbrev pub spend : ℕ → ℕ → Action Store (Unit {0})
  spend user hash =
      update_user user
        (λ u. record u { two_factor_backup_codes = drop_code hash u.two_factor_backup_codes })

  abbrev pub spend_unless : Bool → ℕ → ℕ → Action Store (Unit {0})
  spend_unless true user hash = pure tt
  spend_unless false user hash = spend user hash

  abbrev pub redeem : ℕ × Option Text → Text → Action Store AuthTokens
  redeem (user, label) code = do
    found ← gets (find_user user)
    secret ← or_throw (secret_of found) unauthorized
    valid ← from_result (verify_totp services.hmac secret code now)
    throw_if (not (valid || has_code (backup_hash code) found)) unauthorized
    spend_unless valid user (backup_hash code)
    load_authenticated_user user
    issue_tokens services now user label

  unfoldable pub verify_two_factor : Text → Text → Action Store AuthTokens
  verify_two_factor token code = do
    challenge ← or_throw (challenge_of (services.verify refresh_secret token now)) unauthorized
    redeem challenge code

  abbrev pub setup : ℕ → Text → Setup
  setup i email = record {
    secret = base32_encode (services.random_bytes i 20);
    email = email;
    backup_codes = backup_codes_from services (i + 1);
  }

  abbrev pub write_setup : ℕ → User → User
  write_setup i x = record x {
    two_factor_secret = some (base32_encode (services.random_bytes i 20));
    two_factor_backup_codes =
        map (λ c. services.sha256 (lower c)) (backup_codes_from services (i + 1));
    two_factor_enabled = false;
  }

  unfoldable pub enable_two_factor : ℕ → Action Store Setup
  enable_two_factor user = do
    found ← gets (find_user user)
    u ← or_throw found failure
    i ← gets (λ s. s.next_id)
    modify (λ s. record s { next_id = s.next_id + 9 })
    update_user user (write_setup i)
    pure (setup i u.email)

  unfoldable pub confirm_two_factor : ℕ → Text → Action Store (Unit {0})
  confirm_two_factor user code = do
    found ← gets (find_user user)
    u ← or_throw found failure
    secret ← or_throw u.two_factor_secret unauthorized
    valid ← from_result (verify_totp services.hmac secret code now)
    throw_if (not valid) unauthorized
    update_user user (λ x. record x { two_factor_enabled = true })
    modify (record_audit (two_factor_was_enabled user))

  unfoldable pub disable_two_factor : ℕ → Text → Action Store (Unit {0})
  disable_two_factor user password = do
    found ← gets (find_user user)
    u ← or_throw found failure
    throw_if (not (services.verify_password u.password_hash password)) unauthorized
    update_user user switched_off
    modify (record_audit (two_factor_was_disabled user))
