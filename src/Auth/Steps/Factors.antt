-- ===== src/Auth/Steps/Factors.antt =====
-- What the second factor keeps true of the refresh tokens:
-- apps/api/src/modules/auth/auth.service.ts.
use muhammad_tours_and_trave.Prelude.{
  ℕ, refl, unauthorized, failure, ◌+◌, or_throw, from_result, Bool, true, false, not, ◌||◌, Option,
  Action, ◌>>=◌, Keeps, bind-Keeps, throw_if-Keeps, or_throw-Keeps, from_result-Keeps, gets-Keeps,
  pure-Keeps, arith,
}
use muhammad_tours_and_trave.Auth.Text.{Text}
use muhammad_tours_and_trave.Auth.Totp.{verify_totp}
use muhammad_tours_and_trave.Auth.Model.{
  Store, Services, refresh_secret, find_user, two_factor_was_enabled, two_factor_was_disabled,
}
use muhammad_tours_and_trave.Auth.TwoFactor.{
  logged_in, drop_code, redeem, write_setup, setup, switched_off, challenge_of, secret_of, has_code,
  backup_hash, answer_login, begin_login, spend_unless, verify_two_factor, enable_two_factor,
  confirm_two_factor, disable_two_factor,
}
use muhammad_tours_and_trave.Auth.Steps.Parts.{IsKept}
use muhammad_tours_and_trave.Auth.Steps.Parts.{
  kept, update_user-Keeps, load-Keeps, issue_tokens-Keeps, audit-Keeps,
}

module _ (services : Services) (I : Store → Type 0) (law : IsKept services I) where
  module _ (now : ℕ) where
    answer_login-Keeps :
        (user : ℕ) (label : Option Text) (enabled : Bool)
        → Keeps I (answer_login services now user label enabled)
    answer_login-Keeps user label true = record { kept = λ s h. h }
    answer_login-Keeps user label false =
        bind-Keeps I (issue_tokens-Keeps services I law now user label)
          (λ tokens. pure-Keeps I {a = logged_in tokens})

    pub begin_login-Keeps :
        (user : ℕ) (label : Option Text) → Keeps I (begin_login services now user label)
    unfolding begin_login
    begin_login-Keeps user label = bind-Keeps I (gets-Keeps I {f = find_user user}) (λ found.
        bind-Keeps I (or_throw-Keeps I found failure)
          (λ u. answer_login-Keeps user label u.two_factor_enabled))

    spend_unless-Keeps :
        (valid : Bool) (user hash : ℕ) → Keeps I (spend_unless services now valid user hash)
    spend_unless-Keeps true user hash = pure-Keeps I
    spend_unless-Keeps false user hash = update_user-Keeps services I law user (λ u. record u {
      two_factor_backup_codes = drop_code services now hash u.two_factor_backup_codes;
    })

    valid-Keeps :
        (secret : Option Text) (code : Text)
        → {A : Type 0} → {m : Bool → Action Store A} → ((valid : Bool) → Keeps I (m valid))
        → Keeps I (
            or_throw secret unauthorized >>= λ t.
            from_result (verify_totp services.hmac t code now) >>= m)
    valid-Keeps secret code k =
        bind-Keeps I (or_throw-Keeps I secret unauthorized)
          (λ t. bind-Keeps I (from_result-Keeps I (verify_totp services.hmac t code now)) k)

    redeem-Keeps : (c : ℕ × Option Text) (code : Text) → Keeps I (redeem services now c code)
    redeem-Keeps (user, label) code = bind-Keeps I (gets-Keeps I {f = find_user user}) (λ found.
        valid-Keeps (secret_of found) code (λ valid.
          bind-Keeps I
            (throw_if-Keeps I
              (not (valid || has_code services now (backup_hash services now code) found))
              unauthorized)
            (λ u. bind-Keeps I (spend_unless-Keeps valid user (backup_hash services now code)) (λ v.
              bind-Keeps I (load-Keeps services I law user)
                (λ w. issue_tokens-Keeps services I law now user label)))))

    pub verify_two_factor-Keeps :
        (token code : Text) → Keeps I (verify_two_factor services now token code)
    unfolding verify_two_factor
    verify_two_factor-Keeps token code =
        bind-Keeps I
          (or_throw-Keeps I (challenge_of (services.verify refresh_secret token now)) unauthorized)
          (λ c. redeem-Keeps c code)

    pub enable_two_factor-Keeps : (user : ℕ) → Keeps I (enable_two_factor services now user)
    unfolding enable_two_factor
    enable_two_factor-Keeps user = bind-Keeps I (gets-Keeps I {f = find_user user}) (λ found.
        bind-Keeps I (or_throw-Keeps I found failure) (λ u.
          bind-Keeps I (gets-Keeps I {f = λ s. s.next_id}) (λ i.
            bind-Keeps I
              (kept services I law {f = λ s. record s { next_id = s.next_id + 9 }} (λ s. refl)
                (λ s. omega arith))
              (λ v.
                bind-Keeps I (update_user-Keeps services I law user (write_setup services now i))
                  (λ w. pure-Keeps I {a = setup services now i u.email})))))

    pub confirm_two_factor-Keeps :
        (user : ℕ) (code : Text) → Keeps I (confirm_two_factor services now user code)
    unfolding confirm_two_factor
    confirm_two_factor-Keeps user code = bind-Keeps I (gets-Keeps I {f = find_user user}) (λ found.
        bind-Keeps I (or_throw-Keeps I found failure) (λ u.
          valid-Keeps u.two_factor_secret code (λ valid.
            bind-Keeps I (throw_if-Keeps I (not valid) unauthorized) (λ v.
              bind-Keeps I
                (update_user-Keeps services I law user
                  (λ x. record x { two_factor_enabled = true }))
                (λ w. audit-Keeps services I law (two_factor_was_enabled user))))))

    pub disable_two_factor-Keeps :
        (user : ℕ) (password : Text) → Keeps I (disable_two_factor services now user password)
    unfolding disable_two_factor
    disable_two_factor-Keeps user password =
        bind-Keeps I (gets-Keeps I {f = find_user user}) (λ found.
          bind-Keeps I (or_throw-Keeps I found failure) (λ u.
            bind-Keeps I
              (throw_if-Keeps I (not (services.verify_password u.password_hash password))
                unauthorized)
              (λ v.
                bind-Keeps I (update_user-Keeps services I law user switched_off)
                  (λ w. audit-Keeps services I law (two_factor_was_disabled user)))))
