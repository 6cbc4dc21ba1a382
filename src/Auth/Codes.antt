-- ===== src/Auth/Codes.antt =====
-- A backup code lets in once: `verifyTwoFactorAndIssueTokens` of
-- apps/api/src/modules/auth/auth.service.ts.
use muhammad_tours_and_trave.Prelude.{
  ℕ, ◌≡◌, refl, sym, ◌∙◌, ap, subst, ◌==◌, true, false, Bool-cases, Option-cases, inl, inr, Option,
  none, some, List, [], ◌∷◌, any, find?-update_where, ok, err, err-ok, unauthorized, arith,
}
use muhammad_tours_and_trave.Auth.Text.{Text}
use muhammad_tours_and_trave.Auth.Totp.{verify_totp}
use muhammad_tours_and_trave.Auth.Model.{
  User, Store, Services, two_factor_challenge, refresh_secret, AuthTokens, find_user, write_user,
}
use muhammad_tours_and_trave.Auth.Tokens.{
  load_authenticated_user, add_refresh_token, new_token, issued_pair, issue_tokens,
}
use muhammad_tours_and_trave.Auth.TwoFactor.{
  secret_of, has_code, backup_hash, drop_code, redeem, verify_two_factor,
}

-- A code that was taken off the list is not on it.
any-drop_code :
    (services : Services) (now hash : ℕ) (codes : List ℕ)
    → any (λ c. c == hash) (drop_code services now hash codes) ≡ false
any-drop_code services now hash [] = refl
any-drop_code services now hash (c ∷ codes) = elim (Bool-cases (c == hash)) [
  | inl hit ↦ ground (arith, hit, any-drop_code services now hash codes)
  | inr miss ↦ ground (arith, miss, any-drop_code services now hash codes)
]

module _ (services : Services) (user : ℕ) (code : Text) where
  -- The code is none of the authenticator's at that time, for whatever secret the account has.
  abbrev pub IsNoTotp : ℕ → Store → Type 0
  IsNoTotp now s =
      (secret : Text)
      → secret_of (find_user user s) ≡ some secret
      → verify_totp services.hmac secret code now ≡ ok false

  module _ (now : ℕ) (label : Option Text) where
    abbrev spent : User → User
    spent u = record u {
      two_factor_backup_codes =
          drop_code services now (backup_hash services now code) u.two_factor_backup_codes;
    }

    abbrev logged : User → User
    logged u = record u { last_login_at = some now }

    abbrev redeemed : Store → Store
    redeemed s =
        let s1 = write_user user spent s in
        write_user user logged (add_refresh_token (new_token services now user label s1.next_id) s1)

    module _ (s : Store) where
      redeem_unknown :
          secret_of (find_user user s) ≡ none
          → redeem services now (user, label) code s ≡ (err unauthorized, s)
      redeem_unknown e = rw e refl

      module _ {secret : Text} (known : secret_of (find_user user s) ≡ some secret)
          (no_totp : verify_totp services.hmac secret code now ≡ ok false) where
        redeem_wrong :
            has_code services now (backup_hash services now code) (find_user user s) ≡ false
            → redeem services now (user, label) code s ≡ (err unauthorized, s)
        redeem_wrong e = rw (known, no_totp, e) refl

        redeem_right :
            {u : User}
            → find_user user s ≡ some u
            → has_code services now (backup_hash services now code) (find_user user s) ≡ true
            → redeem services now (user, label) code s
              ≡ (ok (issued_pair services now user s.next_id), redeemed s)
        unfolding load_authenticated_user issue_tokens
        redeem_right {u} found e =
            let found1 : find_user user (write_user user spent s) ≡ some (spent u) =
              find?-update_where (λ x. x.id == user) spent s.users (λ x. refl) found in
            rw (known, no_totp, e, found, found1, found1) refl

        -- The code is off the list afterwards.
        found_after :
            {u : User}
            → find_user user s ≡ some u
            → find_user user (redeemed s) ≡ some (logged (spent u))
        found_after {u} found =
            find?-update_where (λ x. x.id == user) logged (write_user user spent s).users
              (λ x. refl) (find?-update_where (λ x. x.id == user) spent s.users (λ x. refl) found)

        -- Where the redemption returns, the code was on the list, and it no longer is.
        redeem-Spent :
            {tokens : AuthTokens} {s' : Store}
            → redeem services now (user, label) code s ≡ (ok tokens, s')
            → (later : ℕ)
            → has_code services later (backup_hash services later code) (find_user user s') ≡ false
        redeem-Spent {tokens} {s'} e later = elim (Option-cases (find_user user s)) [
          | inl missing ↦
              absurd (err-ok (ap (λ r. r.0) (sym (redeem_unknown (rw missing refl)) ∙ e)))
          | inr (u, found) ↦
              elim (Bool-cases
                (has_code services now (backup_hash services now code) (find_user user s))) [
                  | inr off ↦ absurd (err-ok (ap (λ r. r.0) (sym (redeem_wrong off) ∙ e)))
                  | inl on ↦
                      let at : redeemed s ≡ s' = ap (λ r. r.1) (sym (redeem_right found on) ∙ e) in
                      subst
                        (λ x.
                          has_code services later (backup_hash services later code)
                            (find_user user x)
                          ≡ false)
                        at
                        (rw (found_after found) (
                          any-drop_code services now (backup_hash services now code)
                            u.two_factor_backup_codes))
                ]
        ]

  -- A backup code that has let a user in does not let him in again, at whatever time and by
  -- whatever challenge, unless it happens to be a code of his authenticator.
  pub verify_two_factor_once :
      (s : Store) (now later : ℕ) (token other : Text) (label label' : Option Text)
      {tokens : AuthTokens} {s' : Store}
      → services.verify refresh_secret token now ≡ some (two_factor_challenge user label)
      → services.verify refresh_secret other later ≡ some (two_factor_challenge user label')
      → IsNoTotp now s
      → IsNoTotp later s'
      → verify_two_factor services now token code s ≡ (ok tokens, s')
      → verify_two_factor services later other code s' ≡ (err unauthorized, s')
  unfolding verify_two_factor
  verify_two_factor_once s now later token other label label' {tokens} {s'} valid valid' no_totp
        no_totp' e =
      let e1 : redeem services now (user, label) code s ≡ (ok tokens, s') =
        sym (rw valid refl) ∙ e in
      rw valid' (elim (Option-cases (secret_of (find_user user s))) [
        | inl unknown ↦
            absurd (err-ok (ap (λ r. r.0) (sym (redeem_unknown now label s unknown) ∙ e1)))
        | inr (secret, known) ↦ elim (Option-cases (secret_of (find_user user s'))) [
          | inl unknown ↦ redeem_unknown later label' s' unknown
          | inr (secret', known') ↦
              redeem_wrong later label' s' known' (no_totp' secret' known')
                (redeem-Spent now label s known (no_totp secret known) e1 later)
        ]
      ])
