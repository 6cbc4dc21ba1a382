-- ===== src/Auth/Reset.antt =====
-- What a reset of a password ends: `resetPassword` of apps/api/src/modules/auth/auth.service.ts.
use muhammad_tours_and_trave.Prelude.{
  ℕ, ◌<◌, find?-holds, ◌+◌, ◌≡◌, refl, ap, ◌==◌, Bool-cases, Option-cases, inl, inr, Option, none,
  some, List, [], ◌∷◌, find?, find_many, update_where, find?-update_where, Result, ok, err, Error,
  unauthorized, failure, arith,
}
use muhammad_tours_and_trave.Auth.Text.{Text}
use muhammad_tours_and_trave.Auth.Model.{
  User, RefreshToken, PasswordResetToken, Store, Services, session, refresh_secret, find_user,
  write_user, record_audit, password_reset_completed,
}
use muhammad_tours_and_trave.Auth.Tokens.{
  is_live, revoke_where, has_hash, refresh, is_session, list_sessions,
}
use muhammad_tours_and_trave.Auth.Accounts.{is_usable, use_reset, reset_password}

-- No row of the user is live.
module _ (user now : ℕ) where
  abbrev revoked : List RefreshToken → List RefreshToken
  revoked ts =
      update_where (is_live (λ t. t.user_id == user)) (λ t. record t { revoked_at = some now }) ts

  no_session :
      (later : ℕ) (ts : List RefreshToken) → find_many (is_session user later) (revoked ts) ≡ []
  no_session later [] = refl
  no_session later (t ∷ ts) = elim (Bool-cases (is_live (λ x. x.user_id == user) t)) [
    | inl hit ↦ ground (arith, hit, no_session later ts)
    | inr miss ↦ ground (arith, miss, no_session later ts)
  ]

  none_live :
      (hash : ℕ) (ts : List RefreshToken) → find? (is_live (has_hash user hash)) (revoked ts) ≡ none
  none_live hash [] = refl
  none_live hash (t ∷ ts) = elim (Bool-cases (is_live (λ x. x.user_id == user) t)) [
    | inl hit ↦ ground (arith, hit, none_live hash ts)
    | inr miss ↦ ground (arith, miss, none_live hash ts)
  ]

module _ (services : Services) (now : ℕ) (token password : Text) where
  abbrev usable : Store → Option PasswordResetToken
  usable s = find? (is_usable services now (services.sha256 token)) s.reset_tokens

  abbrev changed : ℕ → User → User
  changed draw u = record u { password_hash = services.hash_password draw password }

  -- The tables after a reset that returns.
  abbrev reset_store : PasswordResetToken → Store → Store
  reset_store r s =
      let s1 = record s { next_id = s.next_id + 1 } in
      let s2 = write_user r.user_id (changed s.next_id) s1 in
      record_audit (password_reset_completed r.user_id)
        (revoke_where (is_live (λ t. t.user_id == r.user_id)) now (use_reset services now r.id s2))

  -- Nothing is left of what the user was signed in by, and the password is the new one.
  pub record IsReset (r : PasswordResetToken) (s : Store) : Type 0 where
    pub signed_out : (later : ℕ) → list_sessions later r.user_id s ≡ (ok [], s)
    pub refused :
        (other jti : Text) (later : ℕ)
        → services.verify refresh_secret other later ≡ some (session r.user_id jti)
        → refresh services later other s ≡ (err unauthorized, s)
    pub account : User
    pub found : find_user r.user_id s ≡ some account
    pub draw : ℕ
    pub renewed : account.password_hash ≡ services.hash_password draw password

  -- The link was sent out, it has not been used, and it has not expired.
  pub record IsInForce (r : PasswordResetToken) : Type 0 where
    pub sent : r.token_hash ≡ services.sha256 token
    pub unused : r.used_at ≡ none
    pub in_time : now < r.expires_at

  usable-IsInForce : {r : PasswordResetToken} (s : Store) → usable s ≡ some r → IsInForce r
  usable-IsInForce {r} s found =
      let hit = find?-holds (is_usable services now (services.sha256 token)) s.reset_tokens found in
      record {
        sent = ground (arith, hit);
        unused = elim (Option-cases r.used_at) [
          | inl e ↦ e
          | inr (t, e) ↦ absurd (ground (arith, hit, e))
        ];
        in_time = ground (arith, hit);
      }

  module _ (s : Store) where
    reset_unusable :
        usable s ≡ none → reset_password services now token password s ≡ (err unauthorized, s)
    unfolding reset_password
    reset_unusable e = rw e refl

    module _ {r : PasswordResetToken} (found : usable s ≡ some r) where
      reset_orphan :
          find_user r.user_id s ≡ none
          → reset_password services now token password s
            ≡ (err failure, record s { next_id = s.next_id + 1 })
      unfolding reset_password
      reset_orphan e = rw (found, e) refl

      reset_done :
          {u : User}
          → find_user r.user_id s ≡ some u
          → reset_password services now token password s ≡ (ok tt, reset_store r s)
      unfolding reset_password
      reset_done e = rw (found, e) refl

      reset_store-IsReset :
          {u : User} → find_user r.user_id s ≡ some u → IsReset r (reset_store r s)
      unfolding list_sessions refresh
      reset_store-IsReset {u} e = record {
        signed_out = λ later.
            ap (λ ts. (ok ts, reset_store r s)) (no_session r.user_id now later s.refresh_tokens);
        refused = λ other jti later valid.
            rw (valid, none_live r.user_id now (services.sha256 jti) s.refresh_tokens) refl;
        account = changed s.next_id u;
        found =
            find?-update_where (λ x. x.id == r.user_id) (changed s.next_id) s.users (λ x. refl) e;
        draw = s.next_id;
        renewed = refl;
      }

  -- A reset either throws, and then not a row has changed; or it returns, and then the link was one
  -- that was sent out, not yet used and not yet expired, the user has the new password, no session
  -- of his is left and no refresh token of his is good any more.
  pub data Outcome (s : Store) (x : Result (Unit {0}) × Store) : Type 0 where
    reset :
        (r : PasswordResetToken) (s' : Store)
        → x ≡ (ok tt, s')
        → usable s ≡ some r
        → IsInForce r
        → IsReset r s'
        → Outcome s x
    refused : (e : Error) (n : ℕ) → x ≡ (err e, record s { next_id = n }) → Outcome s x

  pub reset_password-Outcome :
      (s : Store) → Outcome s (reset_password services now token password s)
  reset_password-Outcome s = elim (Option-cases (usable s)) [
    | inl missing ↦ refused unauthorized s.next_id (reset_unusable s missing)
    | inr (r, found) ↦ elim (Option-cases (find_user r.user_id s)) [
      | inl orphan ↦ refused failure (s.next_id + 1) (reset_orphan s found orphan)
      | inr (u, e) ↦
          reset r (reset_store r s) (reset_done s found e) found (usable-IsInForce s found)
            (reset_store-IsReset s found e)
    ]
  ]
