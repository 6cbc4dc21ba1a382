-- ===== src/Auth/Steps/Sessions.antt =====
-- What the rotation and the revoking of refresh tokens keep true of them:
-- apps/api/src/modules/auth/auth.service.ts.
use muhammad_tours_and_trave.Prelude.{
  ℕ, ltb, any, unauthorized, not_found, ◌==◌, not, Option, none, some, Keeps, bind-Keeps,
  throw_if-Keeps, or_throw-Keeps, gets-Keeps, pure-Keeps,
}
use muhammad_tours_and_trave.Auth.Text.{Text}
use muhammad_tours_and_trave.Auth.Model.{
  RefreshToken, Store, Services, Payload, access, session, two_factor_challenge, refresh_secret,
}
use muhammad_tours_and_trave.Auth.Tokens.{
  has_hash, is_live, rotate, refresh_by, refresh, logout_by, logout, is_own_session, revoke_session,
  find_live,
}
use muhammad_tours_and_trave.Auth.Steps.Parts.{IsKept}
use muhammad_tours_and_trave.Auth.Steps.Parts.{load-Keeps, issue_tokens-Keeps, revoke-Keeps}

module _ (services : Services) (I : Store → Type 0) (law : IsKept services I) where
  module _ (now : ℕ) where
    rotate-Keeps : (user : ℕ) (stored : RefreshToken) → Keeps I (rotate services now user stored)
    rotate-Keeps user stored =
        bind-Keeps I (throw_if-Keeps I (ltb stored.expires_at now) unauthorized) (λ u.
          bind-Keeps I (revoke-Keeps services I law (λ t. t.id == stored.id) now) (λ v.
            bind-Keeps I (load-Keeps services I law user)
              (λ w. issue_tokens-Keeps services I law now user stored.device_label)))

    refresh_by-Keeps : (p : Option Payload) → Keeps I (refresh_by services now p)
    refresh_by-Keeps none = record { kept = λ s h. h }
    refresh_by-Keeps (some (access user)) = record { kept = λ s h. h }
    refresh_by-Keeps (some (two_factor_challenge user label)) = record { kept = λ s h. h }
    refresh_by-Keeps (some (session user jti)) =
        bind-Keeps I (gets-Keeps I {f = find_live user (services.sha256 jti)})
          (λ found. bind-Keeps I (or_throw-Keeps I found unauthorized) (rotate-Keeps user))

    pub refresh-Keeps : (token : Text) → Keeps I (refresh services now token)
    unfolding refresh
    refresh-Keeps token = refresh_by-Keeps (services.verify refresh_secret token now)

    logout_by-Keeps : (user : ℕ) (p : Option Payload) → Keeps I (logout_by services now user p)
    logout_by-Keeps user none = pure-Keeps I
    logout_by-Keeps user (some (access x)) = pure-Keeps I
    logout_by-Keeps user (some (two_factor_challenge x label)) = pure-Keeps I
    logout_by-Keeps user (some (session x jti)) =
        revoke-Keeps services I law (is_live (has_hash user (services.sha256 jti))) now

    pub logout-Keeps : (user : ℕ) (token : Text) → Keeps I (logout services now user token)
    unfolding logout
    logout-Keeps user token = logout_by-Keeps user (services.verify refresh_secret token now)

    pub revoke_session-Keeps : (user i : ℕ) → Keeps I (revoke_session now user i)
    unfolding revoke_session
    revoke_session-Keeps user i =
        bind-Keeps I
          (gets-Keeps I {f = λ s. any (is_live (is_own_session user i)) s.refresh_tokens})
          (λ found.
            bind-Keeps I (revoke-Keeps services I law (is_live (is_own_session user i)) now)
              (λ u. throw_if-Keeps I (not found) not_found))
