-- ===== src/Auth/Tokens.antt =====
-- The tokens of apps/api/src/modules/auth/auth.service.ts: issued, rotated and revoked, and the
-- check of an access token in strategies/jwt.strategy.ts.
use muhammad_tours_and_trave.Prelude.{
  ℕ, ◌+◌, ◌*◌, ◌==◌, ltb, Bool, not, ◌&&◌, if◌then◌else◌, Option, none, some, List, [], ◌∷◌, ◌++◌,
  map, any, is_some, find?, find_many, update_where, Action, unauthorized, not_found, failure,
  ◌>>=◌, ◌>>◌, pure, gets, modify, throw, throw_if, or_throw,
}
use muhammad_tours_and_trave.Rbac.{RoleRow, PermissionRow, UserRole, RolePermission}
use muhammad_tours_and_trave.Auth.Text.{Text, parse_duration_to_seconds}
use muhammad_tours_and_trave.Auth.Model.{
  User, RefreshToken, Store, Services, Payload, access, session, two_factor_challenge,
  access_secret, refresh_secret, AuthTokens, AuthenticatedUser, find_user, update_user, token_value,
}

-- `new Set(...)`: each name once.
abbrev add_new : List ℕ → List ℕ → List ℕ
add_new seen [] = []
add_new seen (n ∷ ns) =
    let rest = add_new seen ns in
    let more = n ∷ add_new (n ∷ seen) ns in if any (λ m. m == n) seen then rest else more

abbrev pub distinct : List ℕ → List ℕ
distinct = add_new []

abbrev roles_of : ℕ → Store → List RoleRow
roles_of user s =
    find_many (λ r. any (λ (x : UserRole). (x.user_id == user) && (x.role_id == r.id)) s.user_roles)
      s.roles

abbrev granted : Store → RoleRow → PermissionRow → Bool
granted s r p =
    any (λ (g : RolePermission). (g.role_id == r.id) && (g.permission_id == p.id))
      s.role_permissions

abbrev permissions_of : Store → List RoleRow → List ℕ
permissions_of s [] = []
permissions_of s (r ∷ rs) =
    map (λ (p : PermissionRow). p.name) (find_many (granted s r) s.permissions)
    ++ permissions_of s rs

abbrev pub authenticated : Store → User → AuthenticatedUser
authenticated s u =
    let roles = roles_of u.id s in
    record {
      id = u.id;
      email = u.email;
      full_name = u.full_name;
      roles = map (λ (r : RoleRow). r.name) roles;
      permissions = distinct (permissions_of s roles);
    }

unfoldable pub load_authenticated_user : ℕ → Action Store AuthenticatedUser
load_authenticated_user i = do
  found ← gets (find_user i)
  u ← or_throw found failure
  gets (λ s. authenticated s u)

-- `JwtStrategy.validate`
unfoldable pub validate : ℕ → Action Store AuthenticatedUser
validate sub = do
  found ← gets (λ s. find? (λ u. (u.id == sub) && not (is_some u.deleted_at)) s.users)
  u ← or_throw found unauthorized
  throw_if (not u.is_active) unauthorized
  gets (λ s. authenticated s u)

abbrev pub add_refresh_token : RefreshToken → Store → Store
add_refresh_token t s = record s { refresh_tokens = t ∷ s.refresh_tokens; next_id = s.next_id + 1 }

-- `refreshToken.updateMany` on the rows that are not revoked yet
abbrev pub is_live : (RefreshToken → Bool) → RefreshToken → Bool
is_live p t = p t && not (is_some t.revoked_at)

abbrev pub revoke_where : (RefreshToken → Bool) → ℕ → Store → Store
revoke_where p now s = record s {
  refresh_tokens = update_where p (λ t. record t { revoked_at = some now }) s.refresh_tokens;
}

abbrev pub has_hash : ℕ → ℕ → RefreshToken → Bool
has_hash user hash t = (t.user_id == user) && (t.token_hash == hash)

abbrev pub find_live : ℕ → ℕ → Store → Option RefreshToken
find_live user hash s = find? (is_live (has_hash user hash)) s.refresh_tokens

module _ (services : Services) (now : ℕ) where
  abbrev access_seconds : ℕ
  access_seconds = parse_duration_to_seconds services.access_ttl

  abbrev refresh_seconds : ℕ
  refresh_seconds = parse_duration_to_seconds services.refresh_ttl

  abbrev pub new_token : ℕ → Option Text → ℕ → RefreshToken
  new_token user label i = record {
    id = i;
    user_id = user;
    token_hash = services.sha256 (token_value services i);
    device_label = label;
    issued_at = now;
    expires_at = now + refresh_seconds * 1000;
    revoked_at = none;
  }

  abbrev pub issued_pair : ℕ → ℕ → AuthTokens
  issued_pair user i = record {
    access_token = services.sign access_secret (access user) services.access_ttl now;
    refresh_token =
        services.sign refresh_secret (session user (token_value services i)) services.refresh_ttl
          now;
    expires_in = access_seconds;
  }

  -- `refreshToken.create`
  abbrev pub create_token : ℕ → Option Text → Action Store ℕ
  create_token user label s = pure s.next_id (add_refresh_token (new_token user label s.next_id) s)

  unfoldable pub issue_tokens : ℕ → Option Text → Action Store AuthTokens
  issue_tokens user label = do
    i ← create_token user label
    update_user user (λ u. record u { last_login_at = some now })
    pure (issued_pair user i)

  abbrev pub rotate : ℕ → RefreshToken → Action Store AuthTokens
  rotate user stored = do
    throw_if (ltb stored.expires_at now) unauthorized
    modify (revoke_where (λ t. t.id == stored.id) now)
    load_authenticated_user user
    issue_tokens user stored.device_label

  -- A payload without a `jti` makes the hash throw.
  abbrev pub refresh_by : Option Payload → Action Store AuthTokens
  refresh_by none = throw unauthorized
  refresh_by (some (access user)) = throw failure
  refresh_by (some (two_factor_challenge user label)) = throw failure
  refresh_by (some (session user jti)) = do
    found ← gets (find_live user (services.sha256 jti))
    stored ← or_throw found unauthorized
    rotate user stored

  unfoldable pub refresh : Text → Action Store AuthTokens
  refresh token = refresh_by (services.verify refresh_secret token now)

  -- Whatever throws is caught.
  abbrev pub logout_by : ℕ → Option Payload → Action Store (Unit {0})
  logout_by user (some (session sub jti)) =
      modify (revoke_where (is_live (has_hash user (services.sha256 jti))) now)
  logout_by user _ = pure tt

  unfoldable pub logout : ℕ → Text → Action Store (Unit {0})
  logout user token = logout_by user (services.verify refresh_secret token now)

abbrev pub is_session : ℕ → ℕ → RefreshToken → Bool
is_session user now t = is_live (λ x. x.user_id == user) t && ltb now t.expires_at

-- The latest first, as the rows are.
unfoldable pub list_sessions : ℕ → ℕ → Action Store (List RefreshToken)
list_sessions now user = gets (λ s. find_many (is_session user now) s.refresh_tokens)

abbrev pub is_own_session : ℕ → ℕ → RefreshToken → Bool
is_own_session user i t = (t.id == i) && (t.user_id == user)

unfoldable pub revoke_session : ℕ → ℕ → ℕ → Action Store (Unit {0})
revoke_session now user i = do
  found ← gets (λ s. any (is_live (is_own_session user i)) s.refresh_tokens)
  modify (revoke_where (is_live (is_own_session user i)) now)
  throw_if (not found) not_found
