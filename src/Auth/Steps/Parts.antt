-- ===== src/Auth/Steps/Parts.antt =====
-- What a step of apps/api/src/modules/auth/auth.service.ts keeps true of the refresh tokens.
use muhammad_tours_and_trave.Prelude.{
  ℕ, ◌≡◌, ◌≤◌, refl, failure, Bool, Option, some, modify, Keeps, bind-Keeps, or_throw-Keeps,
  gets-Keeps, pure-Keeps, modify-Keeps, arith,
}
use muhammad_tours_and_trave.Auth.Text.{Text}
use muhammad_tours_and_trave.Auth.Model.{
  User, RefreshToken, Store, Services, AuditEntry, find_user, update_user, write_user, record_audit,
}
use muhammad_tours_and_trave.Auth.Tokens.{
  load_authenticated_user, authenticated, issued_pair, add_refresh_token, revoke_where, new_token,
  create_token, issue_tokens,
}

-- A property of the refresh tokens: what a step has to keep so that every request keeps it.
pub record IsKept (services : Services) (I : Store → Type 0) : Type 0 where
  pub other :
      (s s' : Store) → s'.refresh_tokens ≡ s.refresh_tokens → s.next_id ≤ s'.next_id → I s → I s'
  pub revoked : (p : RefreshToken → Bool) (now : ℕ) (s : Store) → I s → I (revoke_where p now s)
  pub issued :
      (now user : ℕ) (label : Option Text) (s : Store)
      → I s
      → I (add_refresh_token (new_token services now user label s.next_id) s)

module _ (services : Services) (I : Store → Type 0) (law : IsKept services I) where
  pub kept :
      {f : Store → Store}
      → ((s : Store) → (f s).refresh_tokens ≡ s.refresh_tokens)
      → ((s : Store) → s.next_id ≤ (f s).next_id)
      → Keeps I (modify f)
  kept {f} same grows = modify-Keeps I (λ s h. law.other s (f s) (same s) (grows s) h)

  pub update_user-Keeps : (i : ℕ) (f : User → User) → Keeps I (update_user i f)
  update_user-Keeps i f = bind-Keeps I (gets-Keeps I {f = find_user i}) (λ found.
      bind-Keeps I (or_throw-Keeps I found failure)
        (λ u. kept {f = write_user i f} (λ s. refl) (λ s. omega arith)))

  pub load-Keeps : (i : ℕ) → Keeps I (load_authenticated_user i)
  unfolding load_authenticated_user
  load-Keeps i = bind-Keeps I (gets-Keeps I {f = find_user i}) (λ found.
      bind-Keeps I (or_throw-Keeps I found failure)
        (λ u. gets-Keeps I {f = λ s. authenticated s u}))

  create_token-Keeps :
      (now user : ℕ) (label : Option Text) → Keeps I (create_token services now user label)
  create_token-Keeps now user label = record { kept = λ s h. law.issued now user label s h }

  pub issue_tokens-Keeps :
      (now user : ℕ) (label : Option Text) → Keeps I (issue_tokens services now user label)
  unfolding issue_tokens
  issue_tokens-Keeps now user label = bind-Keeps I (create_token-Keeps now user label) (λ i.
      bind-Keeps I (update_user-Keeps user (λ u. record u { last_login_at = some now }))
        (λ u. pure-Keeps I {a = issued_pair services now user i}))

  pub revoke-Keeps : (p : RefreshToken → Bool) (now : ℕ) → Keeps I (modify (revoke_where p now))
  revoke-Keeps p now = modify-Keeps I (λ s h. law.revoked p now s h)

  pub audit-Keeps : (entry : AuditEntry) → Keeps I (modify (record_audit entry))
  audit-Keeps entry = kept {f = record_audit entry} (λ s. refl) (λ s. omega arith)
