-- ===== src/Rbac/Laws.antt =====
-- The role SUPER_ADMIN stays whole, and nobody drops it himself.
use muhammad_tours_and_trave.Prelude.{
  ℕ, ◌≡◌, ◌≢◌, refl, sym, ◌∙◌, subst, ap, Bool, true, false, not, ◌&&◌, if◌then◌else◌, none, some,
  some_eq, inl, inr, Bool-cases, Option-cases, List, [], ◌∷◌, ok, err, forbidden, not_found, arith,
  ◌==◌, ==_iff, any, find_many, find?, Keeps, bind-Keeps, throw_if-Keeps, or_throw-Keeps,
  gets-Keeps, modify-Keeps,
}
use muhammad_tours_and_trave.Rbac.{
  RoleRow, PermissionRow, AuditEntry, role_assigned, role_revoked, permission_granted,
  permission_revoked, Store, super_admin_name, find_user, find_role, find_role_by_name,
  find_permission, has_role, has_permission, upsert_user_role, delete_user_role,
  upsert_role_permission, delete_role_permission, record_audit, is_own_super_admin, assign_role,
  revoke_role, grant_permission, revoke_permission, Request, assigns, revokes, grants, withdraws,
  handle, handle_all,
}

any-cons : {A : Type 0} (p : A → Bool) (x : A) (l : List A) → any p l ≡ true → any p (x ∷ l) ≡ true
any-cons p x l h = ground arith

-- Deleting rows by one condition keeps the rows of another that excludes it.
pub any-find_many :
    {A : Type 0} (p q : A → Bool) (l : List A)
    → ((x : A) → p x ≡ true → q x ≡ true)
    → any p l ≡ true
    → any p (find_many q l) ≡ true
any-find_many p q [] f h = cc
any-find_many p q (x ∷ l) f h = ground (arith, f x, any-find_many p q l f)

module _ (i p : ℕ) where
  -- The role with the id is SUPER_ADMIN and holds the permission.
  abbrev pub IsWhole : Store → Type 0
  IsWhole s =
      (r : RoleRow) × (find_role i s ≡ some r)
      × (r.name ≡ super_admin_name)
      × (has_permission i p s.role_permissions ≡ true)

  -- The grants of that permission are all that it rests on.
  same-IsWhole :
      (s s' : Store)
      → s'.roles ≡ s.roles
      → (has_permission i p s.role_permissions ≡ true
          → has_permission i p s'.role_permissions ≡ true)
      → IsWhole s
      → IsWhole s'
  same-IsWhole s s' same keep (r, found, named, held) =
      (r, subst (λ l. find? (λ x. x.id == i) l ≡ some r) (sym same) found, named, keep held)

  upsert-IsWhole : (r q : ℕ) (s : Store) → IsWhole s → IsWhole (upsert_role_permission r q s)
  upsert-IsWhole r q s h = go (has_permission r q s.role_permissions)
    where
      more : Store
      more = record s {
        role_permissions = record { role_id = r; permission_id = q } ∷ s.role_permissions;
      }

      go : (c : Bool) → IsWhole (if c then s else more)
      go true = h
      go false =
          same-IsWhole s more refl
            (any-cons (λ x. (x.role_id == i) && (x.permission_id == p)) _ s.role_permissions) h

  delete-IsWhole :
      (r q : ℕ) (s : Store) → r ≢ i → IsWhole s → IsWhole (delete_role_permission r q s)
  delete-IsWhole r q s ne = same-IsWhole s (delete_role_permission r q s) refl (
      any-find_many (λ x. (x.role_id == i) && (x.permission_id == p))
        (λ x. not ((x.role_id == r) && (x.permission_id == q))) s.role_permissions
        (λ x hit. ground arith))

  audit-IsWhole : (a : AuditEntry) (s : Store) → IsWhole s → IsWhole (record_audit a s)
  audit-IsWhole a s = same-IsWhole s (record_audit a s) refl (λ e. e)

  upsert_user-IsWhole : (u r : ℕ) (s : Store) → IsWhole s → IsWhole (upsert_user_role u r s)
  upsert_user-IsWhole u r s h = go (has_role u r s.user_roles)
    where
      more : Store
      more = record s { user_roles = record { user_id = u; role_id = r } ∷ s.user_roles }

      go : (c : Bool) → IsWhole (if c then s else more)
      go true = h
      go false = same-IsWhole s more refl (λ e. e) h

  delete_user-IsWhole : (u r : ℕ) (s : Store) → IsWhole s → IsWhole (delete_user_role u r s)
  delete_user-IsWhole u r s = same-IsWhole s (delete_user_role u r s) refl (λ e. e)

  assign_role-Keeps : (by target name : ℕ) → Keeps IsWhole (assign_role by target name)
  unfolding assign_role
  assign_role-Keeps by target name =
      let I = IsWhole in
      bind-Keeps I (gets-Keeps I {f = find_user target}) (λ user.
        bind-Keeps I (gets-Keeps I {f = find_role_by_name name}) (λ role.
          bind-Keeps I (or_throw-Keeps I user not_found) (λ u.
            bind-Keeps I (or_throw-Keeps I role not_found) (λ r.
              bind-Keeps I (throw_if-Keeps I (is_own_super_admin by target name) forbidden) (λ v.
                bind-Keeps I
                  (modify-Keeps I {f = upsert_user_role target r.id}
                    (upsert_user-IsWhole target r.id))
                  (λ w.
                    modify-Keeps I {f = record_audit (role_assigned by target name)}
                      (audit-IsWhole (role_assigned by target name))))))))

  revoke_role-Keeps : (by target name : ℕ) → Keeps IsWhole (revoke_role by target name)
  unfolding revoke_role
  revoke_role-Keeps by target name =
      let I = IsWhole in
      bind-Keeps I (gets-Keeps I {f = find_role_by_name name}) (λ role.
        bind-Keeps I (or_throw-Keeps I role not_found) (λ r.
          bind-Keeps I (throw_if-Keeps I (is_own_super_admin by target name) forbidden) (λ v.
            bind-Keeps I
              (modify-Keeps I {f = delete_user_role target r.id} (delete_user-IsWhole target r.id))
              (λ w.
                modify-Keeps I {f = record_audit (role_revoked by target name)}
                  (audit-IsWhole (role_revoked by target name))))))

  grant_permission-Keeps : (by r q : ℕ) → Keeps IsWhole (grant_permission by r q)
  unfolding grant_permission
  grant_permission-Keeps by r q =
      let I = IsWhole in
      bind-Keeps I (gets-Keeps I {f = find_role r}) (λ role.
        bind-Keeps I (gets-Keeps I {f = find_permission q}) (λ permission.
          bind-Keeps I (or_throw-Keeps I role not_found) (λ u.
            bind-Keeps I (or_throw-Keeps I permission not_found) (λ v.
              bind-Keeps I (modify-Keeps I {f = upsert_role_permission r q} (upsert-IsWhole r q))
                (λ w.
                  modify-Keeps I {f = record_audit (permission_granted by r q)}
                    (audit-IsWhole (permission_granted by r q)))))))

  module _ (by r q : ℕ) (s : Store) where
    revoke_missing : find_role r s ≡ none → revoke_permission by r q s ≡ (err not_found, s)
    unfolding revoke_permission
    revoke_missing e = rw e refl

    module _ {role : RoleRow} (found : find_role r s ≡ some role) where
      revoke_unknown : find_permission q s ≡ none → revoke_permission by r q s ≡ (err not_found, s)
      unfolding revoke_permission
      revoke_unknown e = simp (found, e)

      revoke_refused :
          {x : PermissionRow}
          → find_permission q s ≡ some x
          → role.name ≡ super_admin_name
          → revoke_permission by r q s ≡ (err forbidden, s)
      unfolding revoke_permission
      revoke_refused e named = simp (found, e, named)

      revoke_done :
          {x : PermissionRow}
          → find_permission q s ≡ some x
          → (role.name == super_admin_name) ≡ false
          → revoke_permission by r q s
            ≡ (ok tt, record_audit (permission_revoked by r q) (delete_role_permission r q s))
      unfolding revoke_permission
      revoke_done e named = simp (found, e, named)

    revoke_permission-kept : IsWhole s → IsWhole (revoke_permission by r q s).1
    revoke_permission-kept h = elim (Option-cases (find_role r s)) [
      | inl missing ↦ rw (revoke_missing missing) h
      | inr (role, found) ↦ elim (Option-cases (find_permission q s)) [
        | inl unknown ↦ rw (revoke_unknown found unknown) h
        | inr (x, known) ↦ elim (Bool-cases (role.name == super_admin_name)) [
          | inl named ↦
              rw (revoke_refused found known ((==_iff role.name super_admin_name).0 named)) h
          | inr other ↦
              let (mine, found', named, held) = h in
              let apart : r ≢ i = λ same.
                let the_role : role ≡ mine =
                  some_eq (sym found ∙ ap (λ j. find_role j s) same ∙ found') in
                ground (arith, other, the_role, named) in
              rw (revoke_done found known other) (
                audit-IsWhole (permission_revoked by r q) (delete_role_permission r q s)
                  (delete-IsWhole r q s apart h))
        ]
      ]
    ]

  handle-Keeps : (q : Request) → Keeps IsWhole (handle q)
  handle-Keeps (assigns by target name) = assign_role-Keeps by target name
  handle-Keeps (revokes by target name) = revoke_role-Keeps by target name
  handle-Keeps (grants by r q) = grant_permission-Keeps by r q
  handle-Keeps (withdraws by r q) = record { kept = revoke_permission-kept by r q }

  -- What SUPER_ADMIN may do once, it may do after any sequence of requests by anybody.
  pub handle_all-IsWhole : (qs : List Request) (s : Store) → IsWhole s → IsWhole (handle_all qs s)
  handle_all-IsWhole [] s h = h
  handle_all-IsWhole (q ∷ qs) s h = handle_all-IsWhole qs (handle q s).1 ((handle-Keeps q).kept s h)
