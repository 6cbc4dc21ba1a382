-- ===== src/Rbac/Own.antt =====
-- Nobody drops his own SUPER_ADMIN: `revokeRole` of apps/api/src/modules/rbac/rbac.service.ts.
use muhammad_tours_and_trave.Prelude.{
  ℕ, ◌≡◌, ◌≢◌, refl, sym, ◌∙◌, ap, true, false, not, ◌&&◌, none, some, some_eq, inl, inr,
  Bool-cases, Option-cases, ok, err, forbidden, not_found, arith, ◌==◌, ==_iff, find?-holds, All,
  All-find?,
}
use muhammad_tours_and_trave.Rbac.{
  RoleRow, role_revoked, Store, super_admin_name, find_role, find_role_by_name, has_role,
  delete_user_role, record_audit, is_own_super_admin, revoke_role,
}
use muhammad_tours_and_trave.Rbac.Laws.{any-find_many}

-- The primary key of the roles: each is the one that its id finds.
abbrev pub IsKeyed : Store → Type 0
IsKeyed s = All (λ r. find_role r.id s ≡ some r) s.roles

module _ (u target name : ℕ) (s : Store) where
  revoke_role_unknown :
      find_role_by_name name s ≡ none → revoke_role u target name s ≡ (err not_found, s)
  unfolding revoke_role
  revoke_role_unknown e = rw e refl

  module _ {x : RoleRow} (found : find_role_by_name name s ≡ some x) where
    revoke_role_own :
        is_own_super_admin u target name ≡ true → revoke_role u target name s ≡ (err forbidden, s)
    unfolding revoke_role
    revoke_role_own e = rw (found, e) refl

    revoke_role_done :
        is_own_super_admin u target name ≡ false
        → revoke_role u target name s
          ≡ (ok tt, record_audit (role_revoked u target name) (delete_user_role target x.id s))
    unfolding revoke_role
    revoke_role_done e = rw (found, e) refl

  module _ {r : RoleRow} (i : ℕ) where
    -- The rows that are deleted are not those of the user's own SUPER_ADMIN.
    apart :
        {x : RoleRow}
        → IsKeyed s
        → find_role i s ≡ some r
        → r.name ≡ super_admin_name
        → find_role_by_name name s ≡ some x
        → is_own_super_admin u target name ≡ false
        → u ≡ target
        → i ≢ x.id
    apart {x} keyed role super found other me same =
        let named : x.name ≡ name =
          (==_iff x.name name).0 (find?-holds (λ y. y.name == name) s.roles found) in
        let by_id : find_role x.id s ≡ some x =
          All-find? _ (λ y. y.name == name) s.roles keyed found in
        let the_role : r ≡ x = some_eq (sym role ∙ ap (λ j. find_role j s) same ∙ by_id) in
        let super_name : name ≡ super_admin_name =
          sym named ∙ sym (ap (λ y. y.name) the_role) ∙ super in
        ground (arith, other, super_name, me)

    -- Whoever holds SUPER_ADMIN still holds it after any revocation that he asks for himself.
    revoke_role-own :
        IsKeyed s
        → find_role i s ≡ some r
        → r.name ≡ super_admin_name
        → has_role u i s.user_roles ≡ true
        → has_role u i (revoke_role u target name s).1.user_roles ≡ true
    revoke_role-own keyed role super held = elim (Option-cases (find_role_by_name name s)) [
      | inl unknown ↦ rw (revoke_role_unknown unknown) held
      | inr (x, found) ↦ elim (Bool-cases (is_own_super_admin u target name)) [
        | inl own ↦ rw (revoke_role_own found own) held
        | inr other ↦ rw (revoke_role_done found other) (
            any-find_many (λ y. (y.user_id == u) && (y.role_id == i))
              (λ y. not ((y.user_id == target) && (y.role_id == x.id))) s.user_roles
              (λ y hit. ground (arith, apart keyed role super found other)) held)
      ]
    ]
