-- ===== src/Auth/SignUp.antt =====
-- What a registration gives: `register` of apps/api/src/modules/auth/auth.service.ts.
use muhammad_tours_and_trave.Prelude.{
  ℕ, ◌+◌, ◌≡◌, refl, ap, ◌∙◌, ◌==◌, ==_iff, ==_refl, inl, inr, Option-cases, Option, none, some,
  List, ◌∷◌, find?, find?-holds, Result, ok, err, conflict,
}
use muhammad_tours_and_trave.Rbac.{RoleRow, UserRole}
use muhammad_tours_and_trave.Auth.Text.{Text, lower}
use muhammad_tours_and_trave.Auth.Model.{
  User, AccountType, b2c_customer_account, b2b_agent_account, Store, Services, AuthenticatedUser,
  find_user, find_user_by_email, record_audit, user_registered,
}
use muhammad_tours_and_trave.Auth.Tokens.{load_authenticated_user, authenticated}
use muhammad_tours_and_trave.Auth.Accounts.{
  RegisterInput, b2c_customer_name, b2b_agency_admin_name, role_name, new_user, give_role,
  add_profile, register,
}

module _ (services : Services) (input : RegisterInput) (s : Store) where
  abbrev email : Text
  email = lower input.email

  abbrev role : Option RoleRow
  role = find? (λ r. r.name == role_name input.account_type) s.roles

  abbrev user : User
  user = new_user services input s.next_id

  abbrev created : Store
  created = record s { users = user ∷ s.users; next_id = s.next_id + 1 }

  abbrev signed_up : Store
  signed_up =
      record_audit (user_registered s.next_id input.account_type) (
        add_profile input.account_type input.full_name s.next_id (give_role s.next_id role created))

  register_taken :
      {u : User}
      → find_user_by_email email s ≡ some u
      → register services input s ≡ (err conflict, s)
  unfolding register
  register_taken e = rw e refl

  users_after :
      (t : AccountType) (r : Option RoleRow)
      → (add_profile t input.full_name s.next_id (give_role s.next_id r created)).users
        ≡ user ∷ s.users
  users_after b2c_customer_account none = refl
  users_after b2c_customer_account (some r) = refl
  users_after b2b_agent_account none = refl
  users_after b2b_agent_account (some r) = refl

  found_after : find_user s.next_id signed_up ≡ some user
  found_after =
      ap (find? (λ u. u.id == s.next_id)) (users_after input.account_type role)
      ∙ rw (==_refl s.next_id) refl

  register_new :
      find_user_by_email email s ≡ none
      → register services input s ≡ (ok (authenticated signed_up user), signed_up)
  unfolding register load_authenticated_user
  register_new e = rw (e, found_after) refl

  -- A customer's account gets the role of a customer and no other, an agency's that of its
  -- administrator.
  abbrev pub IsFor : AccountType → ℕ → Type 0
  IsFor b2c_customer_account name = name ≡ b2c_customer_name
  IsFor b2b_agent_account name = name ≡ b2b_agency_admin_name

  role_name-IsFor : (t : AccountType) (name : ℕ) → name ≡ role_name t → IsFor t name
  role_name-IsFor b2c_customer_account name e = e
  role_name-IsFor b2b_agent_account name e = e

  -- The roles of the new account: at most the one for its kind, of that name.
  pub data IsGranted (rows : List UserRole) : Type 0 where
    nothing : rows ≡ s.user_roles → IsGranted rows
    one :
        (r : RoleRow)
        → IsFor input.account_type r.name
        → rows ≡ record { user_id = s.next_id; role_id = r.id } ∷ s.user_roles
        → IsGranted rows

  roles_after :
      (t : AccountType) (r : Option RoleRow)
      → (add_profile t input.full_name s.next_id (give_role s.next_id r created)).user_roles
        ≡ (give_role s.next_id r created).user_roles
  roles_after b2c_customer_account r = refl
  roles_after b2b_agent_account r = refl

  signed_up-IsGranted : IsGranted signed_up.user_roles
  signed_up-IsGranted = elim (Option-cases role) [
    | inl unknown ↦ nothing (
        roles_after input.account_type role
        ∙ ap (λ r. (give_role s.next_id r created).user_roles) unknown)
    | inr (r, known) ↦
        one r
          (role_name-IsFor input.account_type r.name (
            (==_iff r.name (role_name input.account_type)).0
              (find?-holds (λ x. x.name == role_name input.account_type) s.roles known)))
          (roles_after input.account_type role
            ∙ ap (λ x. (give_role s.next_id x created).user_roles) known)
  ]

  -- How a registration ends.
  pub data Outcome (x : Result AuthenticatedUser × Store) : Type 0 where
    taken : (u : User) → find_user_by_email email s ≡ some u → x ≡ (err conflict, s) → Outcome x
    registered :
        (a : AuthenticatedUser) (s' : Store)
        → x ≡ (ok a, s')
        → find_user_by_email email s ≡ none
        → s'.users ≡ user ∷ s.users
        → IsGranted s'.user_roles
        → Outcome x

  -- A registration under an email that is in use, in whatever case it is written, throws and
  -- changes nothing; any other returns, with one account more, which has no more than the one role
  -- of a customer or of the administrator of a new agency, while nobody else's roles change.
  pub register-Outcome : Outcome (register services input s)
  register-Outcome = elim (Option-cases (find_user_by_email email s)) [
    | inr (u, e) ↦ taken u e (register_taken e)
    | inl free ↦
        registered (authenticated signed_up user) signed_up (register_new free) free
          (users_after input.account_type role) signed_up-IsGranted
  ]
