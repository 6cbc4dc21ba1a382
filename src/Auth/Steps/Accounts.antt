-- ===== src/Auth/Steps/Accounts.antt =====
-- What registrations and resets keep true of the refresh tokens:
-- apps/api/src/modules/auth/auth.service.ts.
use muhammad_tours_and_trave.Prelude.{
  ℕ, refl, unauthorized, conflict, ◌+◌, ◌==◌, Bool, true, false, if◌then◌else◌, Option, none, some,
  is_some, find?, pure, modify, Keeps, bind-Keeps, throw_if-Keeps, or_throw-Keeps, gets-Keeps,
  pure-Keeps, transaction-Keeps, arith,
}
use muhammad_tours_and_trave.Rbac.{RoleRow}
use muhammad_tours_and_trave.Auth.Text.{Text, lower}
use muhammad_tours_and_trave.Auth.Model.{
  User, PasswordResetToken, Store, Services, AccountType, b2c_customer_account, b2b_agent_account,
  find_user_by_email, user_registered, password_reset_requested, password_reset_completed,
}
use muhammad_tours_and_trave.Auth.Tokens.{is_live}
use muhammad_tours_and_trave.Auth.Accounts.{
  RegisterInput, role_name, create_user, give_role, add_profile, register, sign_up, is_open,
  add_reset, use_reset, send_reset, request_password_reset, change_password, reset_password,
  is_usable,
}
use muhammad_tours_and_trave.Auth.Steps.Parts.{IsKept}
use muhammad_tours_and_trave.Auth.Steps.Parts.{
  kept, update_user-Keeps, load-Keeps, revoke-Keeps, audit-Keeps,
}

module _ (services : Services) (I : Store → Type 0) (law : IsKept services I) where
  module _ (now : ℕ) where
    create_user-Keeps : (input : RegisterInput) → Keeps I (create_user services input)
    create_user-Keeps input = record { kept = λ s h. law.other s _ refl (omega arith) h }

    give_role-Keeps : (i : ℕ) (r : Option RoleRow) → Keeps I (modify (give_role i r))
    give_role-Keeps i none =
        kept services I law {f = give_role i none} (λ s. refl) (λ s. omega arith)
    give_role-Keeps i (some r) =
        kept services I law {f = give_role i (some r)} (λ s. refl) (λ s. omega arith)

    add_profile-Keeps :
        (t : AccountType) (name : Text) (i : ℕ) → Keeps I (modify (add_profile t name i))
    add_profile-Keeps b2c_customer_account name i =
        kept services I law {f = add_profile b2c_customer_account name i} (λ s. refl)
          (λ s. omega arith)
    add_profile-Keeps b2b_agent_account name i =
        kept services I law {f = add_profile b2b_agent_account name i} (λ s. refl)
          (λ s. omega arith)

    sign_up-Keeps : (input : RegisterInput) → Keeps I (sign_up services input)
    sign_up-Keeps input = transaction-Keeps I (
        bind-Keeps I (create_user-Keeps input) (λ i.
          bind-Keeps I
            (gets-Keeps I {f = λ s. find? (λ r. r.name == role_name input.account_type) s.roles})
            (λ role. bind-Keeps I (give_role-Keeps i role) (λ v.
              bind-Keeps I (add_profile-Keeps input.account_type input.full_name i)
                (λ w. pure-Keeps I {a = i})))))

    pub register-Keeps : (input : RegisterInput) → Keeps I (register services input)
    unfolding register
    register-Keeps input =
        bind-Keeps I (gets-Keeps I {f = find_user_by_email (lower input.email)}) (λ existing.
          bind-Keeps I (throw_if-Keeps I (is_some existing) conflict) (λ u.
            bind-Keeps I (sign_up-Keeps input) (λ i.
              bind-Keeps I (audit-Keeps services I law (user_registered i input.account_type))
                (λ v. load-Keeps services I law i))))

    send_reset-Keeps : (found : Option User) → Keeps I (send_reset services now found)
    send_reset-Keeps none = pure-Keeps I
    send_reset-Keeps (some u) =
        bind-Keeps I
          (kept services I law {f = add_reset services now u} (λ s. refl) (λ s. omega arith))
          (λ v. audit-Keeps services I law (password_reset_requested u.id))

    reset_if-Keeps :
        (usable : Bool) (found : Option User)
        → Keeps I (if usable then send_reset services now found else pure tt)
    reset_if-Keeps true found = send_reset-Keeps found
    reset_if-Keeps false found = pure-Keeps I

    pub request_reset-Keeps : (email : Text) → Keeps I (request_password_reset services now email)
    unfolding request_password_reset
    request_reset-Keeps email =
        bind-Keeps I (gets-Keeps I {f = find_user_by_email (lower email)})
          (λ found. reset_if-Keeps (is_open found) found)

    change_password-Keeps :
        (password : Text) (draw : ℕ) (r : PasswordResetToken)
        → Keeps I (change_password services now password draw r)
    change_password-Keeps password draw r = transaction-Keeps I (
        bind-Keeps I
          (update_user-Keeps services I law r.user_id
            (λ u. record u { password_hash = services.hash_password draw password }))
          (λ u.
            bind-Keeps I
              (kept services I law {f = use_reset services now r.id} (λ s. refl) (λ s. omega arith))
              (λ v. revoke-Keeps services I law (is_live (λ t. t.user_id == r.user_id)) now)))

    pub reset_password-Keeps :
        (token password : Text) → Keeps I (reset_password services now token password)
    unfolding reset_password
    reset_password-Keeps token password =
        bind-Keeps I
          (gets-Keeps I
            {f = λ s. find? (is_usable services now (services.sha256 token)) s.reset_tokens})
          (λ found. bind-Keeps I (or_throw-Keeps I found unauthorized) (λ r.
            bind-Keeps I (gets-Keeps I {f = λ s. s.next_id}) (λ draw.
              bind-Keeps I
                (kept services I law {f = λ s. record s { next_id = s.next_id + 1 }} (λ s. refl)
                  (λ s. omega arith))
                (λ u.
                  bind-Keeps I (change_password-Keeps password draw r)
                    (λ v. audit-Keeps services I law (password_reset_completed r.user_id))))))
