-- ===== src/Auth/SignIn.antt =====
-- Who is let in by a password: `validateCredentials` of apps/api/src/modules/auth/auth.service.ts and
-- LocalStrategy over it.
use muhammad_tours_and_trave.Prelude.{
  ◌≡◌, refl, sym, ◌∙◌, subst, some_eq, true, false, Bool-cases, true-false, Option-cases, inl, inr,
  none, some, All, All-find?, Result, ok, err, unauthorized, arith,
}
use muhammad_tours_and_trave.Auth.Text.{Text, lower, same_text}
use muhammad_tours_and_trave.Auth.Model.{
  User, Store, Services, AuthenticatedUser, find_user, find_user_by_email,
}
use muhammad_tours_and_trave.Auth.Tokens.{load_authenticated_user, authenticated}
use muhammad_tours_and_trave.Auth.Accounts.{is_open, validate_credentials, local_validate}

-- The primary key of the accounts: each is the one that its id finds.
abbrev pub IsKeyed : Store → Type 0
IsKeyed s = All (λ u. find_user u.id s ≡ some u) s.users

module _ (services : Services) (email password : Text) (s : Store) where
  -- The account is active, was not deleted, and has the password.
  pub record Admits (u : User) : Type 0 where
    pub active : u.is_active ≡ true
    pub kept : u.deleted_at ≡ none
    pub verified : services.verify_password u.password_hash password ≡ true

  pub data Outcome (x : Result AuthenticatedUser × Store) : Type 0 where
    signed_in :
        (u : User)
        → find_user_by_email (lower email) s ≡ some u
        → Admits u
        → x ≡ (ok (authenticated s u), s)
        → Outcome x
    refused :
        ((u : User) → find_user_by_email (lower email) s ≡ some u → Admits u → ⊥)
        → x ≡ (err unauthorized, s)
        → Outcome x

  validate_unknown :
      find_user_by_email (lower email) s ≡ none
      → local_validate services email password s ≡ (err unauthorized, s)
  unfolding local_validate validate_credentials
  validate_unknown e = rw e refl

  module _ {u : User} (found : find_user_by_email (lower email) s ≡ some u) where
    validate_closed :
        is_open (some u) ≡ false → local_validate services email password s ≡ (err unauthorized, s)
    unfolding local_validate validate_credentials
    validate_closed e = rw (found, e) refl

    module _ (usable : is_open (some u) ≡ true) where
      validate_wrong :
          services.verify_password u.password_hash password ≡ false
          → local_validate services email password s ≡ (err unauthorized, s)
      unfolding local_validate validate_credentials
      validate_wrong e = rw (found, usable, e) refl

      validate_right :
          services.verify_password u.password_hash password ≡ true
          → find_user u.id s ≡ some u
          → local_validate services email password s ≡ (ok (authenticated s u), s)
      unfolding local_validate validate_credentials load_authenticated_user
      validate_right e keyed = rw (found, usable, e, keyed) refl

  -- Where ids are unique: a user who signs in has an account under the email, in whatever case it
  -- is written, which is active and not deleted and has the password; and everybody else is refused
  -- by one and the same exception, whether or not there is such an account. Nothing is written.
  pub local_validate-Outcome : IsKeyed s → Outcome (local_validate services email password s)
  local_validate-Outcome keyed = elim (Option-cases (find_user_by_email (lower email) s)) [
    | inl missing ↦ refused (λ u e a. cc) (validate_unknown missing)
    | inr (u, found) ↦
        let same =
          All-find? (λ x. find_user x.id s ≡ some x) (λ x. same_text x.email (lower email)) s.users
            keyed found in
        elim (Bool-cases (is_open (some u))) [
          | inr closed ↦
              refused (λ x e a. absurd (true-false (Admits-open u (only u x found e a)) closed))
                (validate_closed found closed)
          | inl usable ↦ elim (Bool-cases (services.verify_password u.password_hash password)) [
            | inr wrong ↦
                refused (λ x e a. absurd (true-false (only u x found e a).verified wrong))
                  (validate_wrong found usable wrong)
            | inl right ↦
                signed_in u found (open-Admits u usable right)
                  (validate_right found usable right same)
          ]
        ]
  ]
    where
      Admits-open : (u : User) → Admits u → is_open (some u) ≡ true
      Admits-open u a = rw (a.active, a.kept) refl

      open-Admits :
          (u : User)
          → is_open (some u) ≡ true
          → services.verify_password u.password_hash password ≡ true
          → Admits u
      open-Admits u usable right = record {
        active = ground (arith, usable);
        kept = elim (Option-cases u.deleted_at) [
          | inl e ↦ e
          | inr (t, e) ↦ absurd (ground (arith, usable, e))
        ];
        verified = right;
      }

      only :
          (u x : User)
          → find_user_by_email (lower email) s ≡ some u
          → find_user_by_email (lower email) s ≡ some x
          → Admits x
          → Admits u
      only u x found e a = subst Admits (some_eq (sym e ∙ found)) a
