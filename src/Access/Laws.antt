-- ===== src/Access/Laws.antt =====
-- Whom the guard of apps/api/src/common/guards/permissions.guard.ts lets through.
use muhammad_tours_and_trave.Prelude.{
  ◌≡◌, ◌↔◌, refl, Bool, true, Bool-cases, inl, inr, some, none, List, [], ◌∷◌, all, All, ok, arith,
}
use muhammad_tours_and_trave.Roles.{Permission, super_admin, includes, default_role_permissions}
use muhammad_tours_and_trave.Roles.Laws.{super_admin-all}
use muhammad_tours_and_trave.Access.{AuthenticatedUser, can_activate}

all-All :
    (held : Permission → Bool) (ps : List Permission)
    → (all held ps ≡ true) ↔ All (λ p. held p ≡ true) ps
all-All held [] = ((λ e. tt), (λ h. refl))
all-All held (p ∷ ps) = elim (Bool-cases (held p)) [
  | inl granted ↦ (
    (λ e. (granted, (all-All held ps).0 (ground (arith, granted)))),
    (λ h. ground (arith, granted, (all-All held ps).1 h.1)),
  )
  | inr refused ↦ ((λ e. cc (refused, e)), (λ h. cc (refused, h.0)))
]

can_activate-all :
    (ps : List Permission) (user : AuthenticatedUser)
    → (can_activate (some ps) (some user) ≡ ok tt) ↔ (all (includes user.permissions) ps ≡ true)
unfolding can_activate
can_activate-all [] user = ((λ e. refl), (λ e. refl))
can_activate-all (p ∷ ps) user = elim (Bool-cases (all (includes user.permissions) (p ∷ ps))) [
  | inl granted ↦ ((λ e. granted), (λ e. rw e refl))
  | inr refused ↦ ((λ e. ground (arith, refused)), (λ e. cc (refused, e)))
]

-- The guard lets a user through exactly if he holds every permission that the endpoint requires.
pub can_activate_iff :
    (required : List Permission) (user : AuthenticatedUser)
    → (can_activate (some required) (some user) ≡ ok tt)
      ↔ All (λ p. includes user.permissions p ≡ true) required
can_activate_iff required user =
    let (a, b) = can_activate-all required user in
    let (c, d) = all-All (includes user.permissions) required in ((λ e. c (a e)), (λ h. b (d h)))

-- A request without a user passes only where nothing is required.
pub can_activate_anonymous :
    (required : List Permission) → (can_activate (some required) none ≡ ok tt) ↔ (required ≡ [])
unfolding can_activate
can_activate_anonymous [] = ((λ e. refl), (λ e. refl))
can_activate_anonymous (p ∷ ps) = ((λ e. cc), (λ e. cc))

-- A super administrator with the permissions of the seed passes the guard of every endpoint.
super_admin_passes :
    (required : List Permission) (user : AuthenticatedUser)
    → user.permissions ≡ default_role_permissions super_admin
    → can_activate (some required) (some user) ≡ ok tt
super_admin_passes required user e = (can_activate_iff required user).1 (go required)
  where
    go : (ps : List Permission) → All (λ p. includes user.permissions p ≡ true) ps
    go [] = tt
    go (p ∷ ps) = (rw e (super_admin-all p), go ps)
