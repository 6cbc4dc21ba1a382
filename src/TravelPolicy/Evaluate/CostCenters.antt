-- ===== src/TravelPolicy/Evaluate/CostCenters.antt =====
-- Which cost centre a booking is charged to:
-- `resolveCostCenter` of apps/api/src/modules/travel-policy/travel-policy.service.ts.
use muhammad_tours_and_trave.Prelude.{
  ℕ, ◌≡◌, refl, ◌==◌, ==_iff, ◌⊎◌, true, false, Bool-cases, Option-cases, inl, inr, none, some, ok,
  err, bad_request, find?-holds, arith,
}
use muhammad_tours_and_trave.TravelPolicy.Model.{
  Employee, CostCenter, Store, find_employee, find_cost_center,
}
use muhammad_tours_and_trave.TravelPolicy.Evaluate.{is_foreign, resolve_cost_center}

-- An active cost centre of the employee's company.
abbrev pub IsUsable : Employee → ℕ → Store → Type 0
IsUsable e i s =
    (c : CostCenter) × (find_cost_center i s ≡ some c)
    × (c.corporate_id ≡ e.corporate_id)
    × (c.active ≡ true)

module _ (employee i : ℕ) (s : Store) {e : Employee}
    (found : find_employee employee s ≡ some e) where
  resolve_missing :
      find_cost_center i s ≡ none → resolve_cost_center employee (some i) s ≡ (err bad_request, s)
  unfolding resolve_cost_center
  resolve_missing missing = simp (found, missing)

  module _ {c : CostCenter} (center : find_cost_center i s ≡ some c) where
    resolve_foreign :
        is_foreign e (some c) ≡ true
        → resolve_cost_center employee (some i) s ≡ (err bad_request, s)
    unfolding resolve_cost_center
    resolve_foreign foreign = simp (found, center, foreign)

    resolve_usable :
        is_foreign e (some c) ≡ false
        → resolve_cost_center employee (some i) s ≡ (ok (some c.id), s)
    unfolding resolve_cost_center
    resolve_usable usable = simp (found, center, usable)

    same_center : c.id ≡ i
    same_center = (==_iff c.id i).0 (find?-holds (λ x. x.id == i) s.cost_centers center)

  -- Either the cost centre that is asked for is an active one of the employee's company, and it
  -- is charged, or it is not, and the booking is refused; neither writes anything.
  pub resolve_cost_center-Usable :
      (IsUsable e i s × (resolve_cost_center employee (some i) s ≡ (ok (some i), s)))
      ⊎ ((IsUsable e i s → ⊥) × (resolve_cost_center employee (some i) s ≡ (err bad_request, s)))
  resolve_cost_center-Usable = elim (Option-cases (find_cost_center i s)) [
    | inl missing ↦ inr ((λ u. cc (u.1)), resolve_missing missing)
    | inr (c, center) ↦ elim (Bool-cases (is_foreign e (some c))) [
      | inl foreign ↦ inr (
        (λ (d, u, own, on). let same : d ≡ c = cc in ground (arith, foreign, same)),
        resolve_foreign center foreign,
      )
      | inr usable ↦ inl (
        (c, center, ground (arith, usable), ground (arith, usable)),
        rw (resolve_usable center usable) (rw (same_center center) refl),
      )
    ]
  ]
