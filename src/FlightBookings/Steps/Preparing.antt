-- ===== src/FlightBookings/Steps/Preparing.antt =====
-- What the checks of `createBooking` before the row keep true:
-- apps/api/src/modules/bookings/bookings.service.ts.
use muhammad_tours_and_trave.Prelude.{
  ℕ, ℤ, ltb, ltb_ℤ, Bool, true, false, not, Option, none, some, conflict, forbidden, not_found,
  price_changed, failure, pure, if◌then◌else◌, Keeps, bind-Keeps, throw_if-Keeps, or_throw-Keeps,
  from_result-Keeps, gets-Keeps, pure-Keeps,
}
use muhammad_tours_and_trave.Access.{AuthenticatedUser, UserProfile, Actor, resolve_actor}
use muhammad_tours_and_trave.Wallet.Model.{find_agency}
use muhammad_tours_and_trave.TravelPolicy.Model.{find_employee}
use muhammad_tours_and_trave.TravelPolicy.Evaluate.{evaluate, resolve_cost_center}
use muhammad_tours_and_trave.FlightBookings.Model.{
  CreateBookingDto, FlightSupplierAdapter, reprice, FlightOffer, Store, Services, find_offer,
}
use muhammad_tours_and_trave.FlightBookings.Pricing.{
  count_passengers, needs_consent, previous_total, new_total, final_total, quote, is_active,
  available, assert_agency_can_pay, no_outcome, evaluation_input, policy_for, if_employee,
  check_policy, is_corporate,
}
use muhammad_tours_and_trave.FlightBookings.Create.{prepare}
use muhammad_tours_and_trave.FlightBookings.Steps.Parts.{IsStepwise, ask-Keeps, travel-Keeps}

module _ (I : Store → Type 0) {services : Services} (k : IsStepwise I services) where
  quote-Keeps :
      (adapter : FlightSupplierAdapter) (o : FlightOffer) (dto : CreateBookingDto)
      → Keeps I (quote adapter o dto)
  unfolding quote
  quote-Keeps adapter o dto =
      bind-Keeps I
        (ask-Keeps I k adapter.reprice_flight
          (reprice o.supplier_offer_id (count_passengers dto.passengers)))
        (λ r. bind-Keeps I (throw_if-Keeps I (not r.still_available) conflict) (λ u.
          bind-Keeps I
            (throw_if-Keeps I (needs_consent o dto r)
              (price_changed (previous_total o) (new_total o r) o.currency))
            (λ v. pure-Keeps I {a = (final_total o r, r.price_changed)})))

  agency-Keeps : (agency : Option ℕ) (total : ℤ) → Keeps I (assert_agency_can_pay agency total)
  unfolding assert_agency_can_pay
  agency-Keeps none total = pure-Keeps I
  agency-Keeps (some agency) total = bind-Keeps I (k.opened agency) (λ w.
      bind-Keeps I (gets-Keeps I {f = λ s. find_agency agency s.wallet}) (λ found.
        bind-Keeps I (or_throw-Keeps I found failure) (λ a.
          bind-Keeps I (throw_if-Keeps I (not (is_active a.status)) forbidden)
            (λ u. throw_if-Keeps I (ltb_ℤ (available w a) total) conflict))))

  module _ (o : FlightOffer) (total : ℤ) (requested : Option ℕ) where
    policy_for-Keeps : (employee : ℕ) → Keeps I (policy_for services o employee total requested)
    policy_for-Keeps employee =
        bind-Keeps I (gets-Keeps I {f = λ s. find_employee employee s.travel}) (λ found.
          bind-Keeps I (or_throw-Keeps I found failure) (λ e.
            bind-Keeps I
              (travel-Keeps I k (
                evaluate services.fx services.upper services.now e.corporate_id
                  (evaluation_input services o total e)))
              (λ evaluation. bind-Keeps I (throw_if-Keeps I evaluation.blocked conflict) (λ u.
                bind-Keeps I (travel-Keeps I k (resolve_cost_center employee requested)) (λ center.
                  pure-Keeps I
                    {a = record { evaluation = some evaluation; cost_center_id = center }})))))

    if_employee-Keeps :
        (employee : Option ℕ) → Keeps I (if_employee services o employee total requested)
    if_employee-Keeps none = pure-Keeps I
    if_employee-Keeps (some employee) = policy_for-Keeps employee

    check_policy-Keeps : (actor : Actor) → Keeps I (check_policy services o actor total requested)
    unfolding check_policy
    check_policy-Keeps actor = go (is_corporate o.search_channel)
      where
        go :
            (c : Bool)
            → Keeps I (
                if c
                then if_employee services o actor.employee_id total requested
                else pure no_outcome)
        go true = if_employee-Keeps actor.employee_id
        go false = pure-Keeps I

  module _ (user : AuthenticatedUser) (dto : CreateBookingDto) (key : ℕ) where
    pub prepare-Keeps :
        (profile : Option UserProfile) → Keeps I (prepare services user dto key profile)
    unfolding prepare
    prepare-Keeps profile = bind-Keeps I (gets-Keeps I {f = find_offer dto.offer_id}) (λ found.
        bind-Keeps I (or_throw-Keeps I found not_found) (λ offer.
          bind-Keeps I (throw_if-Keeps I (ltb offer.search_expires_at services.now) conflict) (λ u.
            bind-Keeps I (from_result-Keeps I (resolve_actor forbidden profile)) (λ actor.
              bind-Keeps I (or_throw-Keeps I (services.adapter_of offer.supplier_code) conflict)
                (λ adapter. bind-Keeps I (quote-Keeps adapter offer dto) (λ (total, changed).
                  bind-Keeps I (agency-Keeps actor.agency_id total) (λ v.
                    bind-Keeps I (check_policy-Keeps offer total dto.cost_center_id actor)
                      (λ policy.
                        pure-Keeps I
                          {a = record {
                            offer = offer;
                            adapter = adapter;
                            actor = actor;
                            total = total;
                            price_changed_ = changed;
                            policy = policy;
                          }}))))))))
