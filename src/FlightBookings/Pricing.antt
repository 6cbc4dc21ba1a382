-- ===== src/FlightBookings/Pricing.antt =====
-- What a flight costs when it is booked, and whether it may be booked at that price: the checks of
-- `createBooking` in apps/api/src/modules/bookings/bookings.service.ts that stand before the row.
use muhammad_tours_and_trave.Prelude.{
  ℕ, ℤ, pos, ◌+ℤ◌, ltb_ℤ, ◌==ℤ◌, round2, round_cents, of_cents, Bool, true, false, not, ◌&&◌,
  if◌then◌else◌, Option, none, some, List, length, find_many, or_else, Action, conflict, forbidden,
  failure, price_changed, ◌>>=◌, ◌>>◌, pure, gets, throw_if, or_throw,
}
use muhammad_tours_and_trave.Access.{Actor}
use muhammad_tours_and_trave.Booking.Model.{Channel, corporate}
use muhammad_tours_and_trave.Wallet.Model.{Agency, AgencyStatus, active, Wallet, find_agency}
use muhammad_tours_and_trave.Wallet.Apply.{get_or_create_wallet}
use muhammad_tours_and_trave.TravelPolicy.Model.{
  PolicyEvaluation, EvaluationInput, Employee, find_employee,
}
use muhammad_tours_and_trave.TravelPolicy.Evaluate.{evaluate, resolve_cost_center}
use muhammad_tours_and_trave.FlightBookings.Model.{
  PassengerType, adult, child, infant, PassengerDto, PassengerCounts, CreateBookingDto,
  FlightSupplierAdapter, reprice, RepriceResult, FlightOffer, Store, Services, on_wallet, on_travel,
}
use muhammad_tours_and_trave.FlightBookings.Suppliers.{ask}

abbrev is_adult : PassengerType → Bool
is_adult adult = true
is_adult _ = false

abbrev is_child : PassengerType → Bool
is_child child = true
is_child _ = false

abbrev is_infant : PassengerType → Bool
is_infant infant = true
is_infant _ = false

unfoldable pub count_passengers : List PassengerDto → PassengerCounts
count_passengers passengers = record {
  adults = length (find_many (λ p. is_adult p.type_) passengers);
  children = length (find_many (λ p. is_child p.type_) passengers);
  infants = length (find_many (λ p. is_infant p.type_) passengers);
}

abbrev pub previous_total : FlightOffer → ℤ
previous_total o = round_cents (o.base_fare +ℤ o.taxes +ℤ o.fees +ℤ o.markup_amount)

abbrev pub new_total : FlightOffer → RepriceResult → ℤ
new_total o r =
    round2 (or_else r.new_total (of_cents (previous_total o)) +ℤ of_cents o.markup_amount)

-- `dto.acceptedTotalFare === newTotal`
abbrev pub is_accepted : Option ℤ → ℤ → Bool
is_accepted none total = false
is_accepted (some accepted) total = accepted ==ℤ of_cents total

abbrev pub final_total : FlightOffer → RepriceResult → ℤ
final_total o r = if r.price_changed then new_total o r else previous_total o

abbrev pub needs_consent : FlightOffer → CreateBookingDto → RepriceResult → Bool
needs_consent o dto r = r.price_changed && not (is_accepted dto.accepted_total_fare (new_total o r))

-- The reprice, with the total that the booking goes by.
unfoldable pub quote :
    FlightSupplierAdapter → FlightOffer → CreateBookingDto → Action Store (ℤ × Bool)
quote adapter o dto = do
  r ← ask adapter.reprice_flight (reprice o.supplier_offer_id (count_passengers dto.passengers))
  throw_if (not r.still_available) conflict
  throw_if (needs_consent o dto r) (price_changed (previous_total o) (new_total o r) o.currency)
  pure (final_total o r, r.price_changed)

abbrev pub is_active : AgencyStatus → Bool
is_active active = true
is_active _ = false

abbrev pub available : Wallet → Agency → ℤ
available w a = w.balance +ℤ (if a.credit_enabled then a.credit_limit else pos 0)

-- `if (actor.agencyId)`: the agency is active and can pay.
unfoldable pub assert_agency_can_pay : Option ℕ → ℤ → Action Store (Unit {0})
assert_agency_can_pay none total = pure tt
assert_agency_can_pay (some agency) total = do
  w ← on_wallet (get_or_create_wallet agency)
  found ← gets (λ s. find_agency agency s.wallet)
  a ← or_throw found failure
  throw_if (not (is_active a.status)) forbidden
  throw_if (ltb_ℤ (available w a) total) conflict

abbrev pub is_corporate : Channel → Bool
is_corporate corporate = true
is_corporate _ = false

-- `policyEvaluation` and `corporateCostCenterId`
pub record PolicyOutcome : Type 0 where
  pub evaluation : Option PolicyEvaluation
  pub cost_center_id : Option ℕ

abbrev pub no_outcome : PolicyOutcome
no_outcome = record { evaluation = none; cost_center_id = none }

module _ (services : Services) (o : FlightOffer) where
  abbrev pub evaluation_input : ℤ → Employee → EvaluationInput
  evaluation_input total e = record {
    cabin = o.cabin;
    total_fare = total;
    currency = o.currency;
    department_id = e.department_id;
  }

  abbrev pub policy_for : ℕ → ℤ → Option ℕ → Action Store PolicyOutcome
  policy_for employee total requested = do
    found ← gets (λ s. find_employee employee s.travel)
    e ← or_throw found failure
    evaluation ←
        on_travel (
          evaluate services.fx services.upper services.now e.corporate_id
            (evaluation_input total e))
    throw_if evaluation.blocked conflict
    center ← on_travel (resolve_cost_center employee requested)
    pure (record { evaluation = some evaluation; cost_center_id = center })

  abbrev pub if_employee : Option ℕ → ℤ → Option ℕ → Action Store PolicyOutcome
  if_employee none total requested = pure no_outcome
  if_employee (some employee) total requested = policy_for employee total requested

  -- `if (offer.search.channel === 'CORPORATE' && actor.employeeId)`
  unfoldable pub check_policy : Actor → ℤ → Option ℕ → Action Store PolicyOutcome
  check_policy actor total requested =
      if is_corporate o.search_channel
      then if_employee actor.employee_id total requested
      else pure no_outcome
