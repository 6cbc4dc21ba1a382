-- ===== src/FlightBookings/Create.antt =====
-- `createBooking` of apps/api/src/modules/bookings/bookings.service.ts.
pub mod Retry
use muhammad_tours_and_trave.Prelude.{
  ℕ, ◌+◌, ◌==◌, ltb, ℤ, of_cents, Bool, true, false, if◌then◌else◌, Option, none, some, List, [],
  ◌∷◌, ◌++◌, any, Result, ok, err, Error, bad_request, unauthorized, conflict, forbidden, not_found,
  insufficient_funds, price_changed, failure, Action, ◌>>=◌, ◌>>◌, pure, throw, gets, modify,
  throw_if, or_throw, from_result, attempt, find?, unique_reference,
}
use muhammad_tours_and_trave.Access.{AuthenticatedUser, UserProfile, Actor, resolve_actor}
use muhammad_tours_and_trave.Booking.Status.{
  searched, price_pending, price_confirmed, booking_pending, confirmed, failed,
}
use muhammad_tours_and_trave.Booking.Model.{Booking}
use muhammad_tours_and_trave.Wallet.Model.{WalletTransaction}
use muhammad_tours_and_trave.Wallet.Bookings.{debit_for_booking}
use muhammad_tours_and_trave.Payments.Charge.{charge_for_booking}
use muhammad_tours_and_trave.TravelPolicy.Model.{PolicyEvaluation, PolicyNote}
use muhammad_tours_and_trave.FlightBookings.Model.{
  PassengerDto, CreateBookingDto, FlightSupplierAdapter, book, CreateBookingStatus,
  booking_confirmed, CreateBookingResult, FlightOffer, Passenger, CorporateApproval, ApprovalStatus,
  pending, approved, ApprovalReason, by_policy, auto_approved, booking_created,
  booking_wallet_debit_failed, approval_requested, approval_auto_approved, booking_confirmed_mail,
  booking_failed_mail, Store, Services, BookingDetail, on_wallet, on_payments, find_offer,
}
use muhammad_tours_and_trave.FlightBookings.Suppliers.{
  ask, record_audit, notify, move, write_supplier_reference,
}
use muhammad_tours_and_trave.FlightBookings.Tickets.{issue_tickets_for_booking}
use muhammad_tours_and_trave.FlightBookings.Reads.{load_booking_detail}
use muhammad_tours_and_trave.FlightBookings.Pricing.{
  quote, assert_agency_can_pay, PolicyOutcome, check_policy, is_corporate,
}

-- The texts of the reasons that the service writes, as numbered texts.
abbrev pub reprice_performed : ℕ
reprice_performed = 0

abbrev pub price_change_accepted : ℕ
price_change_accepted = 1

abbrev pub price_unchanged : ℕ
price_unchanged = 2

abbrev pub supplier_error : ℕ
supplier_error = 3

abbrev pub supplier_declined : ℕ
supplier_declined = 4

-- `booking.findUnique({ where: { idempotencyKey } })`
abbrev pub find_by_key : ℕ → Store → Option Booking
find_by_key key s = find? (λ b. b.idempotency_key == key) s.booking.bookings

abbrev pub has_reference : Store → ℕ → Bool
has_reference s code = any (λ (b : Booking). b.booking_reference == code) s.booking.bookings

-- What a booking is made of.
pub record Order : Type 0 where
  pub offer : FlightOffer
  pub adapter : FlightSupplierAdapter
  pub actor : Actor
  pub total : ℤ
  pub price_changed_ : Bool
  pub policy : PolicyOutcome

abbrev note_of : Option PolicyEvaluation → Option PolicyNote
note_of none = none
note_of (some e) = e.note

-- The row that `booking.create` writes.
abbrev pub new_booking : CreateBookingDto → Order → ℕ → ℕ → ℕ → Booking
new_booking dto order code key i = record {
  id = i;
  booking_reference = code;
  offer_id = order.offer.id;
  channel = order.offer.search_channel;
  customer_id = order.actor.customer_id;
  agent_id = order.actor.agent_id;
  employee_id = order.actor.employee_id;
  cost_center_id = order.policy.cost_center_id;
  policy_violation_note = note_of order.policy.evaluation;
  contact_name = dto.contact_name;
  contact_email = dto.contact_email;
  contact_phone = dto.contact_phone;
  whatsapp_number = dto.whatsapp_number;
  status = searched;
  currency = order.offer.currency;
  total_amount = order.total;
  idempotency_key = key;
  supplier_booking_reference = none;
}

-- The rows of its passengers, under the ids from `i` on.
abbrev pub passenger_rows : ℕ → ℕ → List PassengerDto → List Passenger
passenger_rows i booking_id [] = []
passenger_rows i booking_id (p ∷ ps) =
    record { id = i; booking_id = booking_id; details = p } ∷ passenger_rows (i + 1) booking_id ps

abbrev pub count : List PassengerDto → ℕ
count [] = 0
count (p ∷ ps) = count ps + 1

abbrev pub insert_booking : (ℕ → Booking) → List PassengerDto → Action Store Booking
insert_booking row passengers s = pure (row s.next_id) (record s {
  booking = record s.booking { bookings = row s.next_id ∷ s.booking.bookings };
  passengers = passenger_rows (s.next_id + 1) s.next_id passengers ++ s.passengers;
  next_id = s.next_id + 1 + count passengers;
})

abbrev pub add_approval : (ℕ → CorporateApproval) → Store → Store
add_approval row s = record s { approvals = row s.next_id ∷ s.approvals; next_id = s.next_id + 1 }

-- `googleSheets.recordBooking`
abbrev pub record_in_sheet : Booking → Store → Store
record_in_sheet b s = record s { sheet = b.booking_reference ∷ s.sheet }

module _ (services : Services) (user : AuthenticatedUser) (dto : CreateBookingDto) (key : ℕ) where
  -- Everything that stands before the row.
  unfoldable pub prepare : Option UserProfile → Action Store Order
  prepare profile = do
    found ← gets (find_offer dto.offer_id)
    offer ← or_throw found not_found
    throw_if (ltb offer.search_expires_at services.now) conflict
    actor ← from_result (resolve_actor forbidden profile)
    adapter ← or_throw (services.adapter_of offer.supplier_code) conflict
    (total, changed) ← quote adapter offer dto
    assert_agency_can_pay actor.agency_id total
    policy ← check_policy services offer actor total dto.cost_center_id
    pure (record {
      offer = offer;
      adapter = adapter;
      actor = actor;
      total = total;
      price_changed_ = changed;
      policy = policy;
    })

  module _ (order : Order) (b : Booking) where
    -- `BOOKING_WALLET_DEBIT_FAILED` if the wallet has run short since, and any other error goes on.
    abbrev pub after_debit : Result WalletTransaction → Action Store (Unit {0})
    after_debit (ok t) = pure tt
    after_debit (err (insufficient_funds available requested currency)) =
        modify (record_audit (some user.id) (booking_wallet_debit_failed b.id))
    after_debit (err bad_request) = throw bad_request
    after_debit (err conflict) = throw conflict
    after_debit (err unauthorized) = throw unauthorized
    after_debit (err forbidden) = throw forbidden
    after_debit (err not_found) = throw not_found
    after_debit (err (price_changed old new currency)) = throw (price_changed old new currency)
    after_debit (err failure) = throw failure

    -- The wallet of the agency pays, and else the payment provider.
    abbrev pub pay_from : Option ℕ → Action Store (Unit {0})
    pay_from (some agency) = do
      result ← attempt (
          on_wallet (
            debit_for_booking agency (of_cents order.total) b.id b.booking_reference
              b.booking_reference key))
      after_debit result
    pay_from none = do
      on_payments (
          charge_for_booking services.provider b.id b.booking_reference order.total
            order.offer.currency key dto.payment_method_token)
      pure tt

    unfoldable pub pay : Action Store (Unit {0})
    pay = pay_from order.actor.agency_id

    abbrev pub ticket : ℕ → Action Store (Unit {0})
    ticket reference = issue_tickets_for_booking b.id order.adapter reference (some user.id)

    abbrev reason_of : Option PolicyNote → Option ApprovalReason
    reason_of none = none
    reason_of (some note) = some (by_policy note)

    abbrev pub pending_row : ℕ → Option PolicyNote → ℕ → CorporateApproval
    pending_row employee note i = record {
      id = i;
      booking_id = b.id;
      requested_by_employee_id = employee;
      approver_user_id = none;
      status = pending;
      reason = reason_of note;
      decided_at = none;
    }

    abbrev pub request_approval : ℕ → Option PolicyNote → Action Store (Unit {0})
    request_approval employee note = do
      modify (add_approval (pending_row employee note))
      modify (record_audit (some user.id) (approval_requested b.id))

    abbrev pub approved_row : ℕ → ℕ → CorporateApproval
    approved_row employee i = record {
      id = i;
      booking_id = b.id;
      requested_by_employee_id = employee;
      approver_user_id = none;
      status = approved;
      reason = some auto_approved;
      decided_at = some services.now;
    }

    abbrev pub approve_at_once : ℕ → ℕ → Action Store (Unit {0})
    approve_at_once employee reference = do
      modify (add_approval (approved_row employee))
      modify (record_audit (some user.id) (approval_auto_approved b.id))
      ticket reference

    -- `if (policyEvaluation?.requiresApproval)`
    abbrev pub gate : ℕ → ℕ → Option PolicyEvaluation → Action Store (Unit {0})
    gate employee reference none = approve_at_once employee reference
    gate employee reference (some e) =
        if e.requires_approval
        then request_approval employee e.note
        else approve_at_once employee reference

    -- `if (actor.employeeId)`; where there is none, the error is only logged.
    abbrev pub gate_of : ℕ → Option ℕ → Action Store (Unit {0})
    gate_of reference none = pure tt
    gate_of reference (some employee) = gate employee reference order.policy.evaluation

    unfoldable pub ticket_or_gate : ℕ → Action Store (Unit {0})
    ticket_or_gate reference =
        if is_corporate order.offer.search_channel
        then gate_of reference order.actor.employee_id
        else ticket reference

    unfoldable pub fail : ℕ → Action Store BookingDetail
    fail reason = do
      move b.id failed none (some reason)
      modify (notify (booking_failed_mail b.booking_reference))
      load_booking_detail b.id

    unfoldable pub settle : ℕ → Action Store BookingDetail
    settle reference = do
      modify (write_supplier_reference b.id reference)
      move b.id confirmed (some user.id) none
      pay
      modify (notify (booking_confirmed_mail b.booking_reference))
      modify (record_in_sheet b)
      ticket_or_gate reference
      load_booking_detail b.id

    abbrev pub by_status : CreateBookingStatus → ℕ → Action Store BookingDetail
    by_status booking_confirmed reference = settle reference
    by_status _ reference = fail supplier_declined

    abbrev pub after_supplier : Result CreateBookingResult → Action Store BookingDetail
    after_supplier (err e) = fail supplier_error
    after_supplier (ok r) = by_status r.status r.supplier_booking_reference

    unfoldable pub call_supplier : Action Store BookingDetail
    call_supplier = do
      result ← attempt (
          ask order.adapter.create_booking
            (book order.offer.supplier_offer_id dto.passengers dto.contact_email dto.contact_phone))
      after_supplier result

  -- The audit entry and the first three moves of the status.
  unfoldable pub begin : Order → Booking → Action Store Booking
  begin order b = do
    modify (record_audit (some user.id) (booking_created b.id))
    move b.id price_pending (some user.id) (some reprice_performed)
    move b.id price_confirmed (some user.id)
        (some (if order.price_changed_ then price_change_accepted else price_unchanged))
    move b.id booking_pending (some user.id) none
    pure b

  unfoldable pub open_booking : Order → ℕ → Action Store Booking
  open_booking order code = do
    b ← insert_booking (new_booking dto order code key) dto.passengers
    begin order b

  -- `if (existing) return this.loadBookingDetail(existing.id)`
  abbrev pub known_or : Option Booking → Action Store BookingDetail → Action Store BookingDetail
  known_or (some existing) rest = load_booking_detail existing.id
  known_or none rest = rest

  unfoldable pub create_booking : Option UserProfile → (ℕ → ℕ) → Action Store BookingDetail
  create_booking profile draw = do
    existing ← gets (find_by_key key)
    known_or existing (do
      order ← prepare profile
      drawn ← gets (λ s. unique_reference draw (has_reference s))
      code ← or_throw drawn failure
      b ← open_booking order code
      call_supplier order b)
