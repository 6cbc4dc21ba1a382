-- ===== src/FlightBookings/Steps/Creating.antt =====
-- What `createBooking` of apps/api/src/modules/bookings/bookings.service.ts keeps true.
use muhammad_tours_and_trave.Prelude.{
  ℕ, refl, arith, of_cents, Bool, true, false, Option, none, some, Result, ok, err, bad_request,
  unauthorized, conflict, forbidden, not_found, insufficient_funds, price_changed, failure, Action,
  if◌then◌else◌, Keeps, bind-Keeps, or_throw-Keeps, gets-Keeps, pure-Keeps, modify-Keeps,
  attempt-Keeps, unique_reference,
}
use muhammad_tours_and_trave.Access.{AuthenticatedUser, UserProfile}
use muhammad_tours_and_trave.Booking.Status.{
  price_pending, price_confirmed, booking_pending, confirmed, failed,
}
use muhammad_tours_and_trave.Booking.Model.{Booking}
use muhammad_tours_and_trave.Wallet.Model.{WalletTransaction}
use muhammad_tours_and_trave.Wallet.Bookings.{debit_for_booking_input, debit_for_booking}
use muhammad_tours_and_trave.Payments.Model.{booking}
use muhammad_tours_and_trave.TravelPolicy.Model.{PolicyEvaluation, PolicyNote}
use muhammad_tours_and_trave.FlightBookings.Model.{
  CreateBookingDto, book, CreateBookingStatus, booking_confirmed, CreateBookingResult,
  booking_created, booking_wallet_debit_failed, approval_requested, approval_auto_approved,
  booking_confirmed_mail, booking_failed_mail, BookingDetail, Store, Services, on_wallet,
}
use muhammad_tours_and_trave.FlightBookings.Pricing.{available, is_corporate}
use muhammad_tours_and_trave.FlightBookings.Create.{
  reprice_performed, price_change_accepted, price_unchanged, supplier_error, supplier_declined,
  find_by_key, has_reference, Order, new_booking, record_in_sheet, add_approval, after_debit,
  pay_from, pay, ticket, pending_row, request_approval, approved_row, approve_at_once, gate,
  gate_of, ticket_or_gate, fail, settle, by_status, after_supplier, call_supplier, begin,
  open_booking, known_or, create_booking,
}
use muhammad_tours_and_trave.FlightBookings.Steps.Parts.{
  IsStepwise, elsewhere-Keeps, audit-Keeps, notify-Keeps, ask-Keeps, load-Keeps,
  issue_tickets-Keeps,
}
use muhammad_tours_and_trave.FlightBookings.Steps.Preparing.{prepare-Keeps}

module _ (I : Store → Type 0) {services : Services} (k : IsStepwise I services)
    (user : AuthenticatedUser) (dto : CreateBookingDto) (key : ℕ) where
  pub begin-Keeps : (order : Order) (b : Booking) → Keeps I (begin services user dto key order b)
  unfolding begin
  begin-Keeps order b = bind-Keeps I (audit-Keeps I k (some user.id) (booking_created b.id)) (λ u.
      bind-Keeps I (k.moved b.id price_pending (some user.id) (some reprice_performed)) (λ v.
        bind-Keeps I
          (k.moved b.id price_confirmed (some user.id)
            (some (if order.price_changed_ then price_change_accepted else price_unchanged)))
          (λ w.
            bind-Keeps I (k.moved b.id booking_pending (some user.id) none)
              (λ x. pure-Keeps I {a = b}))))

  open_booking-Keeps :
      (order : Order) (code : ℕ) → Keeps I (open_booking services user dto key order code)
  unfolding open_booking
  open_booking-Keeps order code =
      bind-Keeps I
        (k.inserted (new_booking dto order code key) dto.passengers (λ n. refl) (λ n. refl))
        (λ b. begin-Keeps order b)

  module _ (order : Order) (b : Booking) where
    after_debit-Keeps :
        (r : Result WalletTransaction) → Keeps I (after_debit services user dto key order b r)
    after_debit-Keeps (ok t) = pure-Keeps I
    after_debit-Keeps (err (insufficient_funds available requested currency)) =
        audit-Keeps I k (some user.id) (booking_wallet_debit_failed b.id)
    after_debit-Keeps (err bad_request) = record { kept = λ s h. h }
    after_debit-Keeps (err conflict) = record { kept = λ s h. h }
    after_debit-Keeps (err unauthorized) = record { kept = λ s h. h }
    after_debit-Keeps (err forbidden) = record { kept = λ s h. h }
    after_debit-Keeps (err not_found) = record { kept = λ s h. h }
    after_debit-Keeps (err (price_changed old new currency)) = record { kept = λ s h. h }
    after_debit-Keeps (err failure) = record { kept = λ s h. h }

    debit-Keeps :
        (agency : ℕ)
        → Keeps I (
            on_wallet (
              debit_for_booking agency
                (of_cents order.total)
                b.id
                b.booking_reference
                b.booking_reference
                key))
    unfolding debit_for_booking
    debit-Keeps agency = k.applied (
        debit_for_booking_input agency (of_cents order.total) b.id b.booking_reference
          b.booking_reference key)

    pay_from-Keeps : (agency : Option ℕ) → Keeps I (pay_from services user dto key order b agency)
    pay_from-Keeps (some agency) =
        bind-Keeps I (attempt-Keeps I (debit-Keeps agency)) (λ r. after_debit-Keeps r)
    pay_from-Keeps none =
        bind-Keeps I
          (k.charged (booking b.id) b.booking_reference order.total order.offer.currency key
            dto.payment_method_token)
          (λ p. pure-Keeps I {a = tt})

    pay-Keeps : Keeps I (pay services user dto key order b)
    unfolding pay
    pay-Keeps = pay_from-Keeps order.actor.agency_id

    ticket-Keeps : (reference : ℕ) → Keeps I (ticket services user dto key order b reference)
    ticket-Keeps reference = issue_tickets-Keeps I k b.id order.adapter reference (some user.id)

    request-Keeps :
        (employee : ℕ) (note : Option PolicyNote)
        → Keeps I (request_approval services user dto key order b employee note)
    request-Keeps employee note =
        bind-Keeps I
          (elsewhere-Keeps I k
            {f = add_approval (pending_row services user dto key order b employee note)}
            (λ s. (refl, refl, refl, omega arith)))
          (λ u. audit-Keeps I k (some user.id) (approval_requested b.id))

    at_once-Keeps :
        (employee reference : ℕ)
        → Keeps I (approve_at_once services user dto key order b employee reference)
    at_once-Keeps employee reference =
        bind-Keeps I
          (elsewhere-Keeps I k
            {f = add_approval (approved_row services user dto key order b employee)}
            (λ s. (refl, refl, refl, omega arith)))
          (λ u.
            bind-Keeps I (audit-Keeps I k (some user.id) (approval_auto_approved b.id))
              (λ v. ticket-Keeps reference))

    gate-Keeps :
        (employee reference : ℕ) (e : Option PolicyEvaluation)
        → Keeps I (gate services user dto key order b employee reference e)
    gate-Keeps employee reference none = at_once-Keeps employee reference
    gate-Keeps employee reference (some e) = go e.requires_approval
      where
        go :
            (c : Bool)
            → Keeps I (
                if c
                then request_approval services user dto key order b employee e.note
                else approve_at_once services user dto key order b employee reference)
        go true = request-Keeps employee e.note
        go false = at_once-Keeps employee reference

    gate_of-Keeps :
        (reference : ℕ) (employee : Option ℕ)
        → Keeps I (gate_of services user dto key order b reference employee)
    gate_of-Keeps reference none = pure-Keeps I
    gate_of-Keeps reference (some employee) = gate-Keeps employee reference order.policy.evaluation

    ticket_or_gate-Keeps :
        (reference : ℕ) → Keeps I (ticket_or_gate services user dto key order b reference)
    unfolding ticket_or_gate
    ticket_or_gate-Keeps reference = go (is_corporate order.offer.search_channel)
      where
        go :
            (c : Bool)
            → Keeps I (
                if c
                then gate_of services user dto key order b reference order.actor.employee_id
                else ticket services user dto key order b reference)
        go true = gate_of-Keeps reference order.actor.employee_id
        go false = ticket-Keeps reference

    fail-Keeps : (reason : ℕ) → Keeps I (fail services user dto key order b reason)
    unfolding fail
    fail-Keeps reason = bind-Keeps I (k.moved b.id failed none (some reason)) (λ u.
        bind-Keeps I (notify-Keeps I k (booking_failed_mail b.booking_reference))
          (λ v. load-Keeps I k b.id))

    settle-Keeps : (reference : ℕ) → Keeps I (settle services user dto key order b reference)
    unfolding settle
    settle-Keeps reference = bind-Keeps I (modify-Keeps I (k.referenced b.id reference)) (λ u.
        bind-Keeps I (k.moved b.id confirmed (some user.id) none) (λ v. bind-Keeps I pay-Keeps (λ w.
          bind-Keeps I (notify-Keeps I k (booking_confirmed_mail b.booking_reference)) (λ x.
            bind-Keeps I
              (elsewhere-Keeps I k {f = record_in_sheet b} (λ s. (refl, refl, refl, omega arith)))
              (λ y. bind-Keeps I (ticket_or_gate-Keeps reference) (λ z. load-Keeps I k b.id))))))

    by_status-Keeps :
        (status : CreateBookingStatus) (reference : ℕ)
        → Keeps I (by_status services user dto key order b status reference)
    by_status-Keeps booking_confirmed reference = settle-Keeps reference
    by_status-Keeps _ reference = fail-Keeps supplier_declined

    after_supplier-Keeps :
        (r : Result CreateBookingResult) → Keeps I (after_supplier services user dto key order b r)
    after_supplier-Keeps (err e) = fail-Keeps supplier_error
    after_supplier-Keeps (ok r) = by_status-Keeps r.status r.supplier_booking_reference

    pub call_supplier-Keeps : Keeps I (call_supplier services user dto key order b)
    unfolding call_supplier
    call_supplier-Keeps =
        bind-Keeps I
          (attempt-Keeps I (
            ask-Keeps I k order.adapter.create_booking (
              book order.offer.supplier_offer_id dto.passengers dto.contact_email
                dto.contact_phone)))
          (λ r. after_supplier-Keeps r)

  known_or-Keeps :
      (existing : Option Booking) {m : Action Store BookingDetail}
      → Keeps I m
      → Keeps I (known_or services user dto key existing m)
  known_or-Keeps (some b) h = load-Keeps I k b.id
  known_or-Keeps none h = h

  pub create_booking-Keeps :
      (profile : Option UserProfile) (draw : ℕ → ℕ)
      → Keeps I (create_booking services user dto key profile draw)
  unfolding create_booking
  create_booking-Keeps profile draw = bind-Keeps I (gets-Keeps I {f = find_by_key key}) (λ existing.
      known_or-Keeps existing (
        bind-Keeps I (prepare-Keeps I k user dto key profile) (λ order.
          bind-Keeps I (gets-Keeps I {f = λ s. unique_reference draw (has_reference s)}) (λ drawn.
            bind-Keeps I (or_throw-Keeps I drawn failure) (λ code.
              bind-Keeps I (open_booking-Keeps order code) (λ b. call_supplier-Keeps order b))))))
