-- ===== src/FlightBookings/Steps/Cancelling.antt =====
-- What `cancelBooking` and `performCancellation` of
-- apps/api/src/modules/bookings/bookings.service.ts keep true.
use muhammad_tours_and_trave.Prelude.{
  ℕ, refl, arith, of_cents, Bool, true, false, not, Option, none, some, map, Result, ok, err,
  conflict, forbidden, modify, if◌then◌else◌, Keeps, bind-Keeps, throw_if-Keeps, gets-Keeps,
  pure-Keeps, attempt-Keeps,
}
use muhammad_tours_and_trave.Access.{AuthenticatedUser, UserProfile}
use muhammad_tours_and_trave.Booking.Status.{cancelled, refund_pending, refunded}
use muhammad_tours_and_trave.Wallet.Model.{refund_credit}
use muhammad_tours_and_trave.Wallet.Bookings.{credit_for_booking_input, credit_for_booking}
use muhammad_tours_and_trave.Payments.Model.{booking}
use muhammad_tours_and_trave.FlightBookings.Model.{
  FlightSupplierAdapter, SupplierRequest, SupplierAnswer, cancel, refund, RefundStatus, completed,
  rejected, booking_cancelled, refund_settlement_failed, Store, Services, BookingDetail, on_wallet,
}
use muhammad_tours_and_trave.FlightBookings.Reads.{
  can_cancel, actor_or_null, agency_of_agent, registered,
}
use muhammad_tours_and_trave.FlightBookings.Cancel.{
  is_cancellable, is_ticketed, ask_if, ask_adapter, void_tickets, first_move, create_refund,
  write_refund, give_back, after_giving_back, settle_refund, last_move, undo, perform_cancellation,
  cancel_booking,
}
use muhammad_tours_and_trave.FlightBookings.Steps.Parts.{
  IsStepwise, elsewhere-Keeps, audit-Keeps, ask-Keeps, load-Keeps,
}

module _ (I : Store → Type 0) {services : Services} (k : IsStepwise I services) where
  ask_if-Keeps :
      (m : Option (SupplierRequest → ℕ → Result SupplierAnswer)) (request : SupplierRequest)
      → Keeps I (ask_if m request)
  ask_if-Keeps none request = pure-Keeps I
  ask_if-Keeps (some answer) request =
      bind-Keeps I (ask-Keeps I k answer request) (λ a. throw_if-Keeps I a.is_failed conflict)

  module _ (d : BookingDetail) (user reason : Option ℕ) where
    pub ask_adapter-Keeps :
        (reference : Option ℕ) (adapter : Option FlightSupplierAdapter)
        → Keeps I (ask_adapter d user reason reference adapter)
    ask_adapter-Keeps none adapter = pure-Keeps I
    ask_adapter-Keeps (some reference) none = pure-Keeps I
    ask_adapter-Keeps (some reference) (some adapter) = go (is_ticketed d.booking.status)
      where
        go :
            (c : Bool)
            → Keeps I (
                if c
                then ask_if adapter.refund_booking
                    (refund reference (map (λ t. t.ticket_number) d.tickets) reason)
                else ask_if adapter.cancel_booking (cancel reference reason))
        go true = ask_if-Keeps adapter.refund_booking _
        go false = ask_if-Keeps adapter.cancel_booking _

    first_move-Keeps : (c : Bool) → Keeps I (first_move d user reason c)
    first_move-Keeps true = bind-Keeps I (k.moved d.booking.id refund_pending user reason) (λ b.
        elsewhere-Keeps I k {f = void_tickets d user reason d.booking.id}
          (λ s. (refl, refl, refl, omega arith)))
    first_move-Keeps false =
        bind-Keeps I (k.moved d.booking.id cancelled user reason) (λ b. pure-Keeps I {a = tt})

    create_refund-Keeps : Keeps I (create_refund d user reason)
    create_refund-Keeps = record {
      kept = λ s h. k.framed s (create_refund d user reason s).1 refl refl refl (omega arith) h;
    }

    write_refund-Keeps :
        (i : ℕ) (status : RefundStatus) → Keeps I (modify (write_refund d user reason i status))
    write_refund-Keeps i status =
        elsewhere-Keeps I k {f = write_refund d user reason i status}
          (λ s. (refl, refl, refl, omega arith))

    credit-Keeps :
        (agency : ℕ)
        → Keeps I (
            on_wallet (
              credit_for_booking agency
                (of_cents d.booking.total_amount)
                d.booking.id
                d.booking.booking_reference
                d.booking.booking_reference
                (services.refund_key d.booking.id)
                refund_credit))
    unfolding credit_for_booking
    credit-Keeps agency = k.applied (
        credit_for_booking_input agency (of_cents d.booking.total_amount) d.booking.id
          d.booking.booking_reference d.booking.booking_reference (services.refund_key d.booking.id)
          refund_credit)

    give_back-Keeps : (agency : Option ℕ) → Keeps I (give_back d user reason services agency)
    give_back-Keeps (some agency) = bind-Keeps I (credit-Keeps agency) (λ t. pure-Keeps I {a = tt})
    give_back-Keeps none =
        bind-Keeps I (k.returned (booking d.booking.id) d.booking.total_amount d.booking.currency)
          (λ p. pure-Keeps I {a = tt})

    after-Keeps :
        (i : ℕ) (r : Result (Unit {0})) → Keeps I (after_giving_back d user reason services i r)
    after-Keeps i (ok u) = write_refund-Keeps i completed
    after-Keeps i (err e) =
        bind-Keeps I (write_refund-Keeps i rejected)
          (λ u. audit-Keeps I k user (refund_settlement_failed d.booking.id))

    settle_refund-Keeps : Keeps I (settle_refund d user reason services)
    unfolding settle_refund
    settle_refund-Keeps = bind-Keeps I create_refund-Keeps (λ i.
        bind-Keeps I (gets-Keeps I {f = agency_of_agent d.booking.agent_id}) (λ agency.
          bind-Keeps I (attempt-Keeps I (give_back-Keeps agency)) (λ r. after-Keeps i r)))

    last_move-Keeps : (c : Bool) → Keeps I (last_move d user reason services c)
    last_move-Keeps true =
        bind-Keeps I (k.moved d.booking.id refunded user none) (λ b. pure-Keeps I {a = tt})
    last_move-Keeps false = pure-Keeps I

    undo-Keeps : Keeps I (undo d user reason services)
    unfolding undo
    undo-Keeps = bind-Keeps I (first_move-Keeps (is_ticketed d.booking.status)) (λ u.
        bind-Keeps I settle_refund-Keeps (λ v.
          bind-Keeps I (last_move-Keeps (is_ticketed d.booking.status)) (λ w.
            bind-Keeps I (audit-Keeps I k user (booking_cancelled d.booking.id))
              (λ x. load-Keeps I k d.booking.id))))

    pub perform_cancellation-Keeps : Keeps I (perform_cancellation d user reason services)
    unfolding perform_cancellation
    perform_cancellation-Keeps =
        bind-Keeps I (throw_if-Keeps I (not (is_cancellable d.booking.status)) conflict) (λ u.
          bind-Keeps I
            (ask_adapter-Keeps d.booking.supplier_booking_reference
              (registered services d.supplier_code))
            (λ v. undo-Keeps))

  pub cancel_booking-Keeps :
      (user : AuthenticatedUser) (profile : Option UserProfile) (i : ℕ) (reason : Option ℕ)
      → Keeps I (cancel_booking services user profile i reason)
  unfolding cancel_booking
  cancel_booking-Keeps user profile i reason = bind-Keeps I (load-Keeps I k i) (λ d.
      bind-Keeps I
        (throw_if-Keeps I (not (can_cancel user (actor_or_null user profile) d)) forbidden)
        (λ u. perform_cancellation-Keeps d (some user.id) reason))
