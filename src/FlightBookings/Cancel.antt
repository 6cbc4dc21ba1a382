-- ===== src/FlightBookings/Cancel.antt =====
-- `cancelBooking` and `performCancellation` of apps/api/src/modules/bookings/bookings.service.ts.
pub mod Outcome
pub mod Whole
use muhammad_tours_and_trave.Prelude.{
  ℕ, ◌+◌, ◌==◌, ℤ, of_cents, Bool, true, false, not, ◌||◌, if◌then◌else◌, Option, none, some, List,
  [], ◌∷◌, map, Result, ok, err, conflict, Action, ◌>>=◌, ◌>>◌, pure, gets, modify, throw_if,
  attempt, update_where,
}
use muhammad_tours_and_trave.Access.{AuthenticatedUser, UserProfile}
use muhammad_tours_and_trave.Booking.Status.{
  BookingStatus, confirmed, ticketed, cancelled, refund_pending, refunded, same_status,
}
use muhammad_tours_and_trave.Booking.Model.{Booking}
use muhammad_tours_and_trave.Wallet.Model.{refund_credit}
use muhammad_tours_and_trave.Wallet.Bookings.{credit_for_booking}
use muhammad_tours_and_trave.Payments.Refund.{refund_payment}
use muhammad_tours_and_trave.FlightBookings.Model.{
  FlightSupplierAdapter, SupplierRequest, SupplierAnswer, cancel, refund, Ticket, void, Refund,
  RefundStatus, processing, completed, rejected, booking_cancelled, refund_settlement_failed, Store,
  Services, BookingDetail, on_wallet, on_payments,
}
use muhammad_tours_and_trave.FlightBookings.Suppliers.{ask, record_audit, move}
use muhammad_tours_and_trave.FlightBookings.Reads.{
  load_booking_detail, assert_can_cancel, actor_or_null, agency_of_agent, registered,
}

-- `['CONFIRMED', 'TICKETED'].includes(booking.status)`
abbrev pub is_cancellable : BookingStatus → Bool
is_cancellable status = same_status status confirmed || same_status status ticketed

abbrev pub is_ticketed : BookingStatus → Bool
is_ticketed status = same_status status ticketed

-- An optional method of the adapter: where it is missing, there is nobody to ask.
abbrev pub ask_if :
    Option (SupplierRequest → ℕ → Result SupplierAnswer) → SupplierRequest → Action Store (Unit {0})
ask_if none request = pure tt
ask_if (some answer) request = do a ← ask answer request; throw_if a.is_failed conflict

module _ (d : BookingDetail) (user : Option ℕ) (reason : Option ℕ) where
  abbrev pub ask_adapter : Option ℕ → Option FlightSupplierAdapter → Action Store (Unit {0})
  ask_adapter none adapter = pure tt
  ask_adapter (some reference) none = pure tt
  ask_adapter (some reference) (some adapter) =
      if is_ticketed d.booking.status
      then ask_if adapter.refund_booking
          (refund reference (map (λ t. t.ticket_number) d.tickets) reason)
      else ask_if adapter.cancel_booking (cancel reference reason)

  -- `ticket.updateMany({ where: { bookingId }, data: { status: 'VOID' } })`
  abbrev pub void_tickets : ℕ → Store → Store
  void_tickets i s = record s {
    tickets = update_where (λ t. t.booking_id == i) (λ t. record t { status = void }) s.tickets;
  }

  abbrev pub first_move : Bool → Action Store (Unit {0})
  first_move true = do
    move d.booking.id refund_pending user reason
    modify (void_tickets d.booking.id)
  first_move false = do move d.booking.id cancelled user reason; pure tt

  abbrev pub create_refund : Action Store ℕ
  create_refund s = pure s.next_id (record s {
    refunds =
        record {
          id = s.next_id;
          booking_id = d.booking.id;
          amount = d.booking.total_amount;
          currency = d.booking.currency;
          status = processing;
          reason = reason;
        }
        ∷ s.refunds;
    next_id = s.next_id + 1;
  })

  abbrev pub write_refund : ℕ → RefundStatus → Store → Store
  write_refund i status s = record s {
    refunds = update_where (λ r. r.id == i) (λ r. record r { status = status }) s.refunds;
  }

  module _ (services : Services) where
    -- The refund goes to whatever paid.
    abbrev pub give_back : Option ℕ → Action Store (Unit {0})
    give_back (some agency) = do
      on_wallet (
          credit_for_booking agency (of_cents d.booking.total_amount) d.booking.id
            d.booking.booking_reference d.booking.booking_reference
            (services.refund_key d.booking.id) refund_credit)
      pure tt
    give_back none = do
      on_payments
          (refund_payment services.provider d.booking.id d.booking.total_amount d.booking.currency)
      pure tt

    abbrev pub after_giving_back : ℕ → Result (Unit {0}) → Action Store (Unit {0})
    after_giving_back i (ok u) = modify (write_refund i completed)
    after_giving_back i (err e) = do
      modify (write_refund i rejected)
      modify (record_audit user (refund_settlement_failed d.booking.id))

    unfoldable pub settle_refund : Action Store (Unit {0})
    settle_refund = do
      i ← create_refund
      agency ← gets (agency_of_agent d.booking.agent_id)
      result ← attempt (give_back agency)
      after_giving_back i result

    abbrev pub last_move : Bool → Action Store (Unit {0})
    last_move true = do move d.booking.id refunded user none; pure tt
    last_move false = pure tt

    -- What happens once the supplier has agreed.
    unfoldable pub undo : Action Store BookingDetail
    undo = do
      first_move (is_ticketed d.booking.status)
      settle_refund
      last_move (is_ticketed d.booking.status)
      modify (record_audit user (booking_cancelled d.booking.id))
      load_booking_detail d.booking.id

    unfoldable pub perform_cancellation : Action Store BookingDetail
    perform_cancellation = do
      throw_if (not (is_cancellable d.booking.status)) conflict
      ask_adapter d.booking.supplier_booking_reference (registered services d.supplier_code)
      undo

unfoldable pub cancel_booking :
    Services → AuthenticatedUser → Option UserProfile → ℕ → Option ℕ → Action Store BookingDetail
cancel_booking services user profile i reason = do
  d ← load_booking_detail i
  assert_can_cancel user (actor_or_null user profile) d
  perform_cancellation d (some user.id) reason services
