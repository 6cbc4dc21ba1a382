-- ===== src/FlightBookings/Cancel/Outcome.antt =====
-- How a cancellation can end:
-- `performCancellation` of apps/api/src/modules/bookings/bookings.service.ts.
use muhammad_tours_and_trave.Prelude.{
  ℕ, ◌≡◌, refl, sym, ap, ◌∙◌, of_cents, true, Option, none, some, inl, inr, Call-cases, Result, ok,
  err, ◌==◌, ==_refl, find?, find?-update_where, if◌then◌else◌,
}
use muhammad_tours_and_trave.Booking.Status.{
  BookingStatus, cancelled, refunded, is_transition_allowed,
}
use muhammad_tours_and_trave.Booking.Model.{Booking}
use muhammad_tours_and_trave.Booking.StateMachine.Laws.{transition_allowed, moved}
use muhammad_tours_and_trave.Wallet.Model.{refund_credit}
use muhammad_tours_and_trave.Wallet.Bookings.{credit_for_booking}
use muhammad_tours_and_trave.Payments.Refund.{refund_payment}
use muhammad_tours_and_trave.FlightBookings.Model.{
  Refund, RefundStatus, completed, rejected, BookingDetail, Store, Services, find_booking,
  on_wallet, on_payments,
}
use muhammad_tours_and_trave.FlightBookings.Suppliers.{move, record_audit}
use muhammad_tours_and_trave.FlightBookings.Reads.{detail_of, load_booking_detail, agency_of_agent}
use muhammad_tours_and_trave.FlightBookings.Cancel.{
  is_ticketed, create_refund, write_refund, give_back, after_giving_back, settle_refund,
}

-- The refund of a booking that was made last.
abbrev pub latest_refund : ℕ → Store → Option Refund
latest_refund i s = find? (λ r. r.booking_id == i) s.refunds

-- What a refund's status says of the call that was to give the money back.
abbrev pub status_by : Result (Unit {0}) → RefundStatus
status_by (ok u) = completed
status_by (err e) = rejected

module _ (d : BookingDetail) (user reason : Option ℕ) (services : Services) where
  -- Giving the money back touches neither the bookings nor the refunds.
  give_back-frame :
      (agency : Option ℕ) (s : Store)
      → let r = give_back d user reason services agency s in
        (r.1.booking ≡ s.booking) × (r.1.refunds ≡ s.refunds)
  give_back-frame (some agency) s =
      let m =
        credit_for_booking agency (of_cents d.booking.total_amount) d.booking.id
          d.booking.booking_reference d.booking.booking_reference (services.refund_key d.booking.id)
          refund_credit in
      elim (Call-cases (on_wallet m s)) [
        | inl (t, s', q) ↦ rw q (ap (λ r. r.1.booking) (sym q), ap (λ r. r.1.refunds) (sym q))
        | inr (e, s', q) ↦ rw q (ap (λ r. r.1.booking) (sym q), ap (λ r. r.1.refunds) (sym q))
      ]
  give_back-frame none s =
      let m =
        refund_payment services.provider d.booking.id d.booking.total_amount d.booking.currency in
      elim (Call-cases (on_payments m s)) [
        | inl (t, s', q) ↦ rw q (ap (λ r. r.1.booking) (sym q), ap (λ r. r.1.refunds) (sym q))
        | inr (e, s', q) ↦ rw q (ap (λ r. r.1.booking) (sym q), ap (λ r. r.1.refunds) (sym q))
      ]

  abbrev pub opened : Store → Store
  opened s = (create_refund d user reason s).1

  -- The refund goes through as a call whatever the wallet or the provider does: there is a new row
  -- for the whole amount, and it is COMPLETED exactly if the money was given back.
  pub record Settled (s s' : Store) : Type 0 where
    pub result : settle_refund d user reason services s ≡ (ok tt, s')
    pub same : s'.booking ≡ s.booking
    pub row : Refund
    pub latest : latest_refund d.booking.id s' ≡ some row
    pub amount : row.amount ≡ d.booking.total_amount
    pub status :
        row.status
        ≡ status_by
            (give_back d user reason services
              (agency_of_agent d.booking.agent_id (opened s))
              (opened s)).0

  abbrev new_row : Store → RefundStatus → Refund
  new_row s status = record {
    id = s.next_id;
    booking_id = d.booking.id;
    amount = d.booking.total_amount;
    currency = d.booking.currency;
    status = status;
    reason = reason;
  }

  written_latest :
      (s t : Store) (status : RefundStatus)
      → t.refunds ≡ (opened s).refunds
      → latest_refund d.booking.id (write_refund d user reason s.next_id status t)
        ≡ some (new_row s status)
  written_latest s t status same = rw same (rw (==_refl s.next_id) (rw (==_refl d.booking.id) refl))

  settle_by :
      (s : Store) {r : Result (Unit {0})} {t : Store}
      → give_back d user reason services (agency_of_agent d.booking.agent_id (opened s)) (opened s)
        ≡ (r, t)
      → settle_refund d user reason services s
        ≡ after_giving_back d user reason services s.next_id r t
  unfolding settle_refund
  settle_by s q = ap (λ x. after_giving_back d user reason services s.next_id x.0 x.1) q

  pub settle_refund-Settled : (s : Store) → (s' : Store) × Settled s s'
  settle_refund-Settled s =
      let agency = agency_of_agent d.booking.agent_id (opened s) in
      let frame = give_back-frame agency (opened s) in
      elim (Call-cases (give_back d user reason services agency (opened s))) [
        | inl (u, t, q) ↦ (
          write_refund d user reason s.next_id completed t,
          record {
            result = settle_by s q;
            same = ap (λ r. r.1.booking) (sym q) ∙ frame.0;
            row = new_row s completed;
            latest = written_latest s t completed (ap (λ r. r.1.refunds) (sym q) ∙ frame.1);
            amount = refl;
            status = rw q refl;
          },
        )
        | inr (e, t, q) ↦ (
          record_audit user _ (write_refund d user reason s.next_id rejected t),
          record {
            result = settle_by s q;
            same = ap (λ r. r.1.booking) (sym q) ∙ frame.0;
            row = new_row s rejected;
            latest = written_latest s t rejected (ap (λ r. r.1.refunds) (sym q) ∙ frame.1);
            amount = refl;
            status = rw q refl;
          },
        )
      ]

-- The status that a cancellation ends in.
abbrev pub final_status : BookingStatus → BookingStatus
final_status status = if is_ticketed status then refunded else cancelled

module _ (i : ℕ) (to : BookingStatus) (user reason : Option ℕ) (s : Store) where
  abbrev pub moved_store : Booking → Store
  moved_store b = record s {
    booking = moved i to (record { actor_user_id = user; reason = reason }) b s.booking;
  }

  pub move_allowed :
      {b : Booking}
      → find_booking i s ≡ some b
      → is_transition_allowed b.status to ≡ true
      → move i to user reason s ≡ (ok (record b { status = to }), moved_store b)
  unfolding move
  move_allowed {b} found allowed =
      ap (λ r. (r.0, record s { booking = r.1 }))
        (transition_allowed i to (record { actor_user_id = user; reason = reason }) s.booking found
          allowed)

  pub moved_found :
      {b : Booking}
      → find_booking i s ≡ some b
      → find_booking i (moved_store b) ≡ some (record b { status = to })
  moved_found {b} found =
      find?-update_where (λ x. x.id == i) (λ x. record x { status = to }) s.booking.bookings
        (λ x. refl) found

pub load_found :
    (i : ℕ) (s : Store) {b : Booking}
    → find_booking i s ≡ some b
    → load_booking_detail i s ≡ (ok (detail_of b s), s)
unfolding load_booking_detail
load_found i s found = rw found refl
