-- ===== src/Booking/StateMachine.antt =====
-- apps/api/src/modules/bookings/booking-state-machine.service.ts: the only writer of
-- `bookings.status`.
pub mod Laws
pub mod Trails
use muhammad_tours_and_trave.Prelude.{
  ℕ, Bool, not, Option, some, List, [], ◌∷◌, ◌==◌, Action, conflict, failure, ◌>>=◌, ◌>>◌, pure,
  throw_if, gets, modify, or_throw, transaction, find?, update_where, Change,
}
use muhammad_tours_and_trave.Booking.Status.{BookingStatus, allowed_booking_transitions, includes}
use muhammad_tours_and_trave.Booking.Model.{Booking, BookingTables}

pub record TransitionOptions : Type 0 where
  pub actor_user_id : Option ℕ
  pub reason : Option ℕ

abbrev pub find_booking : ℕ → BookingTables → Option Booking
find_booking i s = find? (λ b. b.id == i) s.bookings

-- `booking.update({ where: { id }, data: { status } })`
abbrev pub write_status : ℕ → BookingStatus → BookingTables → BookingTables
write_status i to s = record s {
  bookings = update_where (λ b. b.id == i) (λ b. record b { status = to }) s.bookings;
}

-- `bookingStatusHistory.create`
abbrev pub write_history : Change BookingStatus → BookingTables → BookingTables
write_history c s = record s { history = c ∷ s.history }

unfoldable pub transition : ℕ → BookingStatus → TransitionOptions → Action BookingTables Booking
unfolding allowed_booking_transitions
transition i to options = transaction (do
  found ← gets (find_booking i)
  booking ← or_throw found failure
  throw_if (not (includes (allowed_booking_transitions booking.status) to)) conflict
  modify (write_status i to)
  modify (
      write_history (record {
        row_id = i;
        from_status = some booking.status;
        to_status = to;
        actor_user_id = options.actor_user_id;
        note = options.reason;
      }))
  pure (record booking { status = to }))
