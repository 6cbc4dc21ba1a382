-- ===== src/FlightBookings/Suppliers.antt =====
-- The calls of a supplier's adapter and the small writes that the parts of
-- apps/api/src/modules/bookings/bookings.service.ts share.
use muhammad_tours_and_trave.Prelude.{
  ℕ, ◌∷◌, ◌==◌, length, Option, some, Result, Action, from_result, update_where,
}
use muhammad_tours_and_trave.Booking.Status.{BookingStatus}
use muhammad_tours_and_trave.Booking.Model.{Booking}
use muhammad_tours_and_trave.Booking.StateMachine.{transition}
use muhammad_tours_and_trave.FlightBookings.Model.{
  SupplierRequest, AuditAction, Notification, Store, on_booking,
}

-- One call of an adapter, which goes on record before it is answered.
abbrev pub ask : {A : Type 0} → (SupplierRequest → ℕ → Result A) → SupplierRequest → Action Store A
ask answer request s =
    from_result (answer request (length s.supplier_requests))
      (record s { supplier_requests = request ∷ s.supplier_requests })

abbrev pub record_audit : Option ℕ → AuditAction → Store → Store
record_audit user action s = record s {
  audit = record { user_id = user; action = action } ∷ s.audit;
}

abbrev pub notify : Notification → Store → Store
notify n s = record s { notifications = n ∷ s.notifications }

-- `this.stateMachine.transition`, whose answer nobody reads
unfoldable pub move : ℕ → BookingStatus → Option ℕ → Option ℕ → Action Store Booking
move i to user reason =
    on_booking (transition i to (record { actor_user_id = user; reason = reason }))

-- `booking.update({ where: { id }, data: { supplierBookingReference } })`
abbrev pub write_supplier_reference : ℕ → ℕ → Store → Store
write_supplier_reference i reference s = record s {
  booking = record s.booking {
    bookings =
        update_where (λ b. b.id == i)
          (λ b. record b { supplier_booking_reference = some reference }) s.booking.bookings;
  };
}
