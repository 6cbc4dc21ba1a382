-- ===== src/Booking/Tests.antt =====
-- The theorems on bookings at a small table.
use muhammad_tours_and_trave.Prelude.{
  ◌≤◌, pos, ◌≡◌, ◌↔◌, refl, true, some, none, [], ◌∷◌, map, trail,
}
use muhammad_tours_and_trave.Booking.Status.{
  searched, price_pending, price_confirmed, booking_pending, is_transition_allowed,
}
use muhammad_tours_and_trave.Booking.Lifecycle.{
  ◌⟶◌, start, step, is_transition_allowed_iff, Walk-bounded,
}
use muhammad_tours_and_trave.Booking.Model.{Booking, BookingTables, b2c}
use muhammad_tours_and_trave.Booking.StateMachine.{TransitionOptions, transition}
use muhammad_tours_and_trave.Booking.StateMachine.Laws.{IsConsistent, transition-IsConsistent}
use muhammad_tours_and_trave.Booking.StateMachine.Trails.{itinerary, history-itinerary}

abbrev fresh : Booking
fresh = record {
  id = 1;
  booking_reference = 101;
  offer_id = 9;
  channel = b2c;
  customer_id = some 4;
  agent_id = none;
  employee_id = none;
  cost_center_id = none;
  policy_violation_note = none;
  contact_name = 20;
  contact_email = 21;
  contact_phone = 22;
  whatsapp_number = none;
  status = searched;
  currency = 0;
  total_amount = pos 45000;
  idempotency_key = 77;
  supplier_booking_reference = none;
}

abbrev repriced : Booking
repriced = record fresh { id = 2; status = price_confirmed }

abbrev tables : BookingTables
tables = record {
  bookings = fresh ∷ repriced ∷ [];
  history =
      record {
        row_id = 2;
        from_status = some price_pending;
        to_status = price_confirmed;
        actor_user_id = some 5;
        note = none;
      }
      ∷ record {
        row_id = 2;
        from_status = some searched;
        to_status = price_pending;
        actor_user_id = some 5;
        note = none;
      }
      ∷ [];
}

abbrev by_staff : TransitionOptions
by_staff = record { actor_user_id = some 5; reason = none }

tables-IsConsistent : IsConsistent tables
unfolding is_transition_allowed
tables-IsConsistent = ((refl, refl), ((refl, (refl, (refl, (refl, (refl, refl))))), tt))

transition-IsConsistent_example : IsConsistent (transition 1 price_pending by_staff tables).1
transition-IsConsistent_example =
    transition-IsConsistent 1 price_pending by_staff tables tables-IsConsistent

history-itinerary_example :
    map (λ c. c.to_status) (trail 2 tables.history) ≡ itinerary price_confirmed
history-itinerary_example = history-itinerary 2 tables {b = repriced} tables-IsConsistent refl refl

is_transition_allowed_iff_example :
    (is_transition_allowed price_confirmed booking_pending ≡ true)
    ↔ (price_confirmed ⟶ booking_pending)
is_transition_allowed_iff_example = is_transition_allowed_iff price_confirmed booking_pending

searched_price_pending : is_transition_allowed searched price_pending ≡ true
unfolding is_transition_allowed
searched_price_pending = refl

price_pending_confirmed : is_transition_allowed price_pending price_confirmed ≡ true
unfolding is_transition_allowed
price_pending_confirmed = refl

Walk-bounded_example : 2 ≤ 7
Walk-bounded_example =
    Walk-bounded (step (step (start {s = searched}) searched_price_pending) price_pending_confirmed)
