-- ===== src/FlightBookings/Histories.antt =====
-- Every booking of apps/api/src/modules/bookings/bookings.service.ts has the status that its own
-- history explains.
use muhammad_tours_and_trave.Prelude.{
  ℕ, ◌+◌, ◌≤◌, ◌≡◌, refl, sym, subst, false, Option, some, inl, inr, Bool-cases, Option-cases, List,
  ◌==◌, arith, All-update_where, IsAccounted, update-IsAccounted, insert-IsAccounted,
  IsAccounted-mono,
}
use muhammad_tours_and_trave.Booking.Status.{BookingStatus, searched, is_transition_allowed}
use muhammad_tours_and_trave.Booking.Model.{Booking, BookingTables}
use muhammad_tours_and_trave.Booking.StateMachine.{TransitionOptions, find_booking, transition}
use muhammad_tours_and_trave.Booking.StateMachine.Laws.{
  transition_missing, transition_refused, transition_allowed,
}
use muhammad_tours_and_trave.FlightBookings.Model.{PassengerDto, Store, Services}
use muhammad_tours_and_trave.FlightBookings.Suppliers.{move, write_supplier_reference}
use muhammad_tours_and_trave.FlightBookings.Create.{count, insert_booking}
use muhammad_tours_and_trave.FlightBookings.Requests.{Request, handle_all}
use muhammad_tours_and_trave.FlightBookings.Steps.Parts.{IsStepwise}
use muhammad_tours_and_trave.FlightBookings.Steps.Deciding.{handle_all-kept}

-- The status of each booking is the one that its own history explains, from SEARCHED on, and ids
-- are given out once.
abbrev pub Accounts : ℕ → BookingTables → Type 0
Accounts n t =
    IsAccounted is_transition_allowed searched false (λ (b : Booking). b.id) (λ b. b.status) n
      t.history t.bookings

pub record IsSound (s : Store) : Type 0 where
  pub accounted : Accounts s.next_id s.booking

pub transition-Accounts :
    (i : ℕ) (to : BookingStatus) (o : TransitionOptions) (n : ℕ) (t : BookingTables)
    → Accounts n t
    → Accounts n (transition i to o t).1
transition-Accounts i to o n t h = elim (Option-cases (find_booking i t)) [
  | inl missing ↦ rw (transition_missing i to o t missing) h
  | inr (b, found) ↦ elim (Bool-cases (is_transition_allowed b.status to)) [
    | inl allowed ↦ rw (transition_allowed i to o t found allowed) (
        update-IsAccounted is_transition_allowed searched false (λ (x : Booking). x.id)
          (λ x. x.status) i b to _ (λ x. record x { status = to }) n t.history t.bookings found
          allowed refl refl refl (λ x. refl) (λ x. refl) h)
    | inr refused ↦ rw (transition_refused i to o t found refused) h
  ]
]

move-IsSound :
    (i : ℕ) (to : BookingStatus) (user reason : Option ℕ) (s : Store)
    → IsSound s
    → IsSound (move i to user reason s).1
unfolding move
move-IsSound i to user reason s h = record {
  accounted =
      transition-Accounts i to (record { actor_user_id = user; reason = reason }) s.next_id
        s.booking h.accounted;
}

referenced-IsSound :
    (i reference : ℕ) (s : Store) → IsSound s → IsSound (write_supplier_reference i reference s)
referenced-IsSound i reference s h = record {
  accounted = record {
    traced =
        All-update_where _ (λ b. b.id == i)
          (λ b. record b { supplier_booking_reference = some reference }) s.booking.bookings
          (λ b hit k. k) h.accounted.traced;
    used = h.accounted.used;
    issued =
        All-update_where _ (λ b. b.id == i)
          (λ b. record b { supplier_booking_reference = some reference }) s.booking.bookings
          (λ b hit k. k) h.accounted.issued;
  };
}

inserted-IsSound :
    (row : ℕ → Booking) (passengers : List PassengerDto)
    → ((n : ℕ) → (row n).id ≡ n)
    → ((n : ℕ) → (row n).status ≡ searched)
    → (s : Store) → IsSound s
    → IsSound (insert_booking row passengers s).1
inserted-IsSound row passengers id_row status_row s h = record {
  accounted =
      IsAccounted-mono is_transition_allowed searched false (λ (b : Booking). b.id) (λ b. b.status)
        (s.next_id + 1) (s.next_id + 1 + count passengers) s.booking.history
        (insert_booking row passengers s).1.booking.bookings (omega arith)
        (insert-IsAccounted is_transition_allowed searched false (λ (b : Booking). b.id)
          (λ b. b.status) (row s.next_id) s.next_id s.booking.history s.booking.bookings refl
          (id_row s.next_id) (status_row s.next_id) h.accounted);
}

framed-IsSound :
    (s s' : Store) → s'.booking ≡ s.booking → s.next_id ≤ s'.next_id → IsSound s → IsSound s'
framed-IsSound s s' same le h = record {
  accounted = subst (Accounts s'.next_id) (sym same) (
      IsAccounted-mono is_transition_allowed searched false (λ (b : Booking). b.id) (λ b. b.status)
        s.next_id s'.next_id s.booking.history s.booking.bookings le h.accounted);
}

IsSound-IsStepwise : (services : Services) → IsStepwise IsSound services
IsSound-IsStepwise services = record {
  moved = λ i to user reason. record { kept = move-IsSound i to user reason };
  referenced = referenced-IsSound;
  inserted = λ row passengers id_row status_row. record {
    kept = inserted-IsSound row passengers id_row status_row;
  };
  applied = λ input. record { kept = λ s h. record { accounted = h.accounted } };
  opened = λ agency. record { kept = λ s h. record { accounted = h.accounted } };
  charged = λ target reference amount currency key token. record {
    kept = λ s h. record { accounted = h.accounted };
  };
  returned = λ target amount currency. record { kept = λ s h. record { accounted = h.accounted } };
  framed = λ s s' booking wallet payments le h. framed-IsSound s s' booking le h;
}

-- Whatever bookings, cancellations and decisions are asked for, in whatever order, and whatever
-- the suppliers and the payment provider answer: every booking has the status that its own history
-- explains.
pub handle_all-IsSound :
    (requests : List (Services × Request)) (s : Store) → IsSound s → IsSound (handle_all requests s)
handle_all-IsSound requests s h = handle_all-kept IsSound IsSound-IsStepwise requests s h
