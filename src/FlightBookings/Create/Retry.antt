-- ===== src/FlightBookings/Create/Retry.antt =====
-- A booking is made once:
-- `createBooking` of apps/api/src/modules/bookings/bookings.service.ts under one idempotency key.
use muhammad_tours_and_trave.Prelude.{
  ℕ, ◌≡◌, refl, subst, ap, ◌∙◌, Bool, Option, some, inl, inr, Bool-cases, Option-cases, Call-cases,
  List, Result, ok, err, continue, ◌==◌, ==_refl, find?, find?-update_where_any, update_where,
  if◌then◌else◌, unique_reference,
}
use muhammad_tours_and_trave.Access.{AuthenticatedUser, UserProfile}
use muhammad_tours_and_trave.Booking.Status.{BookingStatus}
use muhammad_tours_and_trave.Booking.Model.{Booking}
use muhammad_tours_and_trave.Booking.StateMachine.{TransitionOptions, transition}
use muhammad_tours_and_trave.Booking.StateMachine as M
use muhammad_tours_and_trave.FlightBookings.Model.{
  PassengerDto, CreateBookingDto, BookingDetail, Store, Services, find_booking,
}
use muhammad_tours_and_trave.FlightBookings.Suppliers.{move}
use muhammad_tours_and_trave.FlightBookings.Reads.{load_booking_detail}
use muhammad_tours_and_trave.FlightBookings.Create.{
  find_by_key, has_reference, Order, new_booking, insert_booking, prepare, open_booking,
  call_supplier, create_booking,
}
use muhammad_tours_and_trave.Booking.StateMachine.Laws.{
  transition_missing, transition_refused, transition_allowed,
}
use muhammad_tours_and_trave.Booking.Status.{is_transition_allowed}
use muhammad_tours_and_trave.FlightBookings.Steps.Parts.{IsStepwise}
use muhammad_tours_and_trave.FlightBookings.Steps.Creating.{begin-Keeps, call_supplier-Keeps}

module _ (key : ℕ) where
  -- There is a booking under the key.
  record HasKey (s : Store) : Type 0 where
    row : Booking
    found : find_by_key key s ≡ some row

  -- An update of rows that leaves their keys alone.
  updated-HasKey :
      (p : Booking → Bool) (f : Booking → Booking) (s : Store) (h : List _)
      → ((x : Booking) → (f x).idempotency_key ≡ x.idempotency_key)
      → HasKey s
      → HasKey (record s {
        booking = record { bookings = update_where p f s.booking.bookings; history = h };
      })
  updated-HasKey p f s h keep k = record {
    row = if p k.row then f k.row else k.row;
    found =
        find?-update_where_any p (λ x. x.idempotency_key == key) f s.booking.bookings
          (λ x. ap (λ y. y == key) (keep x)) k.found;
  }

  transition-HasKey :
      (i : ℕ) (to : BookingStatus) (o : TransitionOptions) (s : Store)
      → HasKey s
      → HasKey (record s { booking = (transition i to o s.booking).1 })
  transition-HasKey i to o s h = elim (Option-cases (M.find_booking i s.booking)) [
    | inl missing ↦
        rw (transition_missing i to o s.booking missing) (record { row = h.row; found = h.found })
    | inr (d, found) ↦ elim (Bool-cases (is_transition_allowed d.status to)) [
      | inl allowed ↦
          rw (transition_allowed i to o s.booking found allowed)
            (updated-HasKey (λ x. x.id == i) (λ x. record x { status = to }) s _ (λ x. refl) h)
      | inr refused ↦
          rw (transition_refused i to o s.booking found refused)
            (record { row = h.row; found = h.found })
    ]
  ]

  move-HasKey :
      (i : ℕ) (to : BookingStatus) (user reason : Option ℕ) (s : Store)
      → HasKey s
      → HasKey (move i to user reason s).1
  unfolding move
  move-HasKey i to user reason s h =
      transition-HasKey i to (record { actor_user_id = user; reason = reason }) s h

  inserted-HasKey :
      (row : ℕ → Booking) (passengers : List PassengerDto) (s : Store)
      → HasKey s
      → HasKey (insert_booking row passengers s).1
  inserted-HasKey row passengers s h = elim (Bool-cases ((row s.next_id).idempotency_key == key)) [
    | inl hit ↦ record { row = row s.next_id; found = rw hit refl }
    | inr miss ↦ record { row = h.row; found = rw miss h.found }
  ]

  HasKey-IsStepwise : (services : Services) → IsStepwise HasKey services
  HasKey-IsStepwise services = record {
    moved = λ i to user reason. record { kept = move-HasKey i to user reason };
    referenced = λ i reference s h.
        updated-HasKey (λ x. x.id == i)
          (λ x. record x { supplier_booking_reference = some reference }) s s.booking.history
          (λ x. refl) h;
    inserted = λ row passengers id_row status_row. record { kept = inserted-HasKey row passengers };
    applied = λ input. record { kept = λ s h. record { row = h.row; found = h.found } };
    opened = λ agency. record { kept = λ s h. record { row = h.row; found = h.found } };
    charged = λ target reference amount currency k token. record {
      kept = λ s h. record { row = h.row; found = h.found };
    };
    returned =
        λ target amount currency. record { kept = λ s h. record { row = h.row; found = h.found } };
    framed = λ s s' booking wallet payments le h. record {
      row = h.row;
      found = ap (λ t. find? (λ x. x.idempotency_key == key) t.bookings) booking ∙ h.found;
    };
  }

  -- Where a call returned, there is a booking under the key.
  abbrev OkHas : {A : Type 0} → Result A × Store → Type 0
  OkHas (ok a, s) = HasKey s
  OkHas (err e, s) = Unit {0}

  kept-OkHas : {A : Type 0} (r : Result A × Store) → HasKey r.1 → OkHas r
  kept-OkHas (ok a, s) h = h
  kept-OkHas (err e, s) h = tt

  load_state : (i : ℕ) (s : Store) → (load_booking_detail i s).1 ≡ s
  unfolding load_booking_detail
  load_state i s = elim (Option-cases (find_booking i s)) [
    | inl missing ↦ rw missing refl
    | inr (b, found) ↦ rw found refl
  ]

  module _ (services : Services) (user : AuthenticatedUser) (dto : CreateBookingDto) where
    opened-HasKey :
        (order : Order) (code : ℕ) (s : Store)
        → HasKey (open_booking services user dto key order code s).1
    unfolding open_booking
    opened-HasKey order code s =
        let row = new_booking dto order code key s.next_id in
        (begin-Keeps HasKey (HasKey-IsStepwise services) user dto key order row).kept
          (insert_booking (new_booking dto order code key) dto.passengers s).1
          (record { row = row; found = rw (==_refl key) refl })

    called-OkHas :
        (order : Order) (r : Result Booking × Store)
        → HasKey r.1
        → OkHas (continue (λ b. call_supplier services user dto key order b) r)
    called-OkHas order (ok b, s) h =
        kept-OkHas _
          ((call_supplier-Keeps HasKey (HasKey-IsStepwise services) user dto key order b).kept s h)
    called-OkHas order (err e, s) h = tt

    module _ (profile : Option UserProfile) (draw : ℕ → ℕ) where
      created-OkHas : (s : Store) → OkHas (create_booking services user dto key profile draw s)
      unfolding create_booking
      created-OkHas s = elim (Option-cases (find_by_key key s)) [
        | inr (b, known) ↦ rw known (
            kept-OkHas (load_booking_detail b.id s)
              (rw (load_state b.id s) (record { row = b; found = known })))
        | inl new ↦ rw new (elim (Call-cases (prepare services user dto key profile s)) [
          | inr (e, s1, q) ↦ rw q tt
          | inl (order, s1, q) ↦
              rw q (elim (Option-cases (unique_reference draw (has_reference s1))) [
                | inl clash ↦ rw clash tt
                | inr (code, free) ↦ rw free (
                    called-OkHas order (open_booking services user dto key order code s1)
                      (opened-HasKey order code s1))
              ])
        ])
      ]

  known_quiet :
      (services : Services) (user : AuthenticatedUser) (dto : CreateBookingDto)
      (profile : Option UserProfile) (draw : ℕ → ℕ) (s : Store)
      → HasKey s
      → (create_booking services user dto key profile draw s).1 ≡ s
  unfolding create_booking
  known_quiet services user dto profile draw s h = rw h.found (load_state h.row.id s)

-- After a booking call has returned, whatever came of it, another call under the same key, by
-- whomever and for whatever, changes nothing: no second row, no call of a supplier, no charge.
pub create_booking_once :
    (services services' : Services) (user user' : AuthenticatedUser) (dto dto' : CreateBookingDto)
    (key : ℕ) (profile profile' : Option UserProfile) (draw draw' : ℕ → ℕ) (s : Store)
    {d : BookingDetail} {s' : Store}
    → create_booking services user dto key profile draw s ≡ (ok d, s')
    → (create_booking services' user' dto' key profile' draw' s').1 ≡ s'
create_booking_once services services' user user' dto dto' key profile profile' draw draw' s done =
    known_quiet key services' user' dto' profile' draw' _
      (subst (OkHas key) done (created-OkHas key services user dto profile draw s))
