-- ===== src/FlightBookings/Lives.antt =====
-- What becomes of a booking over any number of requests to
-- apps/api/src/modules/bookings/bookings.service.ts.
use muhammad_tours_and_trave.Prelude.{
  ℕ, suc, ◌<◌, ◌≤◌, ◌≡◌, refl, sym, subst, ◌∙◌, ap, true, false, Option, some, inl, inr, Bool-cases,
  Option-cases, List, ◌==◌, ==_iff, arith, All, All-imp, All-find?, find?, find?-holds,
  find?-update_where, find?-update_where_any, find?-update_where_ne, update_where, All-update_where,
  if◌then◌else◌,
}
use muhammad_tours_and_trave.Booking.Status.{BookingStatus, is_transition_allowed}
use muhammad_tours_and_trave.Booking.Lifecycle.{Run, here, next, is_transition_allowed_iff}
use muhammad_tours_and_trave.Booking.Model.{Booking}
use muhammad_tours_and_trave.Booking.StateMachine.{TransitionOptions, transition}
use muhammad_tours_and_trave.Booking.StateMachine as M
use muhammad_tours_and_trave.Booking.StateMachine.Laws.{
  transition_missing, transition_refused, transition_allowed,
}
use muhammad_tours_and_trave.FlightBookings.Model.{PassengerDto, Store, Services, find_booking}
use muhammad_tours_and_trave.FlightBookings.Suppliers.{move, write_supplier_reference}
use muhammad_tours_and_trave.FlightBookings.Reads.{owner_of}
use muhammad_tours_and_trave.FlightBookings.Create.{insert_booking}
use muhammad_tours_and_trave.FlightBookings.Requests.{Request, handle_all}
use muhammad_tours_and_trave.FlightBookings.Steps.Parts.{IsStepwise}
use muhammad_tours_and_trave.FlightBookings.Steps.Deciding.{handle_all-kept}

-- A later row of the same booking: its status was reached by allowed moves, and what it costs,
-- whose it is and the key that it was made under are what they were.
pub record Succeeds (b b' : Booking) : Type 0 where
  pub moves : ℕ
  pub run : Run b.status b'.status moves
  pub amount : b'.total_amount ≡ b.total_amount
  pub owner : owner_of b' ≡ owner_of b
  pub key : b'.idempotency_key ≡ b.idempotency_key

-- Ids are given out once.
abbrev pub AreIssued : ℕ → List Booking → Type 0
AreIssued n rows = All (λ (b : Booking). b.id < n) rows

-- A booking of `s` is still there, and a later row of itself.
pub record Follows (i : ℕ) (b : Booking) (s : Store) : Type 0 where
  pub row : Booking
  pub found : find_booking i s ≡ some row
  pub later : Succeeds b row
  pub issued : AreIssued s.next_id s.booking.bookings

step_Succeeds :
    (b c : Booking) (to : BookingStatus)
    → is_transition_allowed c.status to ≡ true
    → Succeeds b c
    → Succeeds b (record c { status = to })
step_Succeeds b c to allowed h = record {
  moves = suc h.moves;
  run = next h.run ((is_transition_allowed_iff c.status to).0 allowed);
  amount = h.amount;
  owner = h.owner;
  key = h.key;
}

module _ (i : ℕ) (b : Booking) where
  moved_found :
      (j : ℕ) (to : BookingStatus) (c d : Booking) (rows : List Booking)
      → find? (λ x. x.id == j) rows ≡ some d
      → is_transition_allowed d.status to ≡ true
      → find? (λ x. x.id == i) rows ≡ some c
      → Succeeds b c
      → (c' : Booking) × (find?
            (λ x. x.id == i)
            (update_where (λ x. x.id == j) (λ x. record x { status = to }) rows)
          ≡ some c')
        × Succeeds b c'
  moved_found j to c d rows found_d allowed found h = elim (Bool-cases (i == j)) [
    | inl hit ↦
        let same : i ≡ j = (==_iff i j).0 hit in
        let the_same : c ≡ d = ground (arith, found, found_d, same) in
        (
          record c { status = to },
          subst
              (λ k.
                find? (λ x. x.id == i)
                  (update_where (λ x. x.id == k) (λ x. record x { status = to }) rows)
                ≡ some (record c { status = to }))
              same
              (find?-update_where (λ x. x.id == i) (λ x. record x { status = to }) rows (λ x. refl)
                found),
          step_Succeeds b c to
              (subst (λ x. is_transition_allowed x.status to ≡ true) (sym the_same) allowed) h,
        )
    | inr miss ↦ (
      c,
      find?-update_where_ne (λ x. x.id == j) (λ x. x.id == i) (λ x. record x { status = to }) rows
            (λ x e. (ground (arith, miss), ground (arith, miss)))
          ∙ found,
      h,
    )
  ]

  transition-Follows :
      (j : ℕ) (to : BookingStatus) (o : TransitionOptions) (s : Store)
      → Follows i b s
      → Follows i b (record s { booking = (transition j to o s.booking).1 })
  transition-Follows j to o s h = elim (Option-cases (M.find_booking j s.booking)) [
    | inl missing ↦
        rw (transition_missing j to o s.booking missing)
          (record { row = h.row; found = h.found; later = h.later; issued = h.issued })
    | inr (d, found) ↦ elim (Bool-cases (is_transition_allowed d.status to)) [
      | inl allowed ↦
          let (c, found', later) =
            moved_found j to h.row d s.booking.bookings found allowed h.found h.later in
          rw (transition_allowed j to o s.booking found allowed) (record {
            row = c;
            found = found';
            later = later;
            issued =
                All-update_where _ (λ x. x.id == j) (λ x. record x { status = to })
                  s.booking.bookings (λ x hit lt. lt) h.issued;
          })
      | inr refused ↦
          rw (transition_refused j to o s.booking found refused)
            (record { row = h.row; found = h.found; later = h.later; issued = h.issued })
    ]
  ]

  move-Follows :
      (j : ℕ) (to : BookingStatus) (user reason : Option ℕ) (s : Store)
      → Follows i b s
      → Follows i b (move j to user reason s).1
  unfolding move
  move-Follows j to user reason s h =
      transition-Follows j to (record { actor_user_id = user; reason = reason }) s h

  referenced-Follows :
      (j reference : ℕ) (s : Store)
      → Follows i b s
      → Follows i b (write_supplier_reference j reference s)
  referenced-Follows j reference s h =
      let f : Booking → Booking = λ x. record x { supplier_booking_reference = some reference } in
      record {
        row = if h.row.id == j then f h.row else h.row;
        found =
            find?-update_where_any (λ x. x.id == j) (λ x. x.id == i) f s.booking.bookings
              (λ x. refl) h.found;
        later = elim (Bool-cases (h.row.id == j)) [
          | inl hit ↦ rw hit (record {
            moves = h.later.moves;
            run = h.later.run;
            amount = h.later.amount;
            owner = h.later.owner;
            key = h.later.key;
          })
          | inr miss ↦ rw miss h.later
        ];
        issued = All-update_where _ (λ x. x.id == j) f s.booking.bookings (λ x hit lt. lt) h.issued;
      }

  inserted-Follows :
      (row : ℕ → Booking) (passengers : List PassengerDto)
      → ((n : ℕ) → (row n).id ≡ n)
      → (s : Store) → Follows i b s
      → Follows i b (insert_booking row passengers s).1
  inserted-Follows row passengers id_row s h =
      let same : h.row.id ≡ i =
        (==_iff h.row.id i).0 (find?-holds (λ x. x.id == i) s.booking.bookings h.found) in
      let lt : h.row.id < s.next_id =
        All-find? _ (λ x. x.id == i) s.booking.bookings h.issued h.found in
      let is_new : (row s.next_id).id ≡ s.next_id = id_row s.next_id in
      let miss : ((row s.next_id).id == i) ≡ false = ground (arith, same, lt, is_new) in
      record {
        row = h.row;
        found = rw miss h.found;
        later = h.later;
        issued = (
          omega arith,
          All-imp _ _ s.booking.bookings (λ x (l : x.id < s.next_id). omega arith) h.issued,
        );
      }

  framed-Follows :
      (s s' : Store)
      → s'.booking ≡ s.booking
      → s.next_id ≤ s'.next_id
      → Follows i b s
      → Follows i b s'
  framed-Follows s s' same le h = record {
    row = h.row;
    found = ap (λ t. M.find_booking i t) same ∙ h.found;
    later = h.later;
    issued =
        subst (λ t. AreIssued s'.next_id t.bookings) (sym same)
          (All-imp _ _ s.booking.bookings (λ x (l : x.id < s.next_id). omega arith) h.issued);
  }

  same_tables :
      (s s' : Store)
      → s'.booking ≡ s.booking
      → s'.next_id ≡ s.next_id
      → Follows i b s
      → Follows i b s'
  same_tables s s' same n h = framed-Follows s s' same (omega (arith, n)) h

  Follows-IsStepwise : (services : Services) → IsStepwise (Follows i b) services
  Follows-IsStepwise services = record {
    moved = λ j to user reason. record { kept = move-Follows j to user reason };
    referenced = referenced-Follows;
    inserted = λ row passengers id_row status_row. record {
      kept = inserted-Follows row passengers id_row;
    };
    applied = λ input. record { kept = λ s h. same_tables s _ refl refl h };
    opened = λ agency. record { kept = λ s h. same_tables s _ refl refl h };
    charged = λ target reference amount currency key token. record {
      kept = λ s h. same_tables s _ refl refl h;
    };
    returned = λ target amount currency. record { kept = λ s h. same_tables s _ refl refl h };
    framed = λ s s' booking wallet payments le h. framed-Follows s s' booking le h;
  }

-- Where ids are given out once, a booking outlives every sequence of requests, whatever they are
-- and however they end: its status has moved along the diagram of the state machine and in no other
-- way, and it still costs what it cost, belongs to whom it belonged, and has its key.
pub handle_all-Succeeds :
    (requests : List (Services × Request)) (i : ℕ) (b : Booking) (s : Store)
    → AreIssued s.next_id s.booking.bookings
    → find_booking i s ≡ some b
    → (b' : Booking) × (find_booking i (handle_all requests s) ≡ some b') × Succeeds b b'
handle_all-Succeeds requests i b s issued found =
    let h = handle_all-kept (Follows i b) (Follows-IsStepwise i b) requests s (record {
      row = b;
      found = found;
      later = record { moves = 0; run = here; amount = refl; owner = refl; key = refl };
      issued = issued;
    }) in
    (h.row, h.found, h.later)
