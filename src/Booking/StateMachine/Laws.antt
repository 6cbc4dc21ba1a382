-- ===== src/Booking/StateMachine/Laws.antt =====
-- What the state machine of the bookings keeps true of `bookings` and `booking_status_history`.
use muhammad_tours_and_trave.Prelude.{
  ℕ, ◌≡◌, ◌≢◌, ◌↔◌, refl, true, false, Bool-cases, Option-cases, inl, inr, some, none, arith, ok,
  err, conflict, failure, IsTraced, update-IsTraced, Result, find?-update_where,
  find?-update_where_ne, ◌==◌,
}
use muhammad_tours_and_trave.Booking.Status.{BookingStatus, searched, is_transition_allowed}
use muhammad_tours_and_trave.Booking.Lifecycle.{◌⟶◌, is_transition_allowed_iff}
use muhammad_tours_and_trave.Booking.Model.{Booking, BookingTables}
use muhammad_tours_and_trave.Booking.StateMachine.{
  TransitionOptions, find_booking, write_status, write_history, transition,
}

-- The tables after a transition that went through.
abbrev pub moved : ℕ → BookingStatus → TransitionOptions → Booking → BookingTables → BookingTables
moved i to o b s =
    write_history
      (record {
        row_id = i;
        from_status = some b.status;
        to_status = to;
        actor_user_id = o.actor_user_id;
        note = o.reason;
      })
      (write_status i to s)

module _ (i : ℕ) (to : BookingStatus) (o : TransitionOptions) (s : BookingTables) where
  pub transition_missing : find_booking i s ≡ none → transition i to o s ≡ (err failure, s)
  unfolding transition
  transition_missing missing = rw missing

  pub transition_refused :
      {b : Booking}
      → find_booking i s ≡ some b
      → is_transition_allowed b.status to ≡ false
      → transition i to o s ≡ (err conflict, s)
  unfolding transition is_transition_allowed
  transition_refused found refused = rw (found, refused)

  pub transition_allowed :
      {b : Booking}
      → find_booking i s ≡ some b
      → is_transition_allowed b.status to ≡ true
      → transition i to o s ≡ (ok (record b { status = to }), moved i to o b s)
  unfolding transition is_transition_allowed
  transition_allowed found allowed = rw (found, allowed)

-- Every booking has the status that its own history explains, starting from SEARCHED.
abbrev pub IsConsistent : BookingTables → Type 0
IsConsistent s =
    IsTraced is_transition_allowed searched false (λ (b : Booking). b.id) (λ b. b.status) s.history
      s.bookings

-- Whatever transition is asked for, and whether or not it goes through, every booking still has
-- the status that its own history explains.
pub transition-IsConsistent :
    (i : ℕ) (to : BookingStatus) (o : TransitionOptions) (s : BookingTables)
    → IsConsistent s
    → IsConsistent (transition i to o s).1
transition-IsConsistent i to o s h = elim (Option-cases (find_booking i s)) [
  | inl missing ↦ rw (transition_missing i to o s missing) h
  | inr (b, found) ↦ elim (Bool-cases (is_transition_allowed b.status to)) [
    | inl allowed ↦ rw (transition_allowed i to o s found allowed) (
        update-IsTraced is_transition_allowed searched false (λ (x : Booking). x.id) (λ x. x.status)
          i b to _ (λ x. record x { status = to }) s.history s.bookings found allowed refl refl refl
          (λ x. refl) (λ x. refl) h)
    | inr refused ↦ rw (transition_refused i to o s found refused) h
  ]
]

-- What a transition can leave behind: the booking that it answers with, in the new status, or
-- nothing new.
abbrev pub Outcome : BookingStatus → BookingTables → Result Booking × BookingTables → ℕ → Type 0
Outcome to s (ok b, s') i = (b.status ≡ to) × (find_booking i s' ≡ some b)
Outcome to s (err e, s') i = s' ≡ s

-- A transition of a booking that exists goes through, with the booking in the new status as its
-- answer, exactly when the diagram has the edge.
transition_iff :
    (i : ℕ) (to : BookingStatus) (o : TransitionOptions) (s : BookingTables) {b : Booking}
    → find_booking i s ≡ some b
    → ((transition i to o s).0 ≡ ok (record b { status = to })) ↔ (b.status ⟶ to)
transition_iff i to o s {b} found = elim (Bool-cases (is_transition_allowed b.status to)) [
  | inl allowed ↦ (
    (λ e. (is_transition_allowed_iff b.status to).0 allowed),
    (λ e. rw (transition_allowed i to o s found allowed)),
  )
  | inr refused ↦ (
    (λ e. cc (transition_refused i to o s found refused)),
    (λ e. cc ((is_transition_allowed_iff b.status to).1 e)),
  )
]

-- A transition that goes through answers with the booking in the new status, which is then the
-- row of the table; one that fails writes nothing.
transition-Outcome :
    (i : ℕ) (to : BookingStatus) (o : TransitionOptions) (s : BookingTables)
    → Outcome to s (transition i to o s) i
transition-Outcome i to o s = elim (Option-cases (find_booking i s)) [
  | inl missing ↦ rw (transition_missing i to o s missing) refl
  | inr (b, found) ↦ elim (Bool-cases (is_transition_allowed b.status to)) [
    | inl allowed ↦ rw (transition_allowed i to o s found allowed) (
      refl,
      find?-update_where (λ x. x.id == i) (λ x. record x { status = to }) s.bookings (λ x. refl)
          found,
    )
    | inr refused ↦ rw (transition_refused i to o s found refused) refl
  ]
]

-- A transition leaves every other booking as it was.
transition_others :
    (i j : ℕ) (to : BookingStatus) (o : TransitionOptions) (s : BookingTables)
    → j ≢ i
    → find_booking j (transition i to o s).1 ≡ find_booking j s
transition_others i j to o s ne = elim (Option-cases (find_booking i s)) [
  | inl missing ↦ rw (transition_missing i to o s missing) refl
  | inr (b, found) ↦ elim (Bool-cases (is_transition_allowed b.status to)) [
    | inl allowed ↦ rw (transition_allowed i to o s found allowed) (
        find?-update_where_ne (λ x. x.id == i) (λ x. x.id == j) (λ x. record x { status = to })
          s.bookings (λ x e. ground arith))
    | inr refused ↦ rw (transition_refused i to o s found refused) refl
  ]
]
