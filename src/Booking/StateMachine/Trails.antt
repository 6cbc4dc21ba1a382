-- ===== src/Booking/StateMachine/Trails.antt =====
-- What the history of a booking looks like that the state machine has led to a given status.
use muhammad_tours_and_trave.Prelude.{
  ℕ, ◌≡◌, true, false, Bool, Option-cases, inl, inr, some, arith, List, [], ◌∷◌, Change, ◌==◌, map,
  trail, IsTrail, All-find?,
}
use muhammad_tours_and_trave.Booking.Status.{
  BookingStatus, searched, price_pending, price_confirmed, booking_pending, confirmed, ticketed,
  refund_pending, refunded, failed, cancelled, expired, is_transition_allowed,
}
use muhammad_tours_and_trave.Booking.Model.{Booking, BookingTables}
use muhammad_tours_and_trave.Booking.StateMachine.{find_booking}
use muhammad_tours_and_trave.Booking.StateMachine.Laws.{IsConsistent}

-- The statuses of a booking that has neither failed nor been given up.
abbrev pub is_forward : BookingStatus → Bool
is_forward failed = false
is_forward cancelled = false
is_forward expired = false
is_forward _ = true

-- The statuses that a booking has been in, the latest first, SEARCHED left out.
abbrev pub itinerary : BookingStatus → List BookingStatus
itinerary price_pending = price_pending ∷ []
itinerary price_confirmed = price_confirmed ∷ price_pending ∷ []
itinerary booking_pending = booking_pending ∷ price_confirmed ∷ price_pending ∷ []
itinerary confirmed = confirmed ∷ booking_pending ∷ price_confirmed ∷ price_pending ∷ []
itinerary ticketed = ticketed ∷ confirmed ∷ booking_pending ∷ price_confirmed ∷ price_pending ∷ []
itinerary refund_pending =
    refund_pending ∷ ticketed ∷ confirmed ∷ booking_pending ∷ price_confirmed ∷ price_pending ∷ []
itinerary refunded =
    refunded ∷ refund_pending ∷ ticketed ∷ confirmed ∷ booking_pending ∷ price_confirmed
    ∷ price_pending ∷ []
itinerary _ = []

before :
    (f s : BookingStatus)
    → is_forward s ≡ true
    → is_transition_allowed f s ≡ true
    → (is_forward f ≡ true) × (itinerary s ≡ s ∷ itinerary f)
unfolding is_transition_allowed
before searched s h a = ground arith
before _ s h a = ground arith

IsTrail-itinerary :
    (s : BookingStatus) (l : List (Change BookingStatus))
    → is_forward s ≡ true
    → IsTrail is_transition_allowed searched false s l
    → map (λ c. c.to_status) l ≡ itinerary s
IsTrail-itinerary s [] h t = rw t.1
IsTrail-itinerary s (c ∷ r) h t = elim (Option-cases c.from_status) [
  | inl first ↦ cc ((rw first at t.1).0)
  | inr (f, from) ↦
      let (ok, older) = rw from at t.1 in
      let (forward, unrolled) = before f s h ok in
      rw (unrolled, t.0, IsTrail-itinerary f r forward older)
]

-- In consistent tables the history of a booking that has neither failed nor been given up shows
-- every stage up to its status, each exactly once and in order: no reprice, price confirmation
-- or supplier confirmation is ever skipped.
pub history-itinerary :
    (i : ℕ) (s : BookingTables) {b : Booking}
    → IsConsistent s
    → find_booking i s ≡ some b
    → is_forward b.status ≡ true
    → map (λ c. c.to_status) (trail b.id s.history) ≡ itinerary b.status
history-itinerary i s {b} consistent found forward =
    IsTrail-itinerary b.status (trail b.id s.history) forward
      (All-find? _ (λ x. x.id == i) s.bookings consistent found)
