-- ===== src/Booking/Lifecycle.antt =====
-- What apps/api/src/modules/bookings/booking-status.transitions.ts makes possible over a booking's
-- whole life: the moves of its doc comment and of its table, their closure, and the order that they
-- respect.
use muhammad_tours_and_trave.Prelude.{ℕ, suc, ◌+◌, ◌≤◌, ◌<◌, ◌≡◌, ◌↔◌, refl, true, arith}
use muhammad_tours_and_trave.Booking.Status.{
  BookingStatus, searched, price_pending, price_confirmed, booking_pending, confirmed, ticketed,
  failed, cancelled, expired, refund_pending, refunded, is_transition_allowed,
}

-- The moves that the doc comment above the table describes, status by status.
pub data Described : BookingStatus → BookingStatus → Type 0 where
  start_reprice : Described searched price_pending
  abandon_search : Described searched cancelled
  lapse_search : Described searched expired
  accept_price : Described price_pending price_confirmed
  offer_gone : Described price_pending failed
  call_supplier : Described price_confirmed booking_pending
  abandon_price : Described price_confirmed cancelled
  lapse_price : Described price_confirmed expired
  supplier_holds : Described booking_pending confirmed
  supplier_fails : Described booking_pending failed
  issue : Described confirmed ticketed
  ticketing_fails : Described confirmed failed
  cancel_held : Described confirmed cancelled
  request_refund : Described ticketed refund_pending
  cancel_ticketed : Described ticketed cancelled
  refund_done : Described refund_pending refunded
  refund_rejected : Described refund_pending failed

-- The moves of a booking's life: those, and the two by which a reprice that is in flight is given
-- up, which the table has and the comment does not.
infix 40 ◌⟶◌
pub data ◌⟶◌ : BookingStatus → BookingStatus → Type 0 where
  described : {s t : BookingStatus} → Described s t → s ⟶ t
  abandon_reprice : price_pending ⟶ cancelled
  lapse_reprice : price_pending ⟶ expired

ruleset edges = (
  described, start_reprice, abandon_search, lapse_search, accept_price, offer_gone, abandon_reprice,
  lapse_reprice, call_supplier, abandon_price, lapse_price, supplier_holds, supplier_fails, issue,
  ticketing_fails, cancel_held, request_refund, cancel_ticketed, refund_done, refund_rejected,
)

allowed-⟶ : (s t : BookingStatus) → is_transition_allowed s t ≡ true → s ⟶ t
unfolding is_transition_allowed
allowed-⟶ searched t h = grind (arith, edges)
allowed-⟶ _ t h = grind (arith, edges)

Described-allowed : {s t : BookingStatus} → Described s t → is_transition_allowed s t ≡ true
unfolding is_transition_allowed
Described-allowed start_reprice = refl
Described-allowed _ = refl

⟶-allowed : {s t : BookingStatus} → s ⟶ t → is_transition_allowed s t ≡ true
unfolding is_transition_allowed
⟶-allowed (described d) = Described-allowed d
⟶-allowed abandon_reprice = refl
⟶-allowed lapse_reprice = refl

-- How far a booking has come. Nothing follows the last stage.
abbrev pub stage : BookingStatus → ℕ
stage searched = 0
stage price_pending = 1
stage price_confirmed = 2
stage booking_pending = 3
stage confirmed = 4
stage ticketed = 5
stage refund_pending = 6
stage _ = 7

-- A run of allowed moves, with their number.
pub data Run : BookingStatus → BookingStatus → ℕ → Type 0 where
  here : {s : BookingStatus} → Run s s 0
  next : {s t u : BookingStatus} {n : ℕ} → Run s t n → t ⟶ u → Run s u (suc n)

Described-stage : {s t : BookingStatus} → Described s t → stage s < stage t
Described-stage start_reprice = omega arith
Described-stage _ = omega arith

⟶-stage : {s t : BookingStatus} → s ⟶ t → stage s < stage t
⟶-stage (described d) = Described-stage d
⟶-stage abandon_reprice = omega arith
⟶-stage lapse_reprice = omega arith

stage-le : (s : BookingStatus) → stage s ≤ 7
stage-le searched = omega arith
stage-le _ = omega arith

-- The test of the service answers true exactly for the moves that the doc comment describes and for
-- two more: a booking may also be cancelled or expire while its reprice is in flight.
pub is_transition_allowed_iff : (s t : BookingStatus) → (is_transition_allowed s t ≡ true) ↔ (s ⟶ t)
is_transition_allowed_iff s t = (allowed-⟶ s t, ⟶-allowed)

-- A run of n allowed moves gets at least n stages further.
pub Run-stage : {s t : BookingStatus} {n : ℕ} → Run s t n → n + stage s ≤ stage t
Run-stage here = omega arith
Run-stage (next r e) = omega (arith, Run-stage r, ⟶-stage e)

-- A run of moves that the service's own test lets through, with their number.
pub data Walk : BookingStatus → BookingStatus → ℕ → Type 0 where
  start : {s : BookingStatus} → Walk s s 0
  step :
      {s t u : BookingStatus} {n : ℕ}
      → Walk s t n
      → is_transition_allowed t u ≡ true
      → Walk s u (suc n)

Walk-Run : {s t : BookingStatus} {n : ℕ} → Walk s t n → Run s t n
Walk-Run start = here
Walk-Run (step {s} {t} {u} w e) = next (Walk-Run w) (allowed-⟶ t u e)

-- The service's test lets no booking make more than seven moves in its whole life, so that no run
-- of them leads back to a status that it has left.
pub Walk-bounded : {s t : BookingStatus} {n : ℕ} → Walk s t n → n ≤ 7
Walk-bounded {t} w = omega (arith, Run-stage (Walk-Run w), stage-le t)
