-- ===== src/Booking/Status.antt =====
-- apps/api/src/modules/bookings/booking-status.transitions.ts: the statuses of a flight booking
-- and the table of allowed transitions.
use muhammad_tours_and_trave.Prelude.{ℕ, Bool, List, [], ◌∷◌, ◌==◌, any}

pub data BookingStatus : Type 0 where
  searched price_pending price_confirmed booking_pending confirmed ticketed : BookingStatus
  failed cancelled expired refund_pending refunded : BookingStatus

-- A number for each status, to compare statuses by.
abbrev pub rank : BookingStatus → ℕ
rank searched = 0
rank price_pending = 1
rank price_confirmed = 2
rank booking_pending = 3
rank confirmed = 4
rank ticketed = 5
rank failed = 6
rank cancelled = 7
rank expired = 8
rank refund_pending = 9
rank refunded = 10

-- `===` on statuses
abbrev pub same_status : BookingStatus → BookingStatus → Bool
same_status a b = rank a == rank b

-- `Array.includes`
abbrev pub includes : List BookingStatus → BookingStatus → Bool
includes l s = any (λ x. same_status x s) l

unfoldable pub allowed_booking_transitions : BookingStatus → List BookingStatus
allowed_booking_transitions searched = price_pending ∷ cancelled ∷ expired ∷ []
allowed_booking_transitions price_pending = price_confirmed ∷ failed ∷ cancelled ∷ expired ∷ []
allowed_booking_transitions price_confirmed = booking_pending ∷ cancelled ∷ expired ∷ []
allowed_booking_transitions booking_pending = confirmed ∷ failed ∷ []
allowed_booking_transitions confirmed = ticketed ∷ failed ∷ cancelled ∷ []
allowed_booking_transitions ticketed = refund_pending ∷ cancelled ∷ []
allowed_booking_transitions failed = []
allowed_booking_transitions cancelled = []
allowed_booking_transitions expired = []
allowed_booking_transitions refund_pending = refunded ∷ failed ∷ []
allowed_booking_transitions refunded = []

unfoldable pub is_transition_allowed : BookingStatus → BookingStatus → Bool
unfolding allowed_booking_transitions
is_transition_allowed from to = includes (allowed_booking_transitions from) to
