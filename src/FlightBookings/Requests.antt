-- ===== src/FlightBookings/Requests.antt =====
-- The endpoints that change bookings: apps/api/src/modules/bookings/bookings.controller.ts and
-- apps/api/src/modules/corporate-approvals/corporate-approvals.controller.ts.
use muhammad_tours_and_trave.Prelude.{ℕ, Option, List, [], ◌∷◌, Action, ◌>>=◌, pure}
use muhammad_tours_and_trave.Access.{AuthenticatedUser, UserProfile}
use muhammad_tours_and_trave.FlightBookings.Model.{CreateBookingDto, Store, Services}
use muhammad_tours_and_trave.FlightBookings.Create.{create_booking}
use muhammad_tours_and_trave.FlightBookings.Cancel.{cancel_booking}
use muhammad_tours_and_trave.FlightBookings.Approvals.{DecideApprovalDto, decide}

pub data Request : Type 0 where
  post_booking : AuthenticatedUser → Option UserProfile → CreateBookingDto → ℕ → (ℕ → ℕ) → Request
  post_cancellation : AuthenticatedUser → Option UserProfile → ℕ → Option ℕ → Request
  post_decision : AuthenticatedUser → DecideApprovalDto → ℕ → Request

abbrev pub done : {A : Type 0} → Action Store A → Action Store (Unit {0})
done m = m >>= λ _. pure tt

unfoldable pub handle : Services → Request → Action Store (Unit {0})
handle services (post_booking user profile dto key draw) =
    done (create_booking services user dto key profile draw)
handle services (post_cancellation user profile i reason) =
    done (cancel_booking services user profile i reason)
handle services (post_decision user dto i) = done (decide services user dto i)

-- What any number of requests leaves, one after the other, whether they return or throw.
unfoldable pub handle_all : List (Services × Request) → Store → Store
handle_all [] s = s
handle_all ((services, request) ∷ requests) s = handle_all requests (handle services request s).1
