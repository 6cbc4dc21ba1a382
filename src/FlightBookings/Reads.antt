-- ===== src/FlightBookings/Reads.antt =====
-- What a booking shows and to whom: the reading methods of
-- apps/api/src/modules/bookings/bookings.service.ts, and who may cancel.
pub mod Laws
use muhammad_tours_and_trave.Prelude.{
  ℕ, ◌==◌, Bool, true, false, not, ◌&&◌, ◌||◌, if◌then◌else◌, Option, none, some, List, [], ◌∷◌,
  same_id, is_some, Action, conflict, forbidden, failure, ◌>>=◌, ◌>>◌, pure, gets, throw_if,
  or_throw, caught, find?, find_many, trail, oldest_first,
}
use muhammad_tours_and_trave.Roles.{
  booking_read_any, booking_read_agency, booking_cancel_any, booking_cancel_own, includes,
}
use muhammad_tours_and_trave.Access.{
  AuthenticatedUser, UserProfile, Actor, Owner, resolve_actor, owns_it, is_mine,
}
use muhammad_tours_and_trave.Booking.Model.{Booking}
use muhammad_tours_and_trave.FlightBookings.Model.{
  FlightSupplierAdapter, FlightOffer, Agent, Store, Services, BookingDetail, find_offer,
  find_booking, find_agent, passengers_of, tickets_of, refunds_of,
}

abbrev pub owner_of : Booking → Owner
owner_of b = record {
  customer_id = b.customer_id;
  agent_id = b.agent_id;
  employee_id = b.employee_id;
}

-- The relations `offer.supplier` and `agent.agencyId` of a booking.
abbrev supplier_of : Option FlightOffer → Option ℕ
supplier_of none = none
supplier_of (some o) = some o.supplier_code

abbrev agency_of : Option Agent → Option ℕ
agency_of none = none
agency_of (some a) = some a.agency_id

abbrev pub agency_of_agent : Option ℕ → Store → Option ℕ
agency_of_agent none s = none
agency_of_agent (some i) s = agency_of (find_agent i s)

abbrev pub detail_of : Booking → Store → BookingDetail
detail_of b s = record {
  booking = b;
  supplier_code = supplier_of (find_offer b.offer_id s);
  passengers = passengers_of b.id s;
  tickets = tickets_of b.id s;
  status_history = oldest_first (trail b.id s.booking.history);
  refunds = refunds_of b.id s;
  agency_id = agency_of_agent b.agent_id s;
}

-- `loadBookingDetail`, and `getBookingForInternalUse`, which is the same
unfoldable pub load_booking_detail : ℕ → Action Store BookingDetail
load_booking_detail i = do
  found ← gets (find_booking i)
  b ← or_throw found failure
  gets (detail_of b)

abbrev agency_id_of : Option Actor → Option ℕ
agency_id_of none = none
agency_id_of (some a) = a.agency_id

unfoldable pub can_view : AuthenticatedUser → Option Actor → BookingDetail → Bool
can_view user actor d =
    includes user.permissions booking_read_any
    || (includes user.permissions booking_read_agency && same_id (agency_id_of actor) d.agency_id)
    || owns_it actor (owner_of d.booking)

-- `assertCanView`
abbrev pub assert_can_view :
    AuthenticatedUser → Option Actor → BookingDetail → Action Store (Unit {0})
assert_can_view user actor d = throw_if (not (can_view user actor d)) forbidden

unfoldable pub can_cancel : AuthenticatedUser → Option Actor → BookingDetail → Bool
can_cancel user actor d =
    includes user.permissions booking_cancel_any
    || (includes user.permissions booking_cancel_own && owns_it actor (owner_of d.booking))

-- `assertCanCancel`
abbrev pub assert_can_cancel :
    AuthenticatedUser → Option Actor → BookingDetail → Action Store (Unit {0})
assert_can_cancel user actor d = throw_if (not (can_cancel user actor d)) forbidden

module _ (user : AuthenticatedUser) (profile : Option UserProfile) where
  -- `this.resolveActor(user).catch(() => null)`
  abbrev pub actor_or_null : Option Actor
  actor_or_null = caught (resolve_actor forbidden profile)

  unfoldable pub get_booking : ℕ → Action Store BookingDetail
  get_booking i = do d ← load_booking_detail i; assert_can_view user actor_or_null d; pure d

  -- `where` of `listMyBookings`
  abbrev pub is_listed : Actor → Store → Booking → Bool
  is_listed actor s b =
      if is_some actor.agency_id && includes user.permissions booking_read_agency
      then same_id actor.agency_id (agency_of_agent b.agent_id s)
      else is_mine actor (owner_of b)

  abbrev listed_for : Option Actor → Store → List Booking
  listed_for none s = []
  listed_for (some actor) s = find_many (is_listed actor s) s.booking.bookings

  unfoldable pub list_my_bookings : Action Store (List Booking)
  list_my_bookings = gets (listed_for actor_or_null)

  abbrev by_reference_for : Option Actor → ℕ → Store → Option Booking
  by_reference_for none reference s = none
  by_reference_for (some actor) reference s =
      find? (λ b. b.booking_reference == reference && is_mine actor (owner_of b)) s.booking.bookings

  -- `normalized` is what `trim().toUpperCase()` makes of the text of a chat message.
  unfoldable pub find_my_booking_by_reference : (ℕ → ℕ) → ℕ → Action Store (Option Booking)
  find_my_booking_by_reference normalized reference =
      gets (by_reference_for actor_or_null (normalized reference))

abbrev pub registered : Services → Option ℕ → Option FlightSupplierAdapter
registered services none = none
registered services (some code) = services.adapter_of code

unfoldable pub get_adapter_for_booking : Services → ℕ → Action Store (FlightSupplierAdapter × ℕ)
get_adapter_for_booking services i = do
  d ← load_booking_detail i
  reference ← or_throw d.booking.supplier_booking_reference conflict
  adapter ← or_throw (registered services d.supplier_code) conflict
  pure (adapter, reference)
