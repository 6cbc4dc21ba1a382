-- ===== src/FlightBookings/Tests.antt =====
-- The theorems on flight bookings at small tables: a customer who books and cancels, and a company
-- whose approver rejects.
use muhammad_tours_and_trave.Prelude.{
  ℕ, suc, ◌≡◌, refl, arith, pos, true, false, some, none, List, [], ◌∷◌, ok, err, conflict, All,
  round2, of_cents, ◌+ℤ◌, map, draw_unique,
}
use muhammad_tours_and_trave.Roles.{booking_cancel_own, booking_read_own}
use muhammad_tours_and_trave.Access.{AuthenticatedUser, UserProfile, resolve_actor}
use muhammad_tours_and_trave.Booking.Status.{
  searched, price_pending, price_confirmed, booking_pending, confirmed, is_transition_allowed,
}
use muhammad_tours_and_trave.Booking.Model.{Booking, b2c, corporate}
use muhammad_tours_and_trave.Payments.Tests.{generous, no_payments}
use muhammad_tours_and_trave.TravelPolicy.Model.{economy}
use muhammad_tours_and_trave.FlightBookings.Model.{
  PassengerDto, adult, CreateBookingDto, FlightSupplierAdapter, booking_confirmed, FlightOffer,
  ApprovalStatus, Store, Services, find_booking,
}
use muhammad_tours_and_trave.FlightBookings.Suppliers.{move}
use muhammad_tours_and_trave.FlightBookings.Reads.{
  detail_of, load_booking_detail, can_view, actor_or_null, get_booking, list_my_bookings,
}
use muhammad_tours_and_trave.FlightBookings.Reads.Laws.{
  list_my_bookings-viewed, Answer, get_booking-own,
}
use muhammad_tours_and_trave.FlightBookings.Pricing.{
  count_passengers, quote, assert_agency_can_pay, check_policy,
}
use muhammad_tours_and_trave.FlightBookings.Tickets.{issue_tickets_for_booking}
use muhammad_tours_and_trave.FlightBookings.Create.{
  prepare, begin, open_booking, call_supplier, settle, pay, ticket_or_gate, create_booking,
}
use muhammad_tours_and_trave.Booking.StateMachine.{transition}
use muhammad_tours_and_trave.Payments.Charge.{charge_for}
use muhammad_tours_and_trave.FlightBookings.Create.Retry.{create_booking_once}
use muhammad_tours_and_trave.FlightBookings.Cancel.{perform_cancellation}
use muhammad_tours_and_trave.FlightBookings.Cancel.Whole.{Outcome, perform_cancellation-Outcome}
use muhammad_tours_and_trave.FlightBookings.Approvals.{
  DecideApprovalDto, reject, decide, resolve_approver_corporate_id,
}
use muhammad_tours_and_trave.FlightBookings.Requests.{
  Request, post_booking, post_cancellation, handle_all,
}
use muhammad_tours_and_trave.FlightBookings.Histories.{IsSound, handle_all-IsSound}
use muhammad_tours_and_trave.FlightBookings.Ledgers.{IsBalanced, handle_all-IsBalanced}
use muhammad_tours_and_trave.FlightBookings.Lives.{Succeeds, handle_all-Succeeds}

-- An adapter that holds every price, books at once, tickets, and declines every cancellation.
abbrev strict : FlightSupplierAdapter
strict = record {
  reprice_flight =
      λ q n. ok (record { still_available = true; price_changed = false; new_total = none });
  create_booking =
      λ q n. ok (record { supplier_booking_reference = 900; status = booking_confirmed });
  issue_ticket = none;
  cancel_booking = some (λ q n. ok (record { is_failed = true }));
  refund_booking = none;
}

abbrev services : Services
services = record {
  adapter_of = λ code. some strict;
  provider = generous;
  fx = none;
  upper = λ code. code;
  now = 100;
  refund_key = λ i. suc i;
}

abbrev flight : FlightOffer
flight = record {
  id = 1;
  search_channel = b2c;
  search_expires_at = 500;
  supplier_code = 3;
  supplier_offer_id = 77;
  cabin = economy;
  base_fare = pos 40000;
  taxes = pos 5000;
  fees = pos 1000;
  markup_amount = pos 2000;
  currency = 0;
}

-- A booking that a supplier holds, with its history.
abbrev held : Booking
held = record {
  id = 2;
  booking_reference = 200;
  offer_id = 1;
  channel = b2c;
  customer_id = some 4;
  agent_id = none;
  employee_id = none;
  cost_center_id = none;
  policy_violation_note = none;
  contact_name = 20;
  contact_email = 21;
  contact_phone = 22;
  whatsapp_number = none;
  status = confirmed;
  currency = 0;
  total_amount = pos 48000;
  idempotency_key = 600;
  supplier_booking_reference = some 899;
}

abbrev tables : Store
tables = record {
  booking = record {
    bookings = held ∷ [];
    history =
        record {
          row_id = 2;
          from_status = some booking_pending;
          to_status = confirmed;
          actor_user_id = some 8;
          note = none;
        }
        ∷ record {
          row_id = 2;
          from_status = some price_confirmed;
          to_status = booking_pending;
          actor_user_id = some 8;
          note = none;
        }
        ∷ record {
          row_id = 2;
          from_status = some price_pending;
          to_status = price_confirmed;
          actor_user_id = some 8;
          note = some 2;
        }
        ∷ record {
          row_id = 2;
          from_status = some searched;
          to_status = price_pending;
          actor_user_id = some 8;
          note = some 0;
        }
        ∷ [];
  };
  wallet = record { agencies = []; wallets = []; transactions = []; audit = []; next_id = 1 };
  payments = no_payments;
  travel = record {
    corporates = 50 ∷ [];
    departments = [];
    employees =
        record {
          id = 30;
          user_id = 40;
          corporate_id = 50;
          department_id = none;
          cost_center_id = none;
        }
        ∷ [];
    cost_centers = [];
    policies = [];
    department_policies = [];
    fx = record { live_cache = none; requests = [] };
    audit = [];
    next_id = 1;
  };
  offers = flight ∷ [];
  passengers = [];
  tickets = [];
  refunds = [];
  approvals = [];
  agents = [];
  audit = [];
  notifications = [];
  sheet = [];
  supplier_requests = [];
  next_id = 3;
}

abbrev traveller : AuthenticatedUser
traveller = record { id = 8; permissions = booking_read_own ∷ booking_cancel_own ∷ [] }

abbrev customer : UserProfile
customer = record { customer = some 4; agent = none; employee = none }

abbrev passenger : PassengerDto
passenger = record {
  type_ = adult;
  title = 0;
  first_name = 1;
  middle_name = none;
  last_name = 2;
  date_of_birth = 3;
  gender = none;
  nationality = none;
  passport_number = none;
  passport_expiry = none;
  passport_issuing_country = none;
}

abbrev order : CreateBookingDto
order = record {
  offer_id = 1;
  passengers = passenger ∷ [];
  contact_name = 20;
  contact_email = 21;
  contact_phone = 22;
  whatsapp_number = none;
  accepted_total_fare = none;
  cost_center_id = none;
  payment_method_token = some 5;
}

abbrev draw : ℕ → ℕ
draw attempt = suc attempt

abbrev requests : List (Services × Request)
requests =
    (services, post_booking traveller (some customer) order 601 draw)
    ∷ (services, post_cancellation traveller (some customer) 2 none)
    ∷ []

tables-IsSound : IsSound tables
unfolding is_transition_allowed
tables-IsSound = record {
  accounted = record {
    traced = ((refl, (refl, (refl, (refl, (refl, (refl, (refl, (refl, (refl, refl))))))))), tt);
    used = (omega arith, (omega arith, (omega arith, (omega arith, tt))));
    issued = (omega arith, tt);
  };
}

handle_all-IsSound_example : IsSound (handle_all requests tables)
handle_all-IsSound_example = handle_all-IsSound requests tables tables-IsSound

tables-IsBalanced : IsBalanced tables
tables-IsBalanced = record {
  ledger = record { balanced = tt; chained = tt; used = tt; issued = tt };
}

handle_all-IsBalanced_example : IsBalanced (handle_all requests tables)
handle_all-IsBalanced_example = handle_all-IsBalanced requests tables tables-IsBalanced

handle_all-Succeeds_example :
    (b' : Booking) × (find_booking 2 (handle_all requests tables) ≡ some b') × Succeeds held b'
handle_all-Succeeds_example = handle_all-Succeeds requests 2 held tables (omega arith, tt) refl

perform_cancellation-Outcome_example :
    Outcome
      (some 8)
      none
      services
      (detail_of held tables)
      tables
      (perform_cancellation (detail_of held tables) (some 8) none services tables)
perform_cancellation-Outcome_example =
    perform_cancellation-Outcome (some 8) none services (detail_of held tables) tables refl

list_my_bookings-viewed_example :
    (l : List Booking) × (list_my_bookings traveller (some customer) tables ≡ (ok l, tables))
    × All
        (λ b.
          can_view traveller (actor_or_null traveller (some customer)) (detail_of b tables) ≡ true)
        l
list_my_bookings-viewed_example = list_my_bookings-viewed traveller (some customer) tables

get_booking-own_example :
    Answer traveller
      (some customer)
      tables
      4
      customer
      refl
      refl
      refl
      refl
      2
      (get_booking traveller (some customer) 2 tables)
get_booking-own_example =
    get_booking-own traveller (some customer) tables 4 customer refl refl refl refl 2

-- The call of `requests` that books, and what it leaves.
abbrev after : Store
after = (create_booking services traveller order 601 (some customer) draw tables).1

abbrev booked : Booking
booked = record held {
  id = 3;
  booking_reference = 1;
  idempotency_key = 601;
  supplier_booking_reference = some 900;
}

booked_at_once :
    create_booking services traveller order 601 (some customer) draw tables
    ≡ (ok (detail_of booked after), after)
unfolding create_booking prepare quote resolve_actor assert_agency_can_pay check_policy open_booking
    begin move transition call_supplier settle pay ticket_or_gate issue_tickets_for_booking
    load_booking_detail count_passengers charge_for draw_unique round2 of_cents ◌+ℤ◌
booked_at_once = refl

create_booking_once_example :
    (create_booking services traveller order 601 (some customer) draw after).1 ≡ after
create_booking_once_example =
    create_booking_once services services traveller traveller order order 601 (some customer)
      (some customer) draw draw tables {d = detail_of booked after} {s' = after} booked_at_once

-- A booking of an employee that waits for an approver of the company.
abbrev waiting : Store
waiting = record tables {
  booking = record tables.booking {
    bookings = record held { channel = corporate; customer_id = none; employee_id = some 30 } ∷ [];
  };
  approvals =
      record {
        id = 5;
        booking_id = 2;
        requested_by_employee_id = 30;
        approver_user_id = none;
        status = ApprovalStatus.pending;
        reason = none;
        decided_at = none;
      }
      ∷ [];
}

abbrev approver : AuthenticatedUser
approver = record { id = 40; permissions = [] }

abbrev no : DecideApprovalDto
no = record { decision = reject; reason = none }

abbrev rejected_once : Store
rejected_once = (decide services approver no 5 waiting).1

-- The supplier declines to cancel: the call throws, the approval is REJECTED all the same, the
-- booking stays CONFIRMED, and nobody can decide again.
rejected_but_held :
    ((decide services approver no 5 waiting).0 ≡ err conflict)
    × (map (λ a. a.status) rejected_once.approvals ≡ ApprovalStatus.rejected ∷ [])
    × (map (λ (b : Booking). b.status) rejected_once.booking.bookings ≡ confirmed ∷ [])
    × (decide services approver no 5 rejected_once ≡ (err conflict, rejected_once))
unfolding decide resolve_approver_corporate_id load_booking_detail perform_cancellation
rejected_but_held = (refl, refl, refl, refl)
