-- ===== src/FlightBookings/Tickets.antt =====
-- `issueTicketsForBooking` of apps/api/src/modules/bookings/bookings.service.ts.
use muhammad_tours_and_trave.Prelude.{
  ℕ, ◌+◌, Bool, true, false, ◌&&◌, ◌==◌, any, map, Option, none, some, List, [], ◌∷◌, Result, ok,
  err, Action, failure, ◌>>=◌, ◌>>◌, pure, gets, modify, throw_if, attempt,
}
use muhammad_tours_and_trave.Booking.Status.{ticketed}
use muhammad_tours_and_trave.Booking.Model.{Booking}
use muhammad_tours_and_trave.FlightBookings.Model.{
  FlightSupplierAdapter, SupplierRequest, issue, IssueTicketResult, Passenger, Ticket, issued,
  ticket_issued_mail, booking_ticketed, Store, find_booking, passengers_of, tickets_of,
}
use muhammad_tours_and_trave.FlightBookings.Suppliers.{ask, record_audit, notify, move}

abbrev pub add_ticket : ℕ → ℕ → ℕ → Store → Store
add_ticket booking_id passenger_id number s = record s {
  tickets =
      record {
        id = s.next_id;
        booking_id = booking_id;
        passenger_id = passenger_id;
        ticket_number = number;
        status = issued;
      }
      ∷ s.tickets;
  next_id = s.next_id + 1;
}

-- `ticket.create`; the ticket number is unique in the table.
abbrev pub create_ticket : ℕ → ℕ → ℕ → Action Store (Unit {0})
create_ticket booking_id passenger_id number = do
  taken ← gets (λ s. any (λ (t : Ticket). t.ticket_number == number) s.tickets)
  throw_if taken failure
  modify (add_ticket booking_id passenger_id number)

-- Whether the answer brings a ticket, which is then written.
abbrev pub accept : ℕ → ℕ → Bool → List ℕ → Action Store Bool
accept booking_id passenger_id false numbers = pure false
accept booking_id passenger_id true [] = pure false
accept booking_id passenger_id true (number ∷ _) = do
  create_ticket booking_id passenger_id number
  pure true

-- The value of the `try`, and of its `catch`.
abbrev pub or_false : Result Bool → Bool
or_false (ok b) = b
or_false (err e) = false

module _ (issue_ticket : SupplierRequest → ℕ → Result IssueTicketResult) (booking_id : ℕ)
    (supplier_booking_reference : ℕ) where
  abbrev pub try_issue : Passenger → Action Store Bool
  try_issue p = do
    result ← ask issue_ticket (issue supplier_booking_reference)
    accept booking_id p.id result.is_issued result.ticket_numbers

  unfoldable pub issue_one : Passenger → Action Store Bool
  issue_one p = do result ← attempt (try_issue p); pure (or_false result)

  -- The loop, with `allIssued` as its value.
  unfoldable pub issue_all : List Passenger → Action Store Bool
  issue_all [] = pure true
  issue_all (p ∷ ps) = do this ← issue_one p; rest ← issue_all ps; pure (this && rest)

abbrev pub mail_tickets : Option Booking → List Ticket → Store → Store
mail_tickets none tickets s = s
mail_tickets (some b) tickets s =
    notify (ticket_issued_mail b.booking_reference (map (λ t. t.ticket_number) tickets)) s

-- `if (allIssued)`
abbrev pub if_all_issued : Bool → ℕ → Option ℕ → Action Store (Unit {0})
if_all_issued false booking_id user = pure tt
if_all_issued true booking_id user = do
  move booking_id ticketed user none
  modify (record_audit user (booking_ticketed booking_id))
  tickets ← gets (tickets_of booking_id)
  booking ← gets (find_booking booking_id)
  modify (mail_tickets booking tickets)

abbrev pub issue_with :
    Option (SupplierRequest → ℕ → Result IssueTicketResult)
    → ℕ
    → ℕ
    → Option ℕ
    → Action Store (Unit {0})
issue_with none booking_id reference user = pure tt
issue_with (some issue_ticket) booking_id reference user = do
  passengers ← gets (passengers_of booking_id)
  all_issued ← issue_all issue_ticket booking_id reference passengers
  if_all_issued all_issued booking_id user

unfoldable pub issue_tickets_for_booking :
    ℕ → FlightSupplierAdapter → ℕ → Option ℕ → Action Store (Unit {0})
issue_tickets_for_booking booking_id adapter reference user =
    issue_with adapter.issue_ticket booking_id reference user
