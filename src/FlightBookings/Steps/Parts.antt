-- ===== src/FlightBookings/Steps/Parts.antt =====
-- The steps that the methods of apps/api/src/modules/bookings/bookings.service.ts share.
use muhammad_tours_and_trave.Prelude.{
  ℕ, ◌≤◌, ◌≡◌, refl, arith, ℤ, Bool, true, false, Option, none, some, List, [], ◌∷◌, any, Result,
  Action, failure, modify, Keeps, bind-Keeps, throw_if-Keeps, or_throw-Keeps, from_result-Keeps,
  gets-Keeps, pure-Keeps, modify-Keeps, attempt-Keeps, length, ◌==◌, ◌&&◌,
}
use muhammad_tours_and_trave.Booking.Status.{BookingStatus, searched, ticketed}
use muhammad_tours_and_trave.Booking.Model.{Booking}
use muhammad_tours_and_trave.Wallet.Model.{ApplyTransactionInput}
use muhammad_tours_and_trave.Wallet.Apply.{apply_transaction, get_or_create_wallet}
use muhammad_tours_and_trave.Payments.Model.{Target}
use muhammad_tours_and_trave.Payments.Charge.{charge_for}
use muhammad_tours_and_trave.Payments.Refund.{refund_for}
use muhammad_tours_and_trave.FlightBookings.Model.{
  PassengerDto, SupplierRequest, issue, IssueTicketResult, FlightSupplierAdapter, Passenger, Ticket,
  AuditAction, booking_ticketed, Notification, Store, Services, on_wallet, on_payments, on_travel,
  find_booking, passengers_of, tickets_of,
}
use muhammad_tours_and_trave.TravelPolicy.Model as T
use muhammad_tours_and_trave.FlightBookings.Suppliers.{
  ask, record_audit, notify, move, write_supplier_reference,
}
use muhammad_tours_and_trave.FlightBookings.Tickets.{
  add_ticket, create_ticket, accept, or_false, issue_one, issue_all, mail_tickets, if_all_issued,
  issue_with, issue_tickets_for_booking,
}
use muhammad_tours_and_trave.FlightBookings.Reads.{detail_of, load_booking_detail}
use muhammad_tours_and_trave.FlightBookings.Create.{insert_booking}

-- The steps keep `I`, which is about nothing but the bookings, the wallets and the payments.
pub record IsStepwise (I : Store → Type 0) (services : Services) : Type 0 where
  pub moved :
      (i : ℕ) (to : BookingStatus) (user reason : Option ℕ) → Keeps I (move i to user reason)
  pub referenced : (i reference : ℕ) (s : Store) → I s → I (write_supplier_reference i reference s)
  pub inserted :
      (row : ℕ → Booking) (passengers : List PassengerDto)
      → ((n : ℕ) → (row n).id ≡ n)
      → ((n : ℕ) → (row n).status ≡ searched)
      → Keeps I (insert_booking row passengers)
  pub applied : (input : ApplyTransactionInput) → Keeps I (on_wallet (apply_transaction input))
  pub opened : (agency : ℕ) → Keeps I (on_wallet (get_or_create_wallet agency))
  pub charged :
      (target : Target) (reference : ℕ) (amount : ℤ) (currency key : ℕ) (token : Option ℕ)
      → Keeps I
          (on_payments (charge_for services.provider target reference amount currency key token))
  pub returned :
      (target : Target) (amount : ℤ) (currency : ℕ)
      → Keeps I (on_payments (refund_for services.provider target amount currency))
  pub framed :
      (s s' : Store)
      → s'.booking ≡ s.booking
      → s'.wallet ≡ s.wallet
      → s'.payments ≡ s.payments
      → s.next_id ≤ s'.next_id
      → I s
      → I s'

module _ (I : Store → Type 0) {services : Services} (k : IsStepwise I services) where
  -- A write to a table that `I` is not about.
  pub elsewhere-Keeps :
      {f : Store → Store}
      → ((s : Store)
          → ((f s).booking ≡ s.booking)
            × ((f s).wallet ≡ s.wallet)
            × ((f s).payments ≡ s.payments)
            × (s.next_id ≤ (f s).next_id))
      → Keeps I (modify f)
  elsewhere-Keeps {f} same =
      modify-Keeps I (λ s h. let e = same s in k.framed s (f s) e.0 e.1 e.2 e.3 h)

  pub audit-Keeps :
      (user : Option ℕ) (action : AuditAction) → Keeps I (modify (record_audit user action))
  audit-Keeps user action = elsewhere-Keeps (λ s. (refl, refl, refl, omega arith))

  pub notify-Keeps : (n : Notification) → Keeps I (modify (notify n))
  notify-Keeps n = elsewhere-Keeps (λ s. (refl, refl, refl, omega arith))

  pub ask-Keeps :
      {A : Type 0} (answer : SupplierRequest → ℕ → Result A) (request : SupplierRequest)
      → Keeps I (ask answer request)
  ask-Keeps answer request = record {
    kept = λ s h. (from_result-Keeps I (answer request (length s.supplier_requests))).kept _ (
        k.framed s (record s { supplier_requests = request ∷ s.supplier_requests }) refl refl refl
          (omega arith) h);
  }

  travel-kept :
      {A : Type 0} (s : Store) (r : Result A × T.Store) → I s → I (record s { travel = r.1 })
  travel-kept s r h = k.framed s (record s { travel = r.1 }) refl refl refl (omega arith) h

  pub travel-Keeps : {A : Type 0} (m : Action T.Store A) → Keeps I (on_travel m)
  travel-Keeps m = record { kept = λ s h. travel-kept s (m s.travel) h }

  pub load-Keeps : (i : ℕ) → Keeps I (load_booking_detail i)
  unfolding load_booking_detail
  load-Keeps i =
      bind-Keeps I (gets-Keeps I {f = find_booking i}) (λ found.
        bind-Keeps I (or_throw-Keeps I found failure) (λ b. gets-Keeps I {f = detail_of b}))

  create_ticket-Keeps :
      (booking_id passenger_id number : ℕ) → Keeps I (create_ticket booking_id passenger_id number)
  create_ticket-Keeps booking_id passenger_id number =
      bind-Keeps I
        (gets-Keeps I {f = λ s. any (λ (t : Ticket). t.ticket_number == number) s.tickets})
        (λ taken. bind-Keeps I (throw_if-Keeps I taken failure) (λ u.
          elsewhere-Keeps {f = add_ticket booking_id passenger_id number}
            (λ s. (refl, refl, refl, omega arith))))

  accept-Keeps :
      (booking_id passenger_id : ℕ) (is_issued : Bool) (numbers : List ℕ)
      → Keeps I (accept booking_id passenger_id is_issued numbers)
  accept-Keeps booking_id passenger_id false numbers = pure-Keeps I
  accept-Keeps booking_id passenger_id true [] = pure-Keeps I
  accept-Keeps booking_id passenger_id true (number ∷ numbers) =
      bind-Keeps I (create_ticket-Keeps booking_id passenger_id number)
        (λ u. pure-Keeps I {a = true})

  module _ (issue_ticket : SupplierRequest → ℕ → Result IssueTicketResult) (i reference : ℕ) where
    issue_one-Keeps : (p : Passenger) → Keeps I (issue_one issue_ticket i reference p)
    unfolding issue_one
    issue_one-Keeps p =
        bind-Keeps I
          (attempt-Keeps I (
            bind-Keeps I (ask-Keeps issue_ticket (issue reference))
              (λ r. accept-Keeps i p.id r.is_issued r.ticket_numbers)))
          (λ r. pure-Keeps I {a = or_false r})

    issue_all-Keeps : (ps : List Passenger) → Keeps I (issue_all issue_ticket i reference ps)
    unfolding issue_all
    issue_all-Keeps [] = pure-Keeps I
    issue_all-Keeps (p ∷ ps) =
        bind-Keeps I (issue_one-Keeps p)
          (λ this. bind-Keeps I (issue_all-Keeps ps) (λ rest. pure-Keeps I {a = this && rest}))

  mail_tickets-Keeps :
      (b : Option Booking) (tickets : List Ticket) → Keeps I (modify (mail_tickets b tickets))
  mail_tickets-Keeps none tickets = elsewhere-Keeps (λ s. (refl, refl, refl, omega arith))
  mail_tickets-Keeps (some b) tickets = elsewhere-Keeps (λ s. (refl, refl, refl, omega arith))

  if_all_issued-Keeps : (c : Bool) (i : ℕ) (user : Option ℕ) → Keeps I (if_all_issued c i user)
  if_all_issued-Keeps false i user = pure-Keeps I
  if_all_issued-Keeps true i user = bind-Keeps I (k.moved i ticketed user none) (λ b.
      bind-Keeps I (audit-Keeps user (booking_ticketed i)) (λ u.
        bind-Keeps I (gets-Keeps I {f = tickets_of i}) (λ tickets.
          bind-Keeps I (gets-Keeps I {f = find_booking i})
            (λ found. mail_tickets-Keeps found tickets))))

  issue_with-Keeps :
      (m : Option (SupplierRequest → ℕ → Result IssueTicketResult)) (i reference : ℕ)
      (user : Option ℕ)
      → Keeps I (issue_with m i reference user)
  issue_with-Keeps none i reference user = pure-Keeps I
  issue_with-Keeps (some issue_ticket) i reference user =
      bind-Keeps I (gets-Keeps I {f = passengers_of i}) (λ ps.
        bind-Keeps I (issue_all-Keeps issue_ticket i reference ps)
          (λ all_issued. if_all_issued-Keeps all_issued i user))

  pub issue_tickets-Keeps :
      (i : ℕ) (adapter : FlightSupplierAdapter) (reference : ℕ) (user : Option ℕ)
      → Keeps I (issue_tickets_for_booking i adapter reference user)
  unfolding issue_tickets_for_booking
  issue_tickets-Keeps i adapter reference user =
      issue_with-Keeps adapter.issue_ticket i reference user
