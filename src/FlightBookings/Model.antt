-- ===== src/FlightBookings/Model.antt =====
-- The tables behind apps/api/src/modules/bookings/bookings.service.ts, those of the services that
-- it calls included, and the adapter of a flight supplier (packages/types/src/flights.ts), which is
-- an argument. Amounts of a row are in cents, those of a request or an adapter in ten-thousandths.
use muhammad_tours_and_trave.Prelude.{
  ℕ, ℤ, Bool, Option, List, Change, Result, Action, find?, find_many, zoom, ◌==◌,
}
use muhammad_tours_and_trave.Booking.Status.{BookingStatus}
use muhammad_tours_and_trave.Booking.Model.{Channel, Booking, BookingTables}
use muhammad_tours_and_trave.Payments.Model.{PaymentProvider, PaymentTables}
use muhammad_tours_and_trave.TravelPolicy.Model.{CabinClass, PolicyNote}
use muhammad_tours_and_trave.Fx.{FxSettings}
use muhammad_tours_and_trave.Wallet.Model as W
use muhammad_tours_and_trave.TravelPolicy.Model as T

pub data PassengerType : Type 0 where
  adult child infant : PassengerType

pub record PassengerDto : Type 0 where
  pub type_ : PassengerType
  pub title : ℕ
  pub first_name : ℕ
  pub middle_name : Option ℕ
  pub last_name : ℕ
  pub date_of_birth : ℕ
  pub gender : Option ℕ
  pub nationality : Option ℕ
  pub passport_number : Option ℕ
  pub passport_expiry : Option ℕ
  pub passport_issuing_country : Option ℕ

pub record CreateBookingDto : Type 0 where
  pub offer_id : ℕ
  pub passengers : List PassengerDto
  pub contact_name : ℕ
  pub contact_email : ℕ
  pub contact_phone : ℕ
  pub whatsapp_number : Option ℕ
  pub accepted_total_fare : Option ℤ
  pub cost_center_id : Option ℕ
  pub payment_method_token : Option ℕ

pub record PassengerCounts : Type 0 where
  pub adults : ℕ
  pub children : ℕ
  pub infants : ℕ

-- What an adapter is asked.
pub data SupplierRequest : Type 0 where
  reprice : ℕ → PassengerCounts → SupplierRequest
  book : ℕ → List PassengerDto → ℕ → ℕ → SupplierRequest
  issue : ℕ → SupplierRequest
  cancel : ℕ → Option ℕ → SupplierRequest
  refund : ℕ → List ℕ → Option ℕ → SupplierRequest

pub record RepriceResult : Type 0 where
  pub still_available : Bool
  pub price_changed : Bool
  pub new_total : Option ℤ

pub data CreateBookingStatus : Type 0 where
  booking_confirmed booking_pending booking_failed : CreateBookingStatus

pub record CreateBookingResult : Type 0 where
  pub supplier_booking_reference : ℕ
  pub status : CreateBookingStatus

pub record IssueTicketResult : Type 0 where
  pub ticket_numbers : List ℕ
  pub is_issued : Bool

-- `status === 'FAILED'` of the answers to a cancellation and to a refund
pub record SupplierAnswer : Type 0 where
  pub is_failed : Bool

-- An adapter answers or throws. The number of the call tells equal requests apart.
pub record FlightSupplierAdapter : Type 0 where
  pub reprice_flight : SupplierRequest → ℕ → Result RepriceResult
  pub create_booking : SupplierRequest → ℕ → Result CreateBookingResult
  pub issue_ticket : Option (SupplierRequest → ℕ → Result IssueTicketResult)
  pub cancel_booking : Option (SupplierRequest → ℕ → Result SupplierAnswer)
  pub refund_booking : Option (SupplierRequest → ℕ → Result SupplierAnswer)

-- A row of `flight_offers`, with what the service reads of its search and its supplier.
pub record FlightOffer : Type 0 where
  pub id : ℕ
  pub search_channel : Channel
  pub search_expires_at : ℕ
  pub supplier_code : ℕ
  pub supplier_offer_id : ℕ
  pub cabin : CabinClass
  pub base_fare : ℤ
  pub taxes : ℤ
  pub fees : ℤ
  pub markup_amount : ℤ
  pub currency : ℕ

pub record Passenger : Type 0 where
  pub id : ℕ
  pub booking_id : ℕ
  pub details : PassengerDto

pub data TicketStatus : Type 0 where
  issued void : TicketStatus

pub record Ticket : Type 0 where
  pub id : ℕ
  pub booking_id : ℕ
  pub passenger_id : ℕ
  pub ticket_number : ℕ
  pub status : TicketStatus

pub data RefundStatus : Type 0 where
  processing completed rejected : RefundStatus

pub record Refund : Type 0 where
  pub id : ℕ
  pub booking_id : ℕ
  pub amount : ℤ
  pub currency : ℕ
  pub status : RefundStatus
  pub reason : Option ℕ

pub data ApprovalStatus : Type 0 where
  pending approved rejected : ApprovalStatus

-- The reason of an approval: the note of the policy, the system's own text, or the approver's.
pub data ApprovalReason : Type 0 where
  by_policy : PolicyNote → ApprovalReason
  auto_approved : ApprovalReason
  by_approver : ℕ → ApprovalReason

pub record CorporateApproval : Type 0 where
  pub id : ℕ
  pub booking_id : ℕ
  pub requested_by_employee_id : ℕ
  pub approver_user_id : Option ℕ
  pub status : ApprovalStatus
  pub reason : Option ApprovalReason
  pub decided_at : Option ℕ

pub record Agent : Type 0 where
  pub id : ℕ
  pub agency_id : ℕ

-- The action of an audit entry, with the id of its resource.
pub data AuditAction : Type 0 where
  booking_created booking_wallet_debit_failed booking_ticketed booking_cancelled : ℕ → AuditAction
  refund_settlement_failed approval_requested approval_auto_approved : ℕ → AuditAction
  approval_approved approval_rejected : ℕ → AuditAction

pub record AuditEntry : Type 0 where
  pub user_id : Option ℕ
  pub action : AuditAction

pub data Notification : Type 0 where
  booking_confirmed_mail booking_failed_mail : ℕ → Notification
  ticket_issued_mail : ℕ → List ℕ → Notification

-- All tables, each with its latest row first; what was sent to the suppliers, to the travellers and
-- to the spreadsheet, the latest first; and the next id to be given out.
pub record Store : Type 0 where
  pub booking : BookingTables
  pub wallet : W.Store
  pub payments : PaymentTables
  pub travel : T.Store
  pub offers : List FlightOffer
  pub passengers : List Passenger
  pub tickets : List Ticket
  pub refunds : List Refund
  pub approvals : List CorporateApproval
  pub agents : List Agent
  pub audit : List AuditEntry
  pub notifications : List Notification
  pub sheet : List ℕ
  pub supplier_requests : List SupplierRequest
  pub next_id : ℕ

-- What the service is built with: the adapters by supplier code, the payment provider, the settings
-- of the exchange rates, `toUpperCase`, the clock, and what prepends "refund:" to an id.
pub record Services : Type 0 where
  pub adapter_of : ℕ → Option FlightSupplierAdapter
  pub provider : PaymentProvider
  pub fx : Option FxSettings
  pub upper : ℕ → ℕ
  pub now : ℕ
  pub refund_key : ℕ → ℕ

-- Calls of the other services.
abbrev pub on_booking : {A : Type 0} → Action BookingTables A → Action Store A
on_booking = zoom (λ s. s.booking) (λ t s. record s { booking = t })

abbrev pub on_wallet : {A : Type 0} → Action W.Store A → Action Store A
on_wallet = zoom (λ s. s.wallet) (λ t s. record s { wallet = t })

abbrev pub on_payments : {A : Type 0} → Action PaymentTables A → Action Store A
on_payments = zoom (λ s. s.payments) (λ t s. record s { payments = t })

abbrev pub on_travel : {A : Type 0} → Action T.Store A → Action Store A
on_travel = zoom (λ s. s.travel) (λ t s. record s { travel = t })

abbrev pub find_offer : ℕ → Store → Option FlightOffer
find_offer i s = find? (λ o. o.id == i) s.offers

abbrev pub find_booking : ℕ → Store → Option Booking
find_booking i s = find? (λ b. b.id == i) s.booking.bookings

abbrev pub find_agent : ℕ → Store → Option Agent
find_agent i s = find? (λ a. a.id == i) s.agents

abbrev pub passengers_of : ℕ → Store → List Passenger
passengers_of i s = find_many (λ p. p.booking_id == i) s.passengers

abbrev pub tickets_of : ℕ → Store → List Ticket
tickets_of i s = find_many (λ t. t.booking_id == i) s.tickets

abbrev pub refunds_of : ℕ → Store → List Refund
refunds_of i s = find_many (λ r. r.booking_id == i) s.refunds

-- The row of `loadBookingDetail`, with its relations.
pub record BookingDetail : Type 0 where
  pub booking : Booking
  pub supplier_code : Option ℕ
  pub passengers : List Passenger
  pub tickets : List Ticket
  pub status_history : List (Change BookingStatus)
  pub refunds : List Refund
  pub agency_id : Option ℕ
