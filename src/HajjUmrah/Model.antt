-- ===== src/HajjUmrah/Model.antt =====
-- The tables of apps/api/src/modules/hajj-umrah/: models HajjUmrahPackage and HajjUmrahBooking of
-- apps/api/prisma/schema.prisma. Amounts of a row are in cents, a deposit's percentage in
-- hundredths of a percent. The amounts of a package and of its bookings are never negative.
use muhammad_tours_and_trave.Prelude.{ℕ, ℤ, Bool, Option, List, Result, Action, find?, ◌==◌}
use muhammad_tours_and_trave.Access.{Owner}
use muhammad_tours_and_trave.Payments.Model.{PaymentTables}

pub data HajjUmrahPackageType : Type 0 where
  hajj umrah : HajjUmrahPackageType

pub data DepositType : Type 0 where
  percentage fixed : DepositType

pub data HajjUmrahBookingStatus : Type 0 where
  pending_deposit deposit_paid partially_paid fully_paid cancelled : HajjUmrahBookingStatus

pub record HajjUmrahPackage : Type 0 where
  pub id : ℕ
  pub title : ℕ
  pub type_ : HajjUmrahPackageType
  pub description : Option ℕ
  pub departure_date : ℕ
  pub return_date : ℕ
  pub duration_nights : ℕ
  pub currency : ℕ
  pub total_amount : ℕ
  pub deposit_type : DepositType
  pub deposit_value : ℕ
  pub capacity : ℕ
  pub seats_booked : ℕ
  pub inclusions : Option ℕ
  pub makkah_hotel : Option ℕ
  pub madinah_hotel : Option ℕ
  pub active : Bool

pub record HajjUmrahBooking : Type 0 where
  pub id : ℕ
  pub booking_reference : ℕ
  pub package_id : ℕ
  pub owner : Owner
  pub pilgrims : ℕ
  pub lead_pilgrim_name : ℕ
  pub contact_phone : ℕ
  pub contact_email : ℕ
  pub currency : ℕ
  pub total_amount : ℕ
  pub minimum_deposit_amount : ℕ
  pub amount_paid : ℤ
  pub status : HajjUmrahBookingStatus
  pub idempotency_key : ℕ

pub data AuditEntry : Type 0 where
  package_created package_updated booking_created payment_added : ℕ → ℕ → AuditEntry

-- The tables, each with its latest row first, the payments, and the confirmations sent so far.
pub record Store : Type 0 where
  pub packages : List HajjUmrahPackage
  pub bookings : List HajjUmrahBooking
  pub payments : PaymentTables
  pub audit : List AuditEntry
  pub confirmations : List ℕ
  pub next_id : ℕ

abbrev pub find_package : ℕ → Store → Option HajjUmrahPackage
find_package i s = find? (λ p. p.id == i) s.packages

abbrev pub find_booking : ℕ → Store → Option HajjUmrahBooking
find_booking i s = find? (λ b. b.id == i) s.bookings

abbrev pub put_payments : {A : Type 0} → Store → Result A × PaymentTables → Result A × Store
put_payments s (r, t) = (r, record s { payments = t })

-- A call of the payments service.
abbrev pub on_payments : {A : Type 0} → Action PaymentTables A → Action Store A
on_payments m s = put_payments s (m s.payments)
