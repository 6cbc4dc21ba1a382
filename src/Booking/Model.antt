-- ===== src/Booking/Model.antt =====
-- The row of a flight booking (model Booking in apps/api/prisma/schema.prisma), with the columns
-- that apps/api/src/modules/bookings/ reads and writes. Ids, references, keys and texts are
-- numbers: the code only compares them. Amounts are in cents.
use muhammad_tours_and_trave.Prelude.{ℕ, ℤ, Option, List, Change}
use muhammad_tours_and_trave.Booking.Status.{BookingStatus}
use muhammad_tours_and_trave.TravelPolicy.Model.{PolicyNote}

pub data Channel : Type 0 where
  b2c b2b corporate : Channel

pub record Booking : Type 0 where
  pub id : ℕ
  pub booking_reference : ℕ
  pub offer_id : ℕ
  pub channel : Channel
  pub customer_id : Option ℕ
  pub agent_id : Option ℕ
  pub employee_id : Option ℕ
  pub cost_center_id : Option ℕ
  pub policy_violation_note : Option PolicyNote
  pub contact_name : ℕ
  pub contact_email : ℕ
  pub contact_phone : ℕ
  pub whatsapp_number : Option ℕ
  pub status : BookingStatus
  pub currency : ℕ
  pub total_amount : ℤ
  pub idempotency_key : ℕ
  pub supplier_booking_reference : Option ℕ

-- The tables `bookings` and `booking_status_history`, the latter with its latest row first.
pub record BookingTables : Type 0 where
  pub bookings : List Booking
  pub history : List (Change BookingStatus)
