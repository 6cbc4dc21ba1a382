-- ===== src/Payments/Model.antt =====
-- The payments table (model Payment of apps/api/prisma/schema.prisma) and the provider behind
-- apps/api/src/modules/payments/payment-provider.interface.ts. Amounts are in cents.
use muhammad_tours_and_trave.Prelude.{ℕ, ℤ, Option, List, Result, find?, ◌==◌}

pub data PaymentStatus : Type 0 where
  pending authorized paid failed cancelled refunded partially_refunded : PaymentStatus

-- The one of the three columns that is set.
pub data Target : Type 0 where
  booking hotel_booking hajj_umrah_booking : ℕ → Target

pub record Payment : Type 0 where
  pub id : ℕ
  pub target : Target
  pub provider : ℕ
  pub provider_reference : Option ℕ
  pub amount : ℤ
  pub currency : ℕ
  pub status : PaymentStatus
  pub idempotency_key : ℕ

pub record ChargeRequest : Type 0 where
  pub target : Target
  pub booking_reference : ℕ
  pub amount : ℤ
  pub currency : ℕ
  pub payment_method_token : Option ℕ

pub data ChargeStatus : Type 0 where
  charge_paid charge_failed : ChargeStatus

pub record ChargeResult : Type 0 where
  pub status : ChargeStatus
  pub provider_reference : Option ℕ

pub record RefundRequest : Type 0 where
  pub provider_reference : Option ℕ
  pub amount : ℤ
  pub currency : ℕ

pub data RefundStatus : Type 0 where
  refund_done refund_partial refund_failed : RefundStatus

-- The provider is not this program's code: it answers or throws, and the number of the payment
-- tells its calls apart, so that two equal requests may be answered differently.
pub record PaymentProvider : Type 0 where
  pub provider_code : ℕ
  pub charge : ℕ → ChargeRequest → Result ChargeResult
  pub refund : Option (ℕ → RefundRequest → Result RefundStatus)

-- The table, its latest row first, the next id to be given out, and the requests that the
-- provider has been sent so far, the latest first.
pub record PaymentTables : Type 0 where
  pub payments : List Payment
  pub charges : List ChargeRequest
  pub refunds : List RefundRequest
  pub next_id : ℕ

-- `payment.findUnique({ where: { idempotencyKey } })`
abbrev pub find_payment : ℕ → PaymentTables → Option Payment
find_payment key s = find? (λ p. p.idempotency_key == key) s.payments
