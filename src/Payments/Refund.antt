-- ===== src/Payments/Refund.antt =====
-- `refundPayment`, `refundHotelPayment` and `settleRefund` of
-- apps/api/src/modules/payments/payments.service.ts.
pub mod Laws
use muhammad_tours_and_trave.Prelude.{
  ℕ, ℤ, Bool, true, false, if◌then◌else◌, ◌==◌, Option, none, some, ◌∷◌, Action, failure, ◌>>=◌,
  ◌>>◌, pure, throw, gets, from_result, find?, Result,
}
use muhammad_tours_and_trave.Payments.Model.{
  PaymentStatus, paid, failed, refunded, partially_refunded, Target, booking, hotel_booking,
  hajj_umrah_booking, Payment, RefundRequest, RefundStatus, refund_done, refund_partial,
  refund_failed, PaymentProvider, PaymentTables,
}
use muhammad_tours_and_trave.Payments.Charge.{update_payment}

abbrev pub is_paid : PaymentStatus → Bool
is_paid paid = true
is_paid _ = false

abbrev pub status_after : RefundStatus → PaymentStatus
status_after refund_done = refunded
status_after refund_partial = partially_refunded
status_after refund_failed = failed

-- The call of the provider: what it throws goes on to the caller.
abbrev pub call_refund :
    (ℕ → RefundRequest → Result RefundStatus)
    → ℕ
    → RefundRequest
    → Action PaymentTables RefundStatus
call_refund refund i request s =
    from_result (refund i request) (record s { refunds = request ∷ s.refunds })

abbrev pub with_refund :
    Option (ℕ → RefundRequest → Result RefundStatus)
    → Payment
    → ℤ
    → ℕ
    → Action PaymentTables Payment
with_refund none p amount currency = throw failure
with_refund (some refund) p amount currency = do
  status ←
      call_refund refund p.id
        (record { provider_reference = p.provider_reference; amount = amount; currency = currency })
  update_payment (λ q. record q { status = status_after status }) p

-- `if (payment.status !== 'PAID') return payment`, and the rest of the method
abbrev pub if_paid :
    Bool → PaymentProvider → Payment → ℤ → ℕ → Action PaymentTables (Option Payment)
if_paid false provider p amount currency = pure (some p)
if_paid true provider p amount currency = do
  updated ← with_refund provider.refund p amount currency
  pure (some updated)

unfoldable pub settle_refund :
    PaymentProvider → Option Payment → ℤ → ℕ → Action PaymentTables (Option Payment)
settle_refund provider none amount currency = pure none
settle_refund provider (some p) amount currency =
    if_paid (is_paid p.status) provider p amount currency

abbrev pub same_target : Target → Target → Bool
same_target (booking i) (booking j) = i == j
same_target (hotel_booking i) (hotel_booking j) = i == j
same_target (hajj_umrah_booking i) (hajj_umrah_booking j) = i == j
same_target _ _ = false

-- `payment.findFirst({ orderBy: { createdAt: 'desc' } })`: the latest payment of a booking.
abbrev pub latest_payment : Target → PaymentTables → Option Payment
latest_payment target s = find? (λ p. same_target p.target target) s.payments

unfoldable pub refund_for : PaymentProvider → Target → ℤ → ℕ → Action PaymentTables (Option Payment)
refund_for provider target amount currency = do
  payment ← gets (latest_payment target)
  settle_refund provider payment amount currency

module _ (provider : PaymentProvider) (i : ℕ) where
  abbrev pub refund_payment : ℤ → ℕ → Action PaymentTables (Option Payment)
  refund_payment = refund_for provider (booking i)

  abbrev pub refund_hotel_payment : ℤ → ℕ → Action PaymentTables (Option Payment)
  refund_hotel_payment = refund_for provider (hotel_booking i)
