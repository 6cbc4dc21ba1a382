-- ===== src/Payments/Charge.antt =====
-- `chargeForBooking`, `chargeForHotelBooking` and `chargeForHajjUmrahBooking` of
-- apps/api/src/modules/payments/payments.service.ts: three methods with one body, which differ in
-- the column that they set.
pub mod Laws
use muhammad_tours_and_trave.Prelude.{
  ℕ, ◌+◌, ℤ, Option, none, ◌∷◌, ◌==◌, Result, ok, err, Action, ◌>>=◌, ◌>>◌, pure, return_some, gets,
  modify, update_where,
}
use muhammad_tours_and_trave.Payments.Model.{
  PaymentStatus, pending, paid, failed, Target, booking, hotel_booking, hajj_umrah_booking, Payment,
  ChargeRequest, ChargeStatus, charge_paid, charge_failed, ChargeResult, PaymentProvider,
  PaymentTables, find_payment,
}

abbrev pub status_of : ChargeStatus → PaymentStatus
status_of charge_paid = paid
status_of charge_failed = failed

-- `payment.create`
abbrev pub create_payment : Target → ℕ → ℤ → ℕ → ℕ → Action PaymentTables Payment
create_payment target provider amount currency key s =
    let payment : Payment = record {
      id = s.next_id;
      target = target;
      provider = provider;
      provider_reference = none;
      amount = amount;
      currency = currency;
      status = pending;
      idempotency_key = key;
    } in
    pure payment (record s { payments = payment ∷ s.payments; next_id = s.next_id + 1 })

-- The call of the provider, with what it threw as a value: the `try` around it.
abbrev pub call_charge :
    PaymentProvider → ℕ → ChargeRequest → Action PaymentTables (Result ChargeResult)
call_charge provider i request s =
    pure (provider.charge i request) (record s { charges = request ∷ s.charges })

-- What the answer makes of the row, and the `catch` of it.
abbrev pub answered : Result ChargeResult → Payment → Payment
answered (ok r) p = record p {
  status = status_of r.status;
  provider_reference = r.provider_reference;
}
answered (err e) p = record p { status = failed }

-- `payment.update({ where: { id }, data })`
abbrev pub update_payment : (Payment → Payment) → Payment → Action PaymentTables Payment
update_payment f p s =
    pure (f p) (record s { payments = update_where (λ q. q.id == p.id) f s.payments })

unfoldable pub charge_for :
    PaymentProvider → Target → ℕ → ℤ → ℕ → ℕ → Option ℕ → Action PaymentTables Payment
charge_for provider target reference amount currency key token = do
  existing ← gets (find_payment key)
  return_some existing (do
    payment ← create_payment target provider.provider_code amount currency key
    result ← call_charge provider payment.id (record {
      target = target;
      booking_reference = reference;
      amount = amount;
      currency = currency;
      payment_method_token = token;
    })
    update_payment (answered result) payment)

module _ (provider : PaymentProvider) (i : ℕ) where
  abbrev pub charge_for_booking : ℕ → ℤ → ℕ → ℕ → Option ℕ → Action PaymentTables Payment
  charge_for_booking = charge_for provider (booking i)

  abbrev pub charge_for_hotel_booking : ℕ → ℤ → ℕ → ℕ → Option ℕ → Action PaymentTables Payment
  charge_for_hotel_booking = charge_for provider (hotel_booking i)

  abbrev pub charge_for_hajj_umrah_booking : ℕ → ℤ → ℕ → ℕ → Option ℕ → Action PaymentTables Payment
  charge_for_hajj_umrah_booking = charge_for provider (hajj_umrah_booking i)
