-- ===== src/Payments/Tests.antt =====
-- The theorems on payments with a provider that grants everything.
use muhammad_tours_and_trave.Prelude.{◌+◌, ◌≤◌, ◌≡◌, refl, pos, some, [], ok, length}
use muhammad_tours_and_trave.Payments.Model.{
  PaymentProvider, PaymentTables, Payment, booking, refunded, charge_paid, refund_done,
}
use muhammad_tours_and_trave.Payments.Charge.{charge_for}
use muhammad_tours_and_trave.Payments.Charge.Laws.{
  Charged, charge_for-Charged, retried, charge_for_once,
}
use muhammad_tours_and_trave.Payments.Refund.{settle_refund, refund_for}
use muhammad_tours_and_trave.Payments.Refund.Laws.{refund_for_once}

abbrev pub generous : PaymentProvider
generous = record {
  provider_code = 1;
  charge = λ i request. ok (record { status = charge_paid; provider_reference = some i });
  refund = some (λ i request. ok refund_done);
}

abbrev pub no_payments : PaymentTables
no_payments = record { payments = []; charges = []; refunds = []; next_id = 1 }

abbrev charged : PaymentTables
charged = (charge_for generous (booking 11) 111 (pos 45000) 0 77 (some 5) no_payments).1

charge_for-Charged_example :
    (p : Payment) × (s' : PaymentTables) × Charged generous
      (booking 11)
      111
      (pos 45000)
      0
      77
      (some 5)
      no_payments
      p
      s'
charge_for-Charged_example =
    charge_for-Charged generous (booking 11) 111 (pos 45000) 0 77 (some 5) no_payments

charge_for_once_example :
    length (retried generous (booking 11) 111 (pos 45000) 0 77 (some 5) 3 no_payments).charges
    ≤ length no_payments.charges + 1
charge_for_once_example =
    charge_for_once generous (booking 11) 111 (pos 45000) 0 77 (some 5) 3 no_payments

abbrev the_payment : Payment
the_payment = record {
  id = 1;
  target = booking 11;
  provider = 1;
  provider_reference = some 1;
  amount = pos 45000;
  currency = 0;
  status = refunded;
  idempotency_key = 77;
}

abbrev given_back : PaymentTables
given_back = (refund_for generous (booking 11) (pos 45000) 0 charged).1

refund_goes_through :
    refund_for generous (booking 11) (pos 45000) 0 charged ≡ (ok (some the_payment), given_back)
unfolding charge_for refund_for settle_refund
refund_goes_through = refl

refund_for_once_example : (refund_for generous (booking 11) (pos 10000) 0 given_back).1 ≡ given_back
refund_for_once_example =
    refund_for_once generous (booking 11) (pos 45000) (pos 10000) 0 0 charged {o = some the_payment}
      {s' = given_back} refund_goes_through
