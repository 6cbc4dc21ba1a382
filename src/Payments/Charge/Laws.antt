-- ===== src/Payments/Charge/Laws.antt =====
-- A charge is made once.
use muhammad_tours_and_trave.Prelude.{
  ℕ, zero, suc, ◌+◌, ◌≤◌, ◌≡◌, ◌⊎◌, refl, sym, subst, ℤ, Option, none, some, Option-cases, inl, inr,
  ok, Result, err, ◌==◌, ==_refl, length, arith, ◌∷◌, List, update_where, find?,
}
use muhammad_tours_and_trave.Payments.Model.{
  Target, Payment, pending, ChargeRequest, ChargeResult, PaymentProvider, PaymentTables,
  find_payment,
}
use muhammad_tours_and_trave.Payments.Charge.{answered, charge_for}

module _ (provider : PaymentProvider) (target : Target) (reference : ℕ) (amount : ℤ)
    (currency key : ℕ) (token : Option ℕ) where
  abbrev request : ChargeRequest
  request = record {
    target = target;
    booking_reference = reference;
    amount = amount;
    currency = currency;
    payment_method_token = token;
  }

  module _ (s : PaymentTables) where
    charge_known :
        {p : Payment}
        → find_payment key s ≡ some p
        → charge_for provider target reference amount currency key token s ≡ (ok p, s)
    unfolding charge_for
    charge_known known = rw known

    -- The row of a payment that is asked for, before the answer.
    abbrev asked_for : Payment
    asked_for = record {
      id = s.next_id;
      target = target;
      provider = provider.provider_code;
      provider_reference = none;
      amount = amount;
      currency = currency;
      status = pending;
      idempotency_key = key;
    }

    abbrev answer : Result ChargeResult
    answer = provider.charge s.next_id request

    abbrev charged : PaymentTables
    charged = record s {
      payments = update_where (λ q. q.id == s.next_id) (answered answer) (asked_for ∷ s.payments);
      charges = request ∷ s.charges;
      next_id = s.next_id + 1;
    }

    charge_new :
        find_payment key s ≡ none
        → charge_for provider target reference amount currency key token s
          ≡ (ok (answered answer asked_for), charged)
    unfolding charge_for
    charge_new new = rw new refl

    charged-found :
        (r : Result ChargeResult) (l : List Payment)
        → find?
            (λ q. q.idempotency_key == key)
            (update_where (λ q. q.id == s.next_id) (answered r) (asked_for ∷ l))
          ≡ some (answered r asked_for)
    charged-found (ok r) l = rw (==_refl s.next_id) (rw (==_refl key) refl)
    charged-found (err e) l = rw (==_refl s.next_id) (rw (==_refl key) refl)

    same_amount : (r : Result ChargeResult) → (answered r asked_for).amount ≡ amount
    same_amount (ok r) = refl
    same_amount (err e) = refl

    -- How a call ends: always with the payment that the table has under the key. The provider
    -- is asked only if there was none, and then once.
    pub record Charged (p : Payment) (s' : PaymentTables) : Type 0 where
      pub result : charge_for provider target reference amount currency key token s ≡ (ok p, s')
      pub kept : find_payment key s' ≡ some p
      pub asked :
          ((find_payment key s ≡ some p) × (s' ≡ s))
          ⊎ ((find_payment key s ≡ none) × (p.amount ≡ amount) × (s'.charges ≡ request ∷ s.charges))

    -- A charge never fails by an exception, whatever the provider does; it answers with the
    -- payment that the table has under its key; and it asks the provider only if there was none.
    pub charge_for-Charged : (p : Payment) × (s' : PaymentTables) × Charged p s'
    charge_for-Charged = elim (Option-cases (find_payment key s)) [
      | inr (p, known) ↦
          (p, s, record { result = charge_known known; kept = known; asked = inl (known, refl) })
      | inl new ↦ (
        answered answer asked_for,
        charged,
        record {
          result = charge_new new;
          kept = charged-found answer s.payments;
          asked = inr (new, same_amount answer, refl);
        },
      )
    ]

  -- What is left after a number of calls with the same key.
  abbrev pub retried : ℕ → PaymentTables → PaymentTables
  retried zero s = s
  retried (suc n) s = retried n (charge_for provider target reference amount currency key token s).1

  retried_known :
      (n : ℕ) (s : PaymentTables) {p : Payment} → find_payment key s ≡ some p → retried n s ≡ s
  retried_known zero s known = refl
  retried_known (suc n) s known = rw (charge_known s known) (retried_known n s known)

  retried_once :
      (n : ℕ) (s s' : PaymentTables) (p : Payment)
      → Charged s p s'
      → length (retried n s').charges ≤ length s.charges + 1
  retried_once n s s' p c = rw (retried_known n s' c.kept) (elim c.asked [
    | inl (known, same) ↦ rw same (omega arith)
    | inr (new, a, more) ↦ rw more (omega arith)
  ])

  -- However often a charge is retried under its key, the provider is asked at most once.
  pub charge_for_once :
      (n : ℕ) (s : PaymentTables) → length (retried n s).charges ≤ length s.charges + 1
  charge_for_once zero s = omega arith
  charge_for_once (suc n) s =
      let (p, s', c) = charge_for-Charged s in
      subst (λ r. length (retried n r.1).charges ≤ length s.charges + 1) (sym c.result)
        (retried_once n s s' p c)
