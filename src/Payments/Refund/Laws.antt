-- ===== src/Payments/Refund/Laws.antt =====
-- A refund is made once, and only of money that was paid.
use muhammad_tours_and_trave.Prelude.{
  ℕ, ◌≡◌, refl, sym, subst, ap, ◌∙◌, ℤ, true, false, Option, none, some, Option-cases, Bool-cases,
  Result-cases, inl, inr, ok, err, failure, Result, Error, ◌==◌, ==_refl, ◌∷◌,
  find?-update_where_any, update_where,
}
use muhammad_tours_and_trave.Payments.Model.{
  Target, Payment, RefundRequest, RefundStatus, refund_done, PaymentProvider, PaymentTables,
}
use muhammad_tours_and_trave.Payments.Refund.{
  is_paid, status_after, same_target, latest_payment, settle_refund, refund_for,
}

module _ (provider : PaymentProvider) (target : Target) (amount : ℤ) (currency : ℕ) where
  module _ (s : PaymentTables) where
    refund_nothing :
        latest_payment target s ≡ none → refund_for provider target amount currency s ≡ (ok none, s)
    unfolding refund_for settle_refund
    refund_nothing e = rw e refl

    module _ {p : Payment} (latest : latest_payment target s ≡ some p) where
      refund_unpaid :
          is_paid p.status ≡ false → refund_for provider target amount currency s ≡ (ok (some p), s)
      unfolding refund_for settle_refund
      refund_unpaid e = simp (latest, e)

      abbrev asked : PaymentTables
      asked = record s {
        refunds =
            record {
              provider_reference = p.provider_reference;
              amount = amount;
              currency = currency;
            }
            ∷ s.refunds;
      }

      abbrev request : RefundRequest
      request = record {
        provider_reference = p.provider_reference;
        amount = amount;
        currency = currency;
      }

      refund_unsupported :
          is_paid p.status ≡ true
          → provider.refund ≡ none
          → refund_for provider target amount currency s ≡ (err failure, s)
      unfolding refund_for settle_refund
      refund_unsupported e n = simp (latest, e, n)

      refund_threw :
          {refund : ℕ → RefundRequest → Result RefundStatus} {x : Error}
          → is_paid p.status ≡ true
          → provider.refund ≡ some refund
          → refund p.id request ≡ err x
          → refund_for provider target amount currency s ≡ (err x, asked)
      unfolding refund_for settle_refund
      refund_threw e n t = simp (latest, e, n, t)

      abbrev settled : RefundStatus → PaymentTables
      settled status = record asked {
        payments =
            update_where (λ q. q.id == p.id) (λ q. record q { status = status_after status })
              s.payments;
      }

      refund_answered :
          {refund : ℕ → RefundRequest → Result RefundStatus} {status : RefundStatus}
          → is_paid p.status ≡ true
          → provider.refund ≡ some refund
          → refund p.id request ≡ ok status
          → refund_for provider target amount currency s
            ≡ (ok (some (record p { status = status_after status })), settled status)
      unfolding refund_for settle_refund
      refund_answered e n t = simp (latest, e, n, t)

not_paid_after : (status : RefundStatus) → is_paid (status_after status) ≡ false
not_paid_after refund_done = refl
not_paid_after _ = refl

module _ (provider : PaymentProvider) (target : Target) (amount amount' : ℤ)
    (currency currency' : ℕ) (s : PaymentTables) where
  -- The second call, at the tables that the first has left.
  abbrev IsQuiet : PaymentTables → Type 0
  IsQuiet s' = (refund_for provider target amount' currency' s').1 ≡ s'

  unpaid-IsQuiet :
      (s' : PaymentTables) {p : Payment}
      → latest_payment target s' ≡ some p
      → is_paid p.status ≡ false
      → IsQuiet s'
  unpaid-IsQuiet s' latest e =
      ap (λ r. r.1) (refund_unpaid provider target amount' currency' s' latest e)

  settled-IsQuiet :
      (status : RefundStatus) {p : Payment} (latest : latest_payment target s ≡ some p)
      → IsQuiet (settled provider target amount currency s latest status)
  settled-IsQuiet status {p} latest =
      unpaid-IsQuiet (settled provider target amount currency s latest status)
        {p = record p { status = status_after status }}
        (rw
          (find?-update_where_any (λ q. q.id == p.id) (λ q. same_target q.target target)
            (λ q. record q { status = status_after status }) s.payments (λ q. refl) latest)
          (rw (==_refl p.id) refl))
        (not_paid_after status)

  -- After a refund that did not throw, another refund of the same booking, of whatever amount,
  -- changes nothing: the provider is not asked for the money again.
  pub refund_for_once :
      {o : Option Payment} {s' : PaymentTables}
      → refund_for provider target amount currency s ≡ (ok o, s')
      → (refund_for provider target amount' currency' s').1 ≡ s'
  refund_for_once {o} {s'} done = elim (Option-cases (latest_payment target s)) [
    | inl missing ↦
        let same : s ≡ s' =
          ap (λ r. r.1) (sym (refund_nothing provider target amount currency s missing) ∙ done) in
        subst IsQuiet same
          (ap (λ r. r.1) (refund_nothing provider target amount' currency' s missing))
    | inr (p, latest) ↦ elim (Bool-cases (is_paid p.status)) [
      | inr unpaid ↦
          let same : s ≡ s' =
            ap (λ r. r.1)
              (sym (refund_unpaid provider target amount currency s latest unpaid) ∙ done) in
          subst IsQuiet same (unpaid-IsQuiet s latest unpaid)
      | inl settled_before ↦ elim (Option-cases provider.refund) [
        | inl n ↦
            cc (refund_unsupported provider target amount currency s latest settled_before n, done)
        | inr (f, n) ↦
            elim (Result-cases (f p.id (request provider target amount currency s latest))) [
              | inr (x, t) ↦
                  cc
                    (refund_threw provider target amount currency s latest settled_before n t, done)
              | inl (status, t) ↦
                  subst IsQuiet
                    (ap (λ r. r.1)
                      (sym (
                          refund_answered provider target amount currency s latest settled_before n
                            t)
                        ∙ done))
                    (settled-IsQuiet status latest)
            ]
      ]
    ]
  ]
