-- ===== src/HajjUmrah/Bookings/Steps.antt =====
-- What the methods of apps/api/src/modules/hajj-umrah/hajj-umrah.service.ts that change bookings
-- keep true, put together from what their steps keep.
use muhammad_tours_and_trave.Prelude.{
  ℕ, ◌≡◌, refl, Bool, true, false, not, Option, Result, Action, conflict, failure, forbidden,
  caught, ◌||◌, ltb_ℤ, round_cents, round2, pos, ◌-ℤ◌, ◌∷◌, if◌then◌else◌, ℤ, unique_reference,
  Keeps, bind-Keeps, throw_if-Keeps, or_throw-Keeps, from_result-Keeps, gets-Keeps, modify-Keeps,
  return_some-Keeps, transaction-Keeps,
}
use muhammad_tours_and_trave.Roles.{hajj_umrah_manage, includes}
use muhammad_tours_and_trave.Access.{AuthenticatedUser, UserProfile, Actor, resolve_actor, owns_it}
use muhammad_tours_and_trave.Payments.Charge.{charge_for_hajj_umrah_booking}
use muhammad_tours_and_trave.Payments.Model.{PaymentProvider, Payment, PaymentTables}
use muhammad_tours_and_trave.HajjUmrah.Model.{
  HajjUmrahBooking, AuditEntry, booking_created, payment_added, Store, find_booking, on_payments,
  put_payments,
}
use muhammad_tours_and_trave.HajjUmrah.Packages.{record_audit}
use muhammad_tours_and_trave.HajjUmrah.Bookings.{
  CreateHajjUmrahBookingDto, reserve, is_fully_paid, is_cancelled, charge_amount, find_by_key,
  has_reference, apply_payment_result, confirm, load_booking_detail, create_booking, add_payment,
  is_pending,
}

-- The steps that touch the bookings or the packages keep `I`, which is about nothing else.
pub record IsStepwise (I : Store → Type 0) : Type 0 where
  pub reserved :
      (dto : CreateHajjUmrahBookingDto) (actor : Actor) (code key now : ℕ)
      → Keeps I (reserve dto actor code key now)
  pub settled : (i : ℕ) (payment : Payment) → Keeps I (apply_payment_result i payment)
  pub framed :
      (s s' : Store)
      → s'.packages ≡ s.packages
      → s'.bookings ≡ s.bookings
      → s'.next_id ≡ s.next_id
      → I s
      → I s'

module _ (I : Store → Type 0) (k : IsStepwise I) where
  audit-kept : (a : AuditEntry) (s : Store) → I s → I (record_audit a s)
  audit-kept a s h = k.framed s (record_audit a s) refl refl refl h

  confirm-kept : (b : HajjUmrahBooking) (s : Store) → I s → I (confirm b s)
  confirm-kept b s h = go (is_pending b.status)
    where
      go :
          (c : Bool)
          → I (if c then s else record s { confirmations = b.booking_reference ∷ s.confirmations })
      go true = h
      go false =
          k.framed s (record s { confirmations = b.booking_reference ∷ s.confirmations }) refl refl
            refl h

  put_payments-kept :
      {A : Type 0} (s : Store) (r : Result A × PaymentTables) → I s → I (put_payments s r).1
  put_payments-kept s (r, t) h = k.framed s (record s { payments = t }) refl refl refl h

  on_payments-Keeps : {A : Type 0} (m : Action PaymentTables A) → Keeps I (on_payments m)
  on_payments-Keeps m = record { kept = λ s h. put_payments-kept s (m s.payments) h }

  load_booking_detail-Keeps : (i : ℕ) → Keeps I (load_booking_detail i)
  unfolding load_booking_detail
  load_booking_detail-Keeps i =
      bind-Keeps I (gets-Keeps I {f = find_booking i}) (λ found. or_throw-Keeps I found failure)

module _ (I : Store → Type 0) (k : IsStepwise I) (provider : PaymentProvider)
    (user : AuthenticatedUser) (profile : Option UserProfile) where
  pub create_booking-Keeps :
      (dto : CreateHajjUmrahBookingDto) (key now : ℕ) (draw deposit_key : ℕ → ℕ)
      → Keeps I (create_booking provider user profile dto key now draw deposit_key)
  unfolding create_booking
  create_booking-Keeps dto key now draw deposit_key =
      bind-Keeps I (gets-Keeps I {f = find_by_key key}) (λ existing. return_some-Keeps I existing (
        bind-Keeps I (from_result-Keeps I (resolve_actor forbidden profile)) (λ actor.
          bind-Keeps I (gets-Keeps I {f = λ s. unique_reference draw (has_reference s)}) (λ drawn.
            bind-Keeps I (or_throw-Keeps I drawn failure) (λ code.
              bind-Keeps I (transaction-Keeps I (k.reserved dto actor code key now)) (λ b.
                bind-Keeps I (modify-Keeps I (audit-kept I k (booking_created user.id b.id))) (λ u.
                  bind-Keeps I
                    (on_payments-Keeps I k (
                      charge_for_hajj_umrah_booking provider b.id b.booking_reference
                        (charge_amount dto.payment_amount b) b.currency (deposit_key key)
                        dto.payment_method_token))
                    (λ payment. bind-Keeps I (k.settled b.id payment) (λ updated.
                      bind-Keeps I (modify-Keeps I (confirm-kept I k updated))
                        (λ v. load_booking_detail-Keeps I k updated.id))))))))))

  pub add_payment-Keeps :
      (i : ℕ) (amount : ℤ) (token : Option ℕ) (key : ℕ)
      → Keeps I (add_payment provider user profile i amount token key)
  unfolding add_payment
  add_payment-Keeps i amount token key = bind-Keeps I (load_booking_detail-Keeps I k i) (λ b.
      bind-Keeps I
        (throw_if-Keeps I
          (not (
            includes user.permissions hajj_umrah_manage
            || owns_it (caught (resolve_actor forbidden profile)) b.owner))
          forbidden)
        (λ u. bind-Keeps I (throw_if-Keeps I (is_fully_paid b.status) conflict) (λ v.
          bind-Keeps I (throw_if-Keeps I (is_cancelled b.status) conflict) (λ w.
            bind-Keeps I
              (throw_if-Keeps I
                (ltb_ℤ (round_cents (pos b.total_amount -ℤ b.amount_paid)) (round2 amount))
                conflict)
              (λ x.
                bind-Keeps I
                  (on_payments-Keeps I k (
                    charge_for_hajj_umrah_booking provider b.id b.booking_reference (round2 amount)
                      b.currency key token))
                  (λ payment. bind-Keeps I (k.settled b.id payment) (λ updated.
                    bind-Keeps I (modify-Keeps I (audit-kept I k (payment_added user.id b.id)))
                      (λ y. load_booking_detail-Keeps I k updated.id))))))))
