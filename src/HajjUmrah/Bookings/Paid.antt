-- ===== src/HajjUmrah/Bookings/Paid.antt =====
-- What an installment leaves of the balance of a booking:
-- `addPayment` of apps/api/src/modules/hajj-umrah/hajj-umrah.service.ts.
use muhammad_tours_and_trave.Prelude.{
  ℕ, ◌≡◌, refl, sym, subst, ℤ, pos, ◌+ℤ◌, ◌-ℤ◌, ◌≤ℤ◌, ltb_ℤ, le_of_not_lt, int_laws, round2,
  round_cents, round2-of_cents, Bool, true, false, ◌||◌, Option, none, some, inl, inr, Bool-cases,
  Option-cases, ok, err, forbidden, conflict, caught, ◌==◌, ==_iff, ==_refl, find?-holds,
  find?-update_where_any,
}
use muhammad_tours_and_trave.Roles.{hajj_umrah_manage, includes}
use muhammad_tours_and_trave.Access.{AuthenticatedUser, UserProfile, resolve_actor, owns_it}
use muhammad_tours_and_trave.Payments.Model.{
  Payment, PaymentProvider, PaymentTables, find_payment, hajj_umrah_booking,
}
use muhammad_tours_and_trave.Payments.Charge.{charge_for}
use muhammad_tours_and_trave.Payments.Charge.Laws.{charge_for-Charged}
use muhammad_tours_and_trave.Payments.Refund.{is_paid}
use muhammad_tours_and_trave.HajjUmrah.Model.{
  HajjUmrahBooking, HajjUmrahBookingStatus, Store, find_booking, payment_added,
}
use muhammad_tours_and_trave.HajjUmrah.Packages.{record_audit}
use muhammad_tours_and_trave.HajjUmrah.Bookings.{
  with_payment, write_booking, apply_payment_result, load_booking_detail, is_fully_paid,
  is_cancelled, add_payment,
}

load_booking_detail-state : (i : ℕ) (s : Store) → (load_booking_detail i s).1 ≡ s
unfolding load_booking_detail
load_booking_detail-state i s = elim (Option-cases (find_booking i s)) [
  | inl missing ↦ rw missing refl
  | inr (b, found) ↦ rw found refl
]

module _ (i : ℕ) (s : Store) {b : HajjUmrahBooking} (found : find_booking i s ≡ some b) where
  pub same_row : b.id ≡ i
  same_row = (==_iff b.id i).0 (find?-holds (λ x. x.id == i) s.bookings found)

  found_again : find_booking b.id s ≡ some b
  found_again = subst (λ j. find_booking j s ≡ some b) (sym same_row) found

  pub write_booking-found :
      (paid : ℤ) (status : HajjUmrahBookingStatus)
      → find_booking i (write_booking b.id paid status s)
        ≡ some (record b { amount_paid = paid; status = status })
  write_booking-found paid status =
      rw
        (find?-update_where_any (λ x. x.id == b.id) (λ x. x.id == i)
          (λ x. record x { amount_paid = paid; status = status }) s.bookings (λ x. refl) found)
        (rw (==_refl b.id) refl)

  pub apply_unpaid :
      (p : Payment) → is_paid p.status ≡ false → apply_payment_result b.id p s ≡ (ok b, s)
  unfolding apply_payment_result
  apply_unpaid p e = simp (found_again, e)

  pub apply_paid :
      (p : Payment)
      → is_paid p.status ≡ true
      → apply_payment_result b.id p s ≡ (
        ok (with_payment p.amount b),
        write_booking b.id (with_payment p.amount b).amount_paid (with_payment p.amount b).status s,
      )
  unfolding apply_payment_result
  apply_paid p e = simp (found_again, e)

-- No more is paid on the booking than it costs.
abbrev pub IsWithin : ℕ → Store → Type 0
IsWithin i s =
    (b : HajjUmrahBooking) × (find_booking i s ≡ some b) × (b.amount_paid ≤ℤ pos b.total_amount)

within :
    (paid total amount : ℤ)
    → ltb_ℤ (round_cents (total -ℤ paid)) amount ≡ false
    → round_cents (paid +ℤ amount) ≤ℤ total
within paid total amount e =
    rw (round2-of_cents (paid +ℤ amount)) (go (rw (sym (round2-of_cents (total -ℤ paid))) e))
  where
    go : ltb_ℤ (total -ℤ paid) amount ≡ false → (paid +ℤ amount) ≤ℤ total
    go f = let le = le_of_not_lt (total -ℤ paid) amount f in omega int_laws

module _ (provider : PaymentProvider) (user : AuthenticatedUser) (profile : Option UserProfile)
    (i : ℕ) (amount : ℤ) (token : Option ℕ) (key : ℕ) (s : Store) where
  abbrev may_pay : HajjUmrahBooking → Bool
  may_pay b =
      includes user.permissions hajj_umrah_manage
      || owns_it (caught (resolve_actor forbidden profile)) b.owner

  abbrev is_over : HajjUmrahBooking → Bool
  is_over b = ltb_ℤ (round_cents (pos b.total_amount -ℤ b.amount_paid)) (round2 amount)

  module _ {b : HajjUmrahBooking} (found : find_booking i s ≡ some b) where
    load_found : load_booking_detail i s ≡ (ok b, s)
    unfolding load_booking_detail
    load_found = rw found refl

    add_payment_forbidden :
        may_pay b ≡ false
        → add_payment provider user profile i amount token key s ≡ (err forbidden, s)
    unfolding add_payment
    add_payment_forbidden no_access = simp (load_found, no_access)

    add_payment_full :
        may_pay b ≡ true
        → is_fully_paid b.status ≡ true
        → add_payment provider user profile i amount token key s ≡ (err conflict, s)
    unfolding add_payment
    add_payment_full access full = simp (load_found, access, full)

    add_payment_cancelled :
        may_pay b ≡ true
        → is_fully_paid b.status ≡ false
        → is_cancelled b.status ≡ true
        → add_payment provider user profile i amount token key s ≡ (err conflict, s)
    unfolding add_payment
    add_payment_cancelled access part gone = simp (load_found, access, part, gone)

    add_payment_over :
        may_pay b ≡ true
        → is_fully_paid b.status ≡ false
        → is_cancelled b.status ≡ false
        → is_over b ≡ true
        → add_payment provider user profile i amount token key s ≡ (err conflict, s)
    unfolding add_payment
    add_payment_over access part live over = simp (load_found, access, part, live, over)

    -- The request got as far as the payment.
    module _ (access : may_pay b ≡ true) (part : is_fully_paid b.status ≡ false)
        (live : is_cancelled b.status ≡ false) (over : is_over b ≡ false) {p : Payment}
        {t : PaymentTables}
        (charged : charge_for provider
            (hajj_umrah_booking b.id)
            b.booking_reference
            (round2 amount)
            b.currency
            key
            token
            s.payments
          ≡ (ok p, t)) where
      abbrev paid_store : Store
      paid_store = record s { payments = t }

      add_payment_unpaid :
          is_paid p.status ≡ false
          → add_payment provider user profile i amount token key s
            ≡ load_booking_detail b.id (record_audit (payment_added user.id b.id) paid_store)
      unfolding add_payment
      add_payment_unpaid e =
          simp (load_found, access, part, live, over, charged, apply_unpaid i paid_store found p e)

      add_payment_paid :
          is_paid p.status ≡ true
          → add_payment provider user profile i amount token key s
            ≡ load_booking_detail b.id (
                record_audit (payment_added user.id b.id) (
                  write_booking b.id
                    (with_payment p.amount b).amount_paid
                    (with_payment p.amount b).status
                    paid_store))
      unfolding add_payment
      add_payment_paid e =
          simp (load_found, access, part, live, over, charged, apply_paid i paid_store found p e)

    charged-IsWithin :
        may_pay b ≡ true
        → is_fully_paid b.status ≡ false
        → is_cancelled b.status ≡ false
        → is_over b ≡ false
        → find_payment key s.payments ≡ none
        → b.amount_paid ≤ℤ pos b.total_amount
        → IsWithin i (add_payment provider user profile i amount token key s).1
    charged-IsWithin access part live over fresh le =
        let (p, t, c) =
          charge_for-Charged provider (hajj_umrah_booking b.id) b.booking_reference (round2 amount)
            b.currency key token s.payments in
        let s' : Store = record s { payments = t } in
        elim (Bool-cases (is_paid p.status)) [
          | inr unpaid ↦
              rw
                (
                  add_payment_unpaid access part live over c.result unpaid,
                  load_booking_detail-state b.id (record_audit (payment_added user.id b.id) s'),
                )
                (b, found, le)
          | inl paid ↦ elim c.asked [
            | inl (known, same) ↦ cc
            | inr (new, exact, more) ↦
                let b' = with_payment p.amount b in
                let s'' = write_booking b.id b'.amount_paid b'.status s' in
                rw
                  (
                    add_payment_paid access part live over c.result paid,
                    load_booking_detail-state b.id (record_audit (payment_added user.id b.id) s''),
                  )
                  (
                    b',
                    write_booking-found i s' found b'.amount_paid b'.status,
                    subst (λ a. round_cents (b.amount_paid +ℤ a) ≤ℤ pos b.total_amount) (sym exact)
                        (within b.amount_paid (pos b.total_amount) (round2 amount) over),
                  )
          ]
        ]

  -- Where no more is paid on a booking than it costs, an installment under a new key, however it
  -- ends, leaves it so.
  pub add_payment-IsWithin :
      find_payment key s.payments ≡ none
      → IsWithin i s
      → IsWithin i (add_payment provider user profile i amount token key s).1
  add_payment-IsWithin fresh (b, found, le) = elim (Bool-cases (may_pay b)) [
    | inr no_access ↦ rw (add_payment_forbidden found no_access) (b, found, le)
    | inl access ↦ elim (Bool-cases (is_fully_paid b.status)) [
      | inl full ↦ rw (add_payment_full found access full) (b, found, le)
      | inr part ↦ elim (Bool-cases (is_cancelled b.status)) [
        | inl gone ↦ rw (add_payment_cancelled found access part gone) (b, found, le)
        | inr live ↦ elim (Bool-cases (is_over b)) [
          | inl over ↦ rw (add_payment_over found access part live over) (b, found, le)
          | inr fits ↦ charged-IsWithin found access part live fits fresh le
        ]
      ]
    ]
  ]
