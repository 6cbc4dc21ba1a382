-- ===== src/HajjUmrah/Bookings/Capacity.antt =====
-- No operation of apps/api/src/modules/hajj-umrah/hajj-umrah.service.ts books a package beyond its
-- capacity or puts its counter out of step with its bookings.
use muhammad_tours_and_trave.Prelude.{
  ℕ, ◌+◌, ◌*◌, ◌<◌, ◌≡◌, ◌⊎◌, refl, sym, ◌∙◌, subst, ap, ltb, Bool, true, false, Option, some, inl,
  inr, Bool-cases, Option-cases, Error, ok, err, conflict, not_found, failure, arith, List, [], ◌∷◌,
  ◌==◌, All, All-imp, All-find?, All-update_where, update_where, ℤ, find?, Keeps, bind-Keeps,
  or_throw-Keeps, gets-Keeps, pure-Keeps, modify-Keeps,
}
use muhammad_tours_and_trave.Access.{AuthenticatedUser, UserProfile, Actor}
use muhammad_tours_and_trave.Payments.Refund.{is_paid}
use muhammad_tours_and_trave.Payments.Model.{PaymentProvider, Payment}
use muhammad_tours_and_trave.HajjUmrah.Model.{
  HajjUmrahPackage, HajjUmrahBooking, HajjUmrahBookingStatus, Store, find_package, find_booking,
}
use muhammad_tours_and_trave.HajjUmrah.Bookings.{
  CreateHajjUmrahBookingDto, reserve, increment_seats, new_booking, insert_booking, is_too_little,
  calculate_minimum_deposit, with_payment, apply_payment_result, if_settled, write_booking,
  create_booking,
}
use muhammad_tours_and_trave.HajjUmrah.Bookings.Seats.{
  pilgrims_of, AreSeated, below_suc, found_id, IsSeated-reserve, more_seats,
}
use muhammad_tours_and_trave.HajjUmrah.Bookings.Steps.{IsStepwise, create_booking-Keeps}

module _ (dto : CreateHajjUmrahBookingDto) (actor : Actor) (code key now : ℕ) (s : Store) where
  -- The tables after a reservation.
  abbrev pub reserved : HajjUmrahPackage → Store
  reserved p =
      (insert_booking (new_booking dto p actor code key) (increment_seats p.id dto.pilgrims s)).1

  -- A reservation that goes through, and what it has found.
  pub record Reserves : Type 0 where
    pub pkg : HajjUmrahPackage
    pub found : find_package dto.package_id s ≡ some pkg
    pub active : pkg.active ≡ true
    pub to_come : ltb pkg.departure_date now ≡ false
    pub room : ltb pkg.capacity (pkg.seats_booked + dto.pilgrims) ≡ false
    pub enough :
        is_too_little dto.payment_amount
          (calculate_minimum_deposit pkg (pkg.total_amount * dto.pilgrims) dto.pilgrims)
        ≡ false
    pub result :
        reserve dto actor code key now s
        ≡ (ok (new_booking dto pkg actor code key s.next_id), reserved pkg)

  -- A reservation fails and writes nothing, or goes through.
  pub reserve-Outcome : ((e : Error) × (reserve dto actor code key now s ≡ (err e, s))) ⊎ Reserves
  unfolding reserve
  reserve-Outcome = elim (Option-cases (find_package dto.package_id s)) [
    | inl missing ↦ inl (not_found, rw missing refl)
    | inr (p, found) ↦ elim (Bool-cases p.active) [
      | inr closed ↦ inl (conflict, rw (found, closed) refl)
      | inl active ↦ elim (Bool-cases (ltb p.departure_date now)) [
        | inl gone ↦ inl (conflict, simp (found, active, gone))
        | inr to_come ↦ elim (Bool-cases (ltb p.capacity (p.seats_booked + dto.pilgrims))) [
          | inl full ↦ inl (conflict, simp (found, active, to_come, full))
          | inr room ↦
              elim (Bool-cases (
                is_too_little dto.payment_amount
                  (calculate_minimum_deposit p (p.total_amount * dto.pilgrims) dto.pilgrims))) [
                    | inl little ↦ inl (conflict, simp (found, active, to_come, room, little))
                    | inr enough ↦ inr (record {
                      pkg = p;
                      found = found;
                      active = active;
                      to_come = to_come;
                      room = room;
                      enough = enough;
                      result = simp (found, active, to_come, room, enough);
                    })
                  ]
        ]
      ]
    ]
  ]

  reserved-AreSeated :
      {p : HajjUmrahPackage}
      → find_package dto.package_id s ≡ some p
      → ltb p.capacity (p.seats_booked + dto.pilgrims) ≡ false
      → AreSeated s
      → AreSeated (reserved p)
  reserved-AreSeated {p} found room h =
      let b = new_booking dto p actor code key s.next_id in
      let id_p : p.id ≡ dto.package_id = found_id dto.package_id s.packages found in
      let found' : find_package p.id s ≡ some p =
        subst (λ i. find_package i s ≡ some p) (sym id_p) found in
      let bound : p.id < s.next_id =
        All-find? _ (λ q. q.id == dto.package_id) s.packages h.issued found in
      record {
        seated = IsSeated-reserve b s {p = p} refl found' (ground (arith, room)) h;
        used = (
          below_suc p.id s.next_id bound,
          All-imp _ _ s.bookings (λ x. below_suc x.package_id s.next_id) h.used,
        );
        issued =
            All-update_where (λ q. q.id < s.next_id + 1) (λ q. q.id == p.id)
              (more_seats dto.pilgrims) s.packages (λ q hit lt. lt)
              (All-imp _ _ s.packages (λ q. below_suc q.id s.next_id) h.issued);
      }

  reserve-kept : AreSeated s → AreSeated (reserve dto actor code key now s).1
  reserve-kept h = elim reserve-Outcome [
    | inl (e, failed) ↦ rw failed h
    | inr r ↦ rw r.result (reserved-AreSeated r.found r.room h)
  ]

reserve-Keeps :
    (dto : CreateHajjUmrahBookingDto) (actor : Actor) (code key now : ℕ)
    → Keeps AreSeated (reserve dto actor code key now)
reserve-Keeps dto actor code key now = record { kept = reserve-kept dto actor code key now }

-- A change that touches neither the packages nor what the bookings take up of them.
AreSeated-same :
    (s s' : Store)
    → s'.packages ≡ s.packages
    → s'.next_id ≡ s.next_id
    → ((i : ℕ) → pilgrims_of i s'.bookings ≡ pilgrims_of i s.bookings)
    → All (λ (b : HajjUmrahBooking). b.package_id < s.next_id) s'.bookings
    → AreSeated s
    → AreSeated s'
AreSeated-same s s' same n count used h = record {
  seated = λ i p found.
      let k = h.seated i p (subst (λ l. find? (λ q. q.id == i) l ≡ some p) same found) in
      (k.0 ∙ sym (count p.id), k.1);
  used = rw n used;
  issued = rw (same, n) h.issued;
}

pilgrims_of-write :
    (i : ℕ) (p : HajjUmrahBooking → Bool) (paid : ℤ) (status : HajjUmrahBookingStatus)
    (rows : List HajjUmrahBooking)
    → pilgrims_of i (update_where p (λ b. record b { amount_paid = paid; status = status }) rows)
      ≡ pilgrims_of i rows
pilgrims_of-write i p paid status [] = refl
pilgrims_of-write i p paid status (b ∷ rows) =
    ground (arith, pilgrims_of-write i p paid status rows)

write_booking-kept :
    (i : ℕ) (paid : ℤ) (status : HajjUmrahBookingStatus) (s : Store)
    → AreSeated s
    → AreSeated (write_booking i paid status s)
write_booking-kept i paid status s h =
    AreSeated-same s (write_booking i paid status s) refl refl
      (λ j. pilgrims_of-write j (λ b. b.id == i) paid status s.bookings)
      (All-update_where (λ b. b.package_id < s.next_id) (λ b. b.id == i)
        (λ b. record b { amount_paid = paid; status = status }) s.bookings (λ b hit lt. lt) h.used)
      h

if_settled-Keeps :
    (c : Bool) (b : HajjUmrahBooking) (amount : ℤ) → Keeps AreSeated (if_settled c b amount)
if_settled-Keeps false b amount = pure-Keeps AreSeated
if_settled-Keeps true b amount =
    bind-Keeps AreSeated (modify-Keeps AreSeated (write_booking-kept _ _ _))
      (λ u. pure-Keeps AreSeated {a = with_payment amount b})

apply_payment_result-Keeps :
    (i : ℕ) (payment : Payment) → Keeps AreSeated (apply_payment_result i payment)
unfolding apply_payment_result
apply_payment_result-Keeps i payment =
    bind-Keeps AreSeated (gets-Keeps AreSeated {f = find_booking i}) (λ found.
      bind-Keeps AreSeated (or_throw-Keeps AreSeated found failure)
        (λ b. if_settled-Keeps (is_paid payment.status) b payment.amount))

AreSeated-IsStepwise : IsStepwise AreSeated
AreSeated-IsStepwise = record {
  reserved = reserve-Keeps;
  settled = apply_payment_result-Keeps;
  framed = λ s s' packages bookings n h.
      AreSeated-same s s' packages n (λ i. ap (pilgrims_of i) bookings) (rw bookings h.used) h;
}

-- Whoever books, and however the call and its payment end: every package's counter is the
-- number of pilgrims that its bookings bring, and none is booked beyond its capacity.
pub create_booking-AreSeated :
    (provider : PaymentProvider) (user : AuthenticatedUser) (profile : Option UserProfile)
    (dto : CreateHajjUmrahBookingDto) (key now : ℕ) (draw deposit_key : ℕ → ℕ) (s : Store)
    → AreSeated s
    → AreSeated (create_booking provider user profile dto key now draw deposit_key s).1
create_booking-AreSeated provider user profile dto key now draw deposit_key s h =
    (create_booking-Keeps AreSeated AreSeated-IsStepwise provider user profile dto key now draw
        deposit_key).kept
      s h
