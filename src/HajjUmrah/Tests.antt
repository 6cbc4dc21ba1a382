-- ===== src/HajjUmrah/Tests.antt =====
-- The theorems on packages at one package with one booking.
use muhammad_tours_and_trave.Prelude.{
  ℕ, suc, ◌≡◌, refl, pos, ◌+ℤ◌, ◌-ℤ◌, round2, of_cents, true, none, some, arith, [], ◌∷◌, subst,
  inl, inr, Bool-cases, ◌==◌, map, length,
}
use muhammad_tours_and_trave.Access.{AuthenticatedUser, UserProfile, resolve_actor, owns_it}
use muhammad_tours_and_trave.Payments.Charge.{charge_for}
use muhammad_tours_and_trave.Payments.Tests.{generous, no_payments}
use muhammad_tours_and_trave.HajjUmrah.Model.{
  umrah, percentage, HajjUmrahPackage, HajjUmrahBooking, pending_deposit, Store,
}
use muhammad_tours_and_trave.HajjUmrah.Bookings.{
  CreateHajjUmrahBookingDto, create_booking, add_payment, load_booking_detail, apply_payment_result,
  compute_status,
}
use muhammad_tours_and_trave.HajjUmrah.Bookings.Seats.{IsSeated, AreSeated}
use muhammad_tours_and_trave.HajjUmrah.Bookings.Capacity.{create_booking-AreSeated}
use muhammad_tours_and_trave.HajjUmrah.Bookings.Paid.{IsWithin, add_payment-IsWithin}

abbrev tour : HajjUmrahPackage
tour = record {
  id = 1;
  title = 10;
  type_ = umrah;
  description = none;
  departure_date = 500;
  return_date = 514;
  duration_nights = 13;
  currency = 0;
  total_amount = 200000;
  deposit_type = percentage;
  deposit_value = 2000;
  capacity = 4;
  seats_booked = 2;
  inclusions = none;
  makkah_hotel = none;
  madinah_hotel = none;
  active = true;
}

abbrev held : HajjUmrahBooking
held = record {
  id = 2;
  booking_reference = 100;
  package_id = 1;
  owner = record { customer_id = some 4; agent_id = none; employee_id = none };
  pilgrims = 2;
  lead_pilgrim_name = 11;
  contact_phone = 12;
  contact_email = 13;
  currency = 0;
  total_amount = 400000;
  minimum_deposit_amount = 80000;
  amount_paid = pos 0;
  status = pending_deposit;
  idempotency_key = 600;
}

abbrev tables : Store
tables = record {
  packages = tour ∷ [];
  bookings = held ∷ [];
  payments = no_payments;
  audit = [];
  confirmations = [];
  next_id = 3;
}

tour-IsSeated : IsSeated tables.bookings tour
tour-IsSeated = (refl, omega arith)

tables-AreSeated : AreSeated tables
tables-AreSeated = record {
  seated = λ i p found. elim (Bool-cases (1 == i)) [
    | inl hit ↦
        let the_tour : tour ≡ p = ground (arith, hit) in
        subst (IsSeated tables.bookings) the_tour tour-IsSeated
    | inr miss ↦ let not_found : none ≡ some p = ground (arith, miss) in cc
  ];
  used = (omega arith, tt);
  issued = (omega arith, tt);
}

abbrev pilgrim : AuthenticatedUser
pilgrim = record { id = 8; permissions = [] }

abbrev customer : UserProfile
customer = record { customer = some 4; agent = none; employee = none }

-- Two more pilgrims, the last that there is room for.
abbrev request : CreateHajjUmrahBookingDto
request = record {
  package_id = 1;
  pilgrims = 2;
  lead_pilgrim_name = 14;
  contact_phone = 15;
  contact_email = 16;
  payment_amount = none;
  payment_method_token = some 5;
}

abbrev draw : ℕ → ℕ
draw attempt = suc attempt

create_booking-AreSeated_example :
    AreSeated (create_booking generous pilgrim (some customer) request 601 400 draw suc tables).1
create_booking-AreSeated_example =
    create_booking-AreSeated generous pilgrim (some customer) request 601 400 draw suc tables
      tables-AreSeated

add_payment-IsWithin_example :
    IsWithin 2 (add_payment generous pilgrim (some customer) 2 (pos 10000000) (some 5) 700 tables).1
add_payment-IsWithin_example =
    add_payment-IsWithin generous pilgrim (some customer) 2 (pos 10000000) (some 5) 700 tables refl
      (held, refl, omega arith)

-- An installment of 1000.00, and then the same request again under the same key.
abbrev once : Store
once = (add_payment generous pilgrim (some customer) 2 (pos 10000000) (some 5) 700 tables).1

abbrev twice : Store
twice = (add_payment generous pilgrim (some customer) 2 (pos 10000000) (some 5) 700 once).1

-- The provider is asked once, and the booking is credited with the installment twice.
retry_counts_twice :
    (length twice.payments.charges ≡ 1)
    × (map (λ b. b.amount_paid) once.bookings ≡ pos 100000 ∷ [])
    × (map (λ b. b.amount_paid) twice.bookings ≡ pos 200000 ∷ [])
unfolding add_payment load_booking_detail apply_payment_result charge_for compute_status
    resolve_actor owns_it round2 of_cents ◌+ℤ◌ ◌-ℤ◌
retry_counts_twice = (refl, refl, refl)
