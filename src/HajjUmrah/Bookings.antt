-- ===== src/HajjUmrah/Bookings.antt =====
-- The bookings of apps/api/src/modules/hajj-umrah/hajj-umrah.service.ts and what is paid on them.
-- `profile` is what `prisma.user.findUnique` yields for the acting user, `now` the clock, `draw`
-- the random codes, `deposit_key` what appends ":deposit" to a key, and `provider` takes payments.
pub mod Seats
pub mod Steps
pub mod Capacity
pub mod Paid
pub mod Priced
use muhammad_tours_and_trave.Prelude.{
  ℕ, ◌+◌, ◌*◌, ◌/◌, ℤ, pos, ◌+ℤ◌, ◌-ℤ◌, ltb_ℤ, leb_ℤ, ◌==ℤ◌, round2, round_cents, Bool, true, false,
  not, ◌&&◌, ◌||◌, Option, none, some, List, [], ◌∷◌, ◌==◌, ltb, if◌then◌else◌, any, Action,
  conflict, forbidden, not_found, failure, ◌>>=◌, ◌>>◌, pure, throw_if, gets, modify, or_throw,
  from_result, return_some, transaction, caught, find?, find_many, update_where, unique_reference,
}
use muhammad_tours_and_trave.Roles.{hajj_umrah_manage, includes}
use muhammad_tours_and_trave.Access.{
  AuthenticatedUser, UserProfile, Actor, resolve_actor, owns_it, is_mine,
}
use muhammad_tours_and_trave.Payments.Model.{PaymentStatus, Payment, PaymentProvider}
use muhammad_tours_and_trave.Payments.Charge.{charge_for_hajj_umrah_booking}
use muhammad_tours_and_trave.Payments.Refund.{is_paid}
use muhammad_tours_and_trave.HajjUmrah.Model.{
  DepositType, percentage, fixed, HajjUmrahPackage, HajjUmrahBooking, HajjUmrahBookingStatus,
  pending_deposit, deposit_paid, partially_paid, fully_paid, cancelled, booking_created,
  payment_added, Store, find_package, find_booking, on_payments,
}
use muhammad_tours_and_trave.HajjUmrah.Packages.{record_audit}

abbrev pub deposit_of : DepositType → ℕ → ℕ → ℕ → ℕ
deposit_of percentage value booking_total pilgrims = (booking_total * value + 5000) / 10000
deposit_of fixed value booking_total pilgrims = value * pilgrims

unfoldable pub calculate_minimum_deposit : HajjUmrahPackage → ℕ → ℕ → ℕ
calculate_minimum_deposit p booking_total pilgrims =
    deposit_of p.deposit_type p.deposit_value booking_total pilgrims

unfoldable pub compute_status : ℤ → ℕ → ℕ → HajjUmrahBookingStatus
compute_status amount_paid minimum_deposit_amount total_amount =
    if leb_ℤ amount_paid (pos 0)
    then pending_deposit
    else (if leb_ℤ (pos total_amount) amount_paid
        then fully_paid
        else (if amount_paid ==ℤ pos minimum_deposit_amount then deposit_paid else partially_paid))

-- The update of `applyPaymentResult`.
abbrev pub with_payment : ℤ → HajjUmrahBooking → HajjUmrahBooking
with_payment amount b =
    let paid = round_cents (b.amount_paid +ℤ amount) in
    record b {
      amount_paid = paid;
      status = compute_status paid b.minimum_deposit_amount b.total_amount;
    }

-- The row is written from the copy that was read.
abbrev pub write_booking : ℕ → ℤ → HajjUmrahBookingStatus → Store → Store
write_booking i paid status s = record s {
  bookings =
      update_where (λ b. b.id == i) (λ b. record b { amount_paid = paid; status = status })
        s.bookings;
}

-- `if (payment.status !== 'PAID') return booking`, and the rest of the method
abbrev pub if_settled : Bool → HajjUmrahBooking → ℤ → Action Store HajjUmrahBooking
if_settled false b amount = pure b
if_settled true b amount = do
  modify (write_booking b.id (with_payment amount b).amount_paid (with_payment amount b).status)
  pure (with_payment amount b)

unfoldable pub apply_payment_result : ℕ → Payment → Action Store HajjUmrahBooking
apply_payment_result i payment = do
  found ← gets (find_booking i)
  b ← or_throw found failure
  if_settled (is_paid payment.status) b payment.amount

unfoldable pub load_booking_detail : ℕ → Action Store HajjUmrahBooking
load_booking_detail i = do found ← gets (find_booking i); or_throw found failure

abbrev pub has_reference : Store → ℕ → Bool
has_reference s code = any (λ (b : HajjUmrahBooking). b.booking_reference == code) s.bookings

-- `resolveActor`, as an action
abbrev pub acting : Option UserProfile → Action Store Actor
acting profile = from_result (resolve_actor forbidden profile)

pub record CreateHajjUmrahBookingDto : Type 0 where
  pub package_id : ℕ
  pub pilgrims : ℕ
  pub lead_pilgrim_name : ℕ
  pub contact_phone : ℕ
  pub contact_email : ℕ
  pub payment_amount : Option ℤ
  pub payment_method_token : Option ℕ

abbrev pub is_too_little : Option ℤ → ℕ → Bool
is_too_little none minimum = false
is_too_little (some amount) minimum = ltb_ℤ (round2 amount) (pos minimum)

-- `hajjUmrahPackage.update({ data: { seatsBooked: { increment } } })`
abbrev pub increment_seats : ℕ → ℕ → Store → Store
increment_seats i pilgrims s = record s {
  packages =
      update_where (λ p. p.id == i) (λ p. record p { seats_booked = p.seats_booked + pilgrims })
        s.packages;
}

-- The row that `hajjUmrahBooking.create` writes.
abbrev pub new_booking :
    CreateHajjUmrahBookingDto → HajjUmrahPackage → Actor → ℕ → ℕ → ℕ → HajjUmrahBooking
new_booking dto p actor code key i = record {
  id = i;
  booking_reference = code;
  package_id = p.id;
  owner = record {
    customer_id = actor.customer_id;
    agent_id = actor.agent_id;
    employee_id = actor.employee_id;
  };
  pilgrims = dto.pilgrims;
  lead_pilgrim_name = dto.lead_pilgrim_name;
  contact_phone = dto.contact_phone;
  contact_email = dto.contact_email;
  currency = p.currency;
  total_amount = p.total_amount * dto.pilgrims;
  minimum_deposit_amount = calculate_minimum_deposit p (p.total_amount * dto.pilgrims) dto.pilgrims;
  amount_paid = pos 0;
  status = pending_deposit;
  idempotency_key = key;
}

abbrev pub insert_booking : (ℕ → HajjUmrahBooking) → Action Store HajjUmrahBooking
insert_booking row s =
    pure (row s.next_id)
      (record s { bookings = row s.next_id ∷ s.bookings; next_id = s.next_id + 1 })

-- The body of the transaction of `createBooking`.
unfoldable pub reserve :
    CreateHajjUmrahBookingDto → Actor → ℕ → ℕ → ℕ → Action Store HajjUmrahBooking
reserve dto actor code key now = do
  found ← gets (find_package dto.package_id)
  p ← or_throw found not_found
  throw_if (not p.active) conflict
  throw_if (ltb p.departure_date now) conflict
  throw_if (ltb p.capacity (p.seats_booked + dto.pilgrims)) conflict
  throw_if
      (is_too_little dto.payment_amount
        (calculate_minimum_deposit p (p.total_amount * dto.pilgrims) dto.pilgrims))
      conflict
  modify (increment_seats p.id dto.pilgrims)
  insert_booking (new_booking dto p actor code key)

-- The amount that is charged at once: what the customer chose, or the minimum deposit.
abbrev pub charge_amount : Option ℤ → HajjUmrahBooking → ℤ
charge_amount (some amount) b = round2 amount
charge_amount none b = pos b.minimum_deposit_amount

abbrev pub is_pending : HajjUmrahBookingStatus → Bool
is_pending pending_deposit = true
is_pending _ = false

-- The confirmation, unless the deposit was not paid.
abbrev pub confirm : HajjUmrahBooking → Store → Store
confirm b s =
    if is_pending b.status
    then s
    else record s { confirmations = b.booking_reference ∷ s.confirmations }

-- `hajjUmrahBooking.findUnique({ where: { idempotencyKey } })`
abbrev pub find_by_key : ℕ → Store → Option HajjUmrahBooking
find_by_key key s = find? (λ b. b.idempotency_key == key) s.bookings

abbrev pub is_fully_paid : HajjUmrahBookingStatus → Bool
is_fully_paid fully_paid = true
is_fully_paid _ = false

abbrev pub is_cancelled : HajjUmrahBookingStatus → Bool
is_cancelled cancelled = true
is_cancelled _ = false

module _ (provider : PaymentProvider) (user : AuthenticatedUser)
    (profile : Option UserProfile) where
  unfoldable pub create_booking :
      CreateHajjUmrahBookingDto → ℕ → ℕ → (ℕ → ℕ) → (ℕ → ℕ) → Action Store HajjUmrahBooking
  create_booking dto key now draw deposit_key = do
    existing ← gets (find_by_key key)
    return_some existing (do
      actor ← acting profile
      drawn ← gets (λ s. unique_reference draw (has_reference s))
      code ← or_throw drawn failure
      b ← transaction (reserve dto actor code key now)
      modify (record_audit (booking_created user.id b.id))
      payment ← on_payments (
          charge_for_hajj_umrah_booking provider b.id b.booking_reference
            (charge_amount dto.payment_amount b) b.currency (deposit_key key)
            dto.payment_method_token)
      updated ← apply_payment_result b.id payment
      modify (confirm updated)
      load_booking_detail updated.id)

  -- `assertOwnsOrCan`
  abbrev pub assert_owns_or_can : Option Actor → HajjUmrahBooking → Action Store (Unit {0})
  assert_owns_or_can actor b =
      throw_if (not (includes user.permissions hajj_umrah_manage || owns_it actor b.owner))
        forbidden

  unfoldable pub add_payment : ℕ → ℤ → Option ℕ → ℕ → Action Store HajjUmrahBooking
  add_payment i amount token key = do
    b ← load_booking_detail i
    assert_owns_or_can (caught (resolve_actor forbidden profile)) b
    throw_if (is_fully_paid b.status) conflict
    throw_if (is_cancelled b.status) conflict
    throw_if (ltb_ℤ (round_cents (pos b.total_amount -ℤ b.amount_paid)) (round2 amount)) conflict
    payment ← on_payments (
        charge_for_hajj_umrah_booking provider b.id b.booking_reference (round2 amount) b.currency
          key token)
    updated ← apply_payment_result b.id payment
    modify (record_audit (payment_added user.id b.id))
    load_booking_detail updated.id

  unfoldable pub get_booking : ℕ → Action Store HajjUmrahBooking
  get_booking i = do
    b ← load_booking_detail i
    assert_owns_or_can (caught (resolve_actor forbidden profile)) b
    pure b

abbrev mine : Option Actor → List HajjUmrahBooking → List HajjUmrahBooking
mine none rows = []
mine (some actor) rows = find_many (λ b. is_mine actor b.owner) rows

unfoldable pub list_my_bookings : Option UserProfile → Action Store (List HajjUmrahBooking)
list_my_bookings profile = gets (λ s. mine (caught (resolve_actor forbidden profile)) s.bookings)

abbrev of_package : Option ℕ → List HajjUmrahBooking → List HajjUmrahBooking
of_package none rows = rows
of_package (some i) rows = find_many (λ b. b.package_id == i) rows

unfoldable pub list_bookings_admin : Option ℕ → Action Store (List HajjUmrahBooking)
list_bookings_admin package_id = gets (λ s. of_package package_id s.bookings)
