-- ===== src/HajjUmrah/Bookings/Priced.antt =====
-- The status of a booking says what is paid on it:
-- apps/api/src/modules/hajj-umrah/hajj-umrah.service.ts.
use muhammad_tours_and_trave.Prelude.{ℕ, ◌≡◌, some, ℤ, pos, ◌≤ℤ◌, ◌<ℤ◌, ◌≢◌}
use muhammad_tours_and_trave.HajjUmrah.Model.{
  HajjUmrahBooking, HajjUmrahBookingStatus, pending_deposit, deposit_paid, partially_paid,
  fully_paid, cancelled, Store, find_booking,
}
use muhammad_tours_and_trave.HajjUmrah.Bookings.{with_payment, write_booking}

-- What a status says of the amounts: nothing is paid; or the deposit is, to the cent; or another
-- part of the price is; or all of it.
abbrev pub Says : HajjUmrahBookingStatus → ℤ → ℕ → ℕ → Type 0
Says pending_deposit paid deposit total = paid ≤ℤ pos 0
Says deposit_paid paid deposit total = (pos 0 <ℤ paid) × (paid <ℤ pos total) × (paid ≡ pos deposit)
Says partially_paid paid deposit total =
    (pos 0 <ℤ paid) × (paid <ℤ pos total) × (paid ≢ pos deposit)
Says fully_paid paid deposit total = (pos 0 <ℤ paid) × (pos total ≤ℤ paid)
Says cancelled paid deposit total = ⊥

-- The status of the booking says the truth of its amounts.
abbrev pub IsPriced : HajjUmrahBooking → Type 0
IsPriced b = Says b.status b.amount_paid b.minimum_deposit_amount b.total_amount

pub record ArePriced (s : Store) : Type 0 where
  pub priced : (i : ℕ) (b : HajjUmrahBooking) → find_booking i s ≡ some b → IsPriced b

module _ (i : ℕ) (s : Store) {b : HajjUmrahBooking} (found : find_booking i s ≡ some b)
    (amount : ℤ) where
  abbrev written : Store
  written = let b' = with_payment amount b in write_booking b.id b'.amount_paid b'.status s
