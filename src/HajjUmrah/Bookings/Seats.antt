-- ===== src/HajjUmrah/Bookings/Seats.antt =====
-- `seatsBooked` is a denormalised counter: no package is booked beyond its capacity.
use muhammad_tours_and_trave.Prelude.{
  ℕ, ◌+◌, ◌<◌, ◌≤◌, ◌≡◌, ◌≢◌, some_eq, find?-update_where, find?-update_where_ne, refl, sym, ◌∙◌,
  subst, ap, some, inl, inr, Bool-cases, arith, List, [], ◌∷◌, ◌==◌, ==_iff, All, if◌then◌else◌,
  find?-holds, find?,
}
use muhammad_tours_and_trave.HajjUmrah.Model.{
  HajjUmrahPackage, HajjUmrahBooking, Store, find_package,
}
use muhammad_tours_and_trave.HajjUmrah.Bookings.{increment_seats}

-- The pilgrims of all bookings of a package.
abbrev pub pilgrims_of : ℕ → List HajjUmrahBooking → ℕ
pilgrims_of i [] = 0
pilgrims_of i (b ∷ rows) =
    if b.package_id == i then b.pilgrims + pilgrims_of i rows else pilgrims_of i rows

-- The counter of a package is the number of pilgrims that its bookings bring, and no more than
-- its capacity.
abbrev pub IsSeated : List HajjUmrahBooking → HajjUmrahPackage → Type 0
IsSeated rows p = (p.seats_booked ≡ pilgrims_of p.id rows) × (p.seats_booked ≤ p.capacity)

pub record AreSeated (s : Store) : Type 0 where
  pub seated : (i : ℕ) (p : HajjUmrahPackage) → find_package i s ≡ some p → IsSeated s.bookings p
  pub used : All (λ (b : HajjUmrahBooking). b.package_id < s.next_id) s.bookings
  pub issued : All (λ (p : HajjUmrahPackage). p.id < s.next_id) s.packages

pub below_suc : (i n : ℕ) → i < n → i < n + 1
below_suc i n h = omega arith

pub pilgrims_of-fresh :
    (n : ℕ) (rows : List HajjUmrahBooking)
    → All (λ b. b.package_id < n) rows
    → pilgrims_of n rows ≡ 0
pilgrims_of-fresh n [] u = refl
pilgrims_of-fresh n (b ∷ rows) u = ground (arith, pilgrims_of-fresh n rows u.1)

pub found_id :
    (i : ℕ) (ps : List HajjUmrahPackage) {p : HajjUmrahPackage}
    → find? (λ q. q.id == i) ps ≡ some p
    → p.id ≡ i
found_id i ps {p} found = (==_iff p.id i).0 (find?-holds (λ q. q.id == i) ps found)

abbrev pub more_seats : ℕ → HajjUmrahPackage → HajjUmrahPackage
more_seats n q = record q { seats_booked = q.seats_booked + n }

-- One booking more, and the counter of its package incremented, where there is room.
IsSeated-hit :
    (b : HajjUmrahBooking) (rows : List HajjUmrahBooking) (p : HajjUmrahPackage)
    → b.package_id ≡ p.id
    → p.seats_booked + b.pilgrims ≤ p.capacity
    → IsSeated rows p
    → IsSeated (b ∷ rows) (more_seats b.pilgrims p)
IsSeated-hit b rows p e room h =
    let more : pilgrims_of p.id (b ∷ rows) ≡ b.pilgrims + pilgrims_of p.id rows = ground arith in
    (omega (arith, more, h.0), room)

IsSeated-miss :
    (b : HajjUmrahBooking) (rows : List HajjUmrahBooking) (p : HajjUmrahPackage)
    → b.package_id ≢ p.id
    → IsSeated rows p
    → IsSeated (b ∷ rows) p
IsSeated-miss b rows p e h =
    let less : pilgrims_of p.id (b ∷ rows) ≡ pilgrims_of p.id rows = ground arith in
    (h.0 ∙ sym less, h.1)

module _ (b : HajjUmrahBooking) (s : Store) {p : HajjUmrahPackage} where
  pub IsSeated-reserve :
      b.package_id ≡ p.id
      → find_package p.id s ≡ some p
      → p.seats_booked + b.pilgrims ≤ p.capacity
      → AreSeated s
      → (j : ℕ) (q : HajjUmrahPackage) → find_package j (increment_seats p.id b.pilgrims s) ≡ some q
      → IsSeated (b ∷ s.bookings) q
  IsSeated-reserve e found room h j q later = elim (Bool-cases (j == p.id)) [
    | inl hit ↦
        let same : j ≡ p.id = (==_iff j p.id).0 hit in
        let now : find_package p.id (increment_seats p.id b.pilgrims s)
            ≡ some (more_seats b.pilgrims p) =
          find?-update_where (λ x. x.id == p.id) (more_seats b.pilgrims) s.packages (λ x. refl)
            found in
        let q_is : more_seats b.pilgrims p ≡ q = some_eq (
          sym now
          ∙ ap (λ k. find_package k (increment_seats p.id b.pilgrims s)) (sym same)
          ∙ later) in
        subst (IsSeated (b ∷ s.bookings)) q_is
          (IsSeated-hit b s.bookings p e room (h.seated p.id p found))
    | inr miss ↦
        let before : find_package j s ≡ some q =
          sym (
            find?-update_where_ne (λ x. x.id == p.id) (λ x. x.id == j) (more_seats b.pilgrims)
              s.packages (λ x hit. ground (arith, miss)))
          ∙ later in
        let id_q : q.id ≡ j = found_id j s.packages before in
        IsSeated-miss b s.bookings q (ground (arith, miss)) (h.seated j q before)
  ]
