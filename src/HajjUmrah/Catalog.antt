-- ===== src/HajjUmrah/Catalog.antt =====
-- What the staff's edits of the packages in
-- apps/api/src/modules/hajj-umrah/hajj-umrah.service.ts keep of the seats.
use muhammad_tours_and_trave.Prelude.{
  ℕ, ◌<◌, ◌≤◌, ◌≡◌, refl, sym, ◌∙◌, subst, ap, leb, Bool, true, false, Option, none, some, some_eq,
  inl, inr, Bool-cases, Option-cases, ok, err, conflict, not_found, arith, ◌==◌, ==_iff, All-imp,
  All-update_where, find?-update_where, find?-update_where_ne, or_else,
}
use muhammad_tours_and_trave.HajjUmrah.Model.{
  HajjUmrahPackage, Store, find_package, package_created, package_updated,
}
use muhammad_tours_and_trave.HajjUmrah.Packages.{
  CreateHajjUmrahPackageDto, insert_package, create_package, UpdateHajjUmrahPackageDto,
  updated_package, is_too_small, write_package, update_package, get_package, record_audit,
}
use muhammad_tours_and_trave.HajjUmrah.Bookings.Seats.{
  IsSeated, AreSeated, below_suc, pilgrims_of-fresh,
}

module _ (dto : CreateHajjUmrahPackageDto) (u : ℕ) (s : Store) where
  create_package_refused :
      leb dto.return_date dto.departure_date ≡ true → create_package dto u s ≡ (err conflict, s)
  unfolding create_package
  create_package_refused late = rw late refl

  abbrev created : Store
  created = record_audit (package_created u s.next_id) (insert_package dto s).1

  create_package_done :
      leb dto.return_date dto.departure_date ≡ false → (create_package dto u s).1 ≡ created
  unfolding create_package
  create_package_done fine = rw fine refl

  created-AreSeated : AreSeated s → AreSeated created
  created-AreSeated h = record {
    seated = λ i p found. elim (Bool-cases (s.next_id == i)) [
      | inl hit ↦
          let none_yet = pilgrims_of-fresh s.next_id s.bookings h.used in
          ground (arith, hit, none_yet)
      | inr miss ↦ h.seated i p (ground (arith, miss))
    ];
    used = All-imp _ _ s.bookings (λ b. below_suc b.package_id s.next_id) h.used;
    issued = (omega arith, All-imp _ _ s.packages (λ p. below_suc p.id s.next_id) h.issued);
  }

  -- A new package has no seat taken.
  create_package-AreSeated : AreSeated s → AreSeated (create_package dto u s).1
  create_package-AreSeated h = elim (Bool-cases (leb dto.return_date dto.departure_date)) [
    | inl late ↦ rw (create_package_refused late) h
    | inr fine ↦ rw (create_package_done fine) (created-AreSeated h)
  ]

module _ (i : ℕ) (dto : UpdateHajjUmrahPackageDto) (u : ℕ) (s : Store) where
  update_package_missing : find_package i s ≡ none → update_package i dto u s ≡ (err not_found, s)
  unfolding update_package get_package
  update_package_missing missing = rw missing refl

  abbrev back_too_early : HajjUmrahPackage → Bool
  back_too_early p =
      leb (or_else dto.return_date p.return_date) (or_else dto.departure_date p.departure_date)

  abbrev updated : Store
  updated = record_audit (package_updated u i) (write_package i dto s)

  module _ {p : HajjUmrahPackage} (found : find_package i s ≡ some p) where
    update_package_dates : back_too_early p ≡ true → update_package i dto u s ≡ (err conflict, s)
    unfolding update_package get_package
    update_package_dates early = rw (found, early) refl

    update_package_seats :
        back_too_early p ≡ false
        → is_too_small dto.capacity p.seats_booked ≡ true
        → update_package i dto u s ≡ (err conflict, s)
    unfolding update_package get_package
    update_package_seats fine small = rw (found, fine, small) refl

    update_package_done :
        back_too_early p ≡ false
        → is_too_small dto.capacity p.seats_booked ≡ false
        → update_package i dto u s ≡ (ok (updated_package dto p), updated)
    unfolding update_package get_package
    update_package_done fine enough = rw (found, fine, enough) refl

    room_kept :
        (c : Option ℕ)
        → is_too_small c p.seats_booked ≡ false
        → p.seats_booked ≤ p.capacity
        → p.seats_booked ≤ or_else c p.capacity
    room_kept none e le = le
    room_kept (some n) e le = ground arith

    updated-AreSeated :
        is_too_small dto.capacity p.seats_booked ≡ false → AreSeated s → AreSeated updated
    updated-AreSeated enough h = record {
      seated = λ j q later. elim (Bool-cases (j == i)) [
        | inl hit ↦
            let same : j ≡ i = (==_iff j i).0 hit in
            let now : find_package i updated ≡ some (updated_package dto p) =
              find?-update_where (λ x. x.id == i) (updated_package dto) s.packages (λ x. refl)
                found in
            let k = h.seated i p found in
            subst (IsSeated s.bookings)
              (some_eq (sym now ∙ ap (λ x. find_package x updated) (sym same) ∙ later))
              (k.0, room_kept dto.capacity enough k.1)
        | inr miss ↦ h.seated j q (
            sym (
              find?-update_where_ne (λ x. x.id == i) (λ x. x.id == j) (updated_package dto)
                s.packages (λ x hit. ground (arith, miss)))
            ∙ later)
      ];
      used = h.used;
      issued =
          All-update_where (λ (q : HajjUmrahPackage). q.id < s.next_id) (λ q. q.id == i)
            (updated_package dto) s.packages (λ q hit lt. lt) h.issued;
    }

  -- No edit takes the capacity of a package below the seats that are booked, or touches the
  -- counter.
  update_package-AreSeated : AreSeated s → AreSeated (update_package i dto u s).1
  update_package-AreSeated h = elim (Option-cases (find_package i s)) [
    | inl missing ↦ rw (update_package_missing missing) h
    | inr (p, found) ↦ elim (Bool-cases (back_too_early p)) [
      | inl early ↦ rw (update_package_dates found early) h
      | inr fine ↦ elim (Bool-cases (is_too_small dto.capacity p.seats_booked)) [
        | inl small ↦ rw (update_package_seats found fine small) h
        | inr enough ↦ rw (update_package_done found fine enough) (updated-AreSeated found enough h)
      ]
    ]
  ]
