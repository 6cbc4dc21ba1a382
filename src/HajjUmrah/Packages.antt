-- ===== src/HajjUmrah/Packages.antt =====
-- The packages of apps/api/src/modules/hajj-umrah/hajj-umrah.service.ts: browsing, and what the
-- staff does. The lists come in the order of the table: the order by departure is left out.
use muhammad_tours_and_trave.Prelude.{
  ℕ, ◌+◌, Bool, true, false, ◌&&◌, Option, none, some, List, ◌∷◌, ◌==◌, ltb, leb, or_else, is_some,
  if◌then◌else◌, Action, conflict, not_found, ◌>>=◌, ◌>>◌, pure, throw_if, gets, modify, or_throw,
  find_many, update_where,
}
use muhammad_tours_and_trave.HajjUmrah.Model.{
  HajjUmrahPackageType, hajj, umrah, DepositType, HajjUmrahPackage, AuditEntry, package_created,
  package_updated, Store, find_package,
}

abbrev same_type : HajjUmrahPackageType → HajjUmrahPackageType → Bool
same_type hajj hajj = true
same_type umrah umrah = true
same_type _ _ = false

abbrev is_wanted : Option HajjUmrahPackageType → HajjUmrahPackageType → Bool
is_wanted none t = true
is_wanted (some wanted) t = same_type t wanted

unfoldable pub list_packages :
    Option HajjUmrahPackageType → ℕ → Action Store (List HajjUmrahPackage)
list_packages type_ now = gets (λ s.
    find_many (λ p. p.active && (leb now p.departure_date && is_wanted type_ p.type_)) s.packages)

unfoldable pub get_package : ℕ → Action Store HajjUmrahPackage
get_package i = do found ← gets (find_package i); or_throw found not_found

unfoldable pub list_packages_admin : Action Store (List HajjUmrahPackage)
list_packages_admin = gets (λ s. s.packages)

abbrev pub record_audit : AuditEntry → Store → Store
record_audit entry s = record s { audit = entry ∷ s.audit }

pub record CreateHajjUmrahPackageDto : Type 0 where
  pub title : ℕ
  pub type_ : HajjUmrahPackageType
  pub description : Option ℕ
  pub departure_date : ℕ
  pub return_date : ℕ
  pub duration_nights : ℕ
  pub currency : ℕ
  pub total_amount : ℕ
  pub deposit_type : DepositType
  pub deposit_value : ℕ
  pub capacity : ℕ
  pub inclusions : Option ℕ
  pub makkah_hotel : Option ℕ
  pub madinah_hotel : Option ℕ
  pub active : Option Bool

-- `hajjUmrahPackage.create`
abbrev pub insert_package : CreateHajjUmrahPackageDto → Action Store HajjUmrahPackage
insert_package dto s =
    let p : HajjUmrahPackage = record {
      id = s.next_id;
      title = dto.title;
      type_ = dto.type_;
      description = dto.description;
      departure_date = dto.departure_date;
      return_date = dto.return_date;
      duration_nights = dto.duration_nights;
      currency = dto.currency;
      total_amount = dto.total_amount;
      deposit_type = dto.deposit_type;
      deposit_value = dto.deposit_value;
      capacity = dto.capacity;
      seats_booked = 0;
      inclusions = dto.inclusions;
      makkah_hotel = dto.makkah_hotel;
      madinah_hotel = dto.madinah_hotel;
      active = or_else dto.active true;
    } in
    pure p (record s { packages = p ∷ s.packages; next_id = s.next_id + 1 })

unfoldable pub create_package : CreateHajjUmrahPackageDto → ℕ → Action Store HajjUmrahPackage
create_package dto admin_user_id = do
  throw_if (leb dto.return_date dto.departure_date) conflict
  p ← insert_package dto
  modify (record_audit (package_created admin_user_id p.id))
  pure p

pub record UpdateHajjUmrahPackageDto : Type 0 where
  pub title : Option ℕ
  pub description : Option ℕ
  pub departure_date : Option ℕ
  pub return_date : Option ℕ
  pub duration_nights : Option ℕ
  pub total_amount : Option ℕ
  pub deposit_type : Option DepositType
  pub deposit_value : Option ℕ
  pub capacity : Option ℕ
  pub inclusions : Option ℕ
  pub makkah_hotel : Option ℕ
  pub madinah_hotel : Option ℕ
  pub active : Option Bool

-- A column that may be null: what is undefined in the request stays.
abbrev kept : Option ℕ → Option ℕ → Option ℕ
kept new old = if is_some new then new else old

abbrev pub updated_package : UpdateHajjUmrahPackageDto → HajjUmrahPackage → HajjUmrahPackage
updated_package dto p = record p {
  title = or_else dto.title p.title;
  description = kept dto.description p.description;
  departure_date = or_else dto.departure_date p.departure_date;
  return_date = or_else dto.return_date p.return_date;
  duration_nights = or_else dto.duration_nights p.duration_nights;
  total_amount = or_else dto.total_amount p.total_amount;
  deposit_type = or_else dto.deposit_type p.deposit_type;
  deposit_value = or_else dto.deposit_value p.deposit_value;
  capacity = or_else dto.capacity p.capacity;
  inclusions = kept dto.inclusions p.inclusions;
  makkah_hotel = kept dto.makkah_hotel p.makkah_hotel;
  madinah_hotel = kept dto.madinah_hotel p.madinah_hotel;
  active = or_else dto.active p.active;
}

-- `dto.capacity !== undefined && dto.capacity < existing.seatsBooked`
abbrev pub is_too_small : Option ℕ → ℕ → Bool
is_too_small none seats = false
is_too_small (some capacity) seats = ltb capacity seats

abbrev pub write_package : ℕ → UpdateHajjUmrahPackageDto → Store → Store
write_package i dto s = record s {
  packages = update_where (λ p. p.id == i) (updated_package dto) s.packages;
}

unfoldable pub update_package : ℕ → UpdateHajjUmrahPackageDto → ℕ → Action Store HajjUmrahPackage
unfolding get_package
update_package i dto admin_user_id = do
  existing ← get_package i
  throw_if
      (leb (or_else dto.return_date existing.return_date)
        (or_else dto.departure_date existing.departure_date))
      conflict
  throw_if (is_too_small dto.capacity existing.seats_booked) conflict
  modify (write_package i dto)
  modify (record_audit (package_updated admin_user_id i))
  pure (updated_package dto existing)
