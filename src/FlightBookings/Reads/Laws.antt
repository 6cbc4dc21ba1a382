-- ===== src/FlightBookings/Reads/Laws.antt =====
-- Who sees a booking of apps/api/src/modules/bookings/bookings.service.ts.
use muhammad_tours_and_trave.Prelude.{
  ℕ, ◌≡◌, ◌≢◌, refl, true-false, Bool, true, false, ◌&&◌, is_some, Option, none, some, inl, inr,
  Bool-cases, Option-cases, List, [], ◌∷◌, Result, ok, err, forbidden, failure, arith, All,
  find_many,
}
use muhammad_tours_and_trave.Roles.{booking_read_any, booking_read_agency, includes}
use muhammad_tours_and_trave.Access.{
  AuthenticatedUser, UserProfile, Actor, Owner, resolve_actor, owns_it, is_mine,
}
use muhammad_tours_and_trave.Booking.Model.{Booking}
use muhammad_tours_and_trave.FlightBookings.Model.{Store, BookingDetail, find_booking}
use muhammad_tours_and_trave.FlightBookings.Reads.{
  owner_of, detail_of, load_booking_detail, can_view, actor_or_null, get_booking, is_listed,
  list_my_bookings,
}

mine-owns : (a : Actor) (o : Owner) → is_mine a o ≡ true → owns_it (some a) o ≡ true
unfolding owns_it
mine-owns a o e = ground arith

listed-viewed :
    (user : AuthenticatedUser) (profile : Option UserProfile) (a : Actor) (s : Store) (b : Booking)
    → is_listed user profile a s b ≡ true
    → can_view user (some a) (detail_of b s) ≡ true
unfolding can_view
listed-viewed user profile a s b e =
    let own = mine-owns a (owner_of b) in
    elim (Bool-cases (is_some a.agency_id && includes user.permissions booking_read_agency)) [
      | inl wide ↦ ground (arith, wide, e)
      | inr narrow ↦ ground (arith, narrow, e, own)
    ]

find_many-All :
    {A : Type 0} (p q : A → Bool) (rows : List A)
    → ((x : A) → p x ≡ true → q x ≡ true)
    → All (λ x. q x ≡ true) (find_many p rows)
find_many-All p q [] h = tt
find_many-All p q (x ∷ rows) h = elim (Bool-cases (p x)) [
  | inl hit ↦ rw hit (h x hit, find_many-All p q rows h)
  | inr miss ↦ rw miss (find_many-All p q rows h)
]

module _ (user : AuthenticatedUser) (profile : Option UserProfile) (s : Store) where
  -- The list that a user gets holds only bookings that he is also let see one by one.
  pub list_my_bookings-viewed :
      (l : List Booking) × (list_my_bookings user profile s ≡ (ok l, s))
      × All (λ b. can_view user (actor_or_null user profile) (detail_of b s) ≡ true) l
  unfolding list_my_bookings
  list_my_bookings-viewed = elim (Option-cases (actor_or_null user profile)) [
    | inl nobody ↦ ([], rw nobody refl, tt)
    | inr (a, actor) ↦ (
      find_many (is_listed user profile a s) s.booking.bookings,
      rw actor refl,
      rw actor (
          find_many-All (is_listed user profile a s) (λ b. can_view user (some a) (detail_of b s))
            s.booking.bookings (λ b e. listed-viewed user profile a s b e)),
    )
  ]

  get_missing : (i : ℕ) → find_booking i s ≡ none → get_booking user profile i s ≡ (err failure, s)
  unfolding get_booking load_booking_detail
  get_missing i missing = rw missing refl

  module _ (i : ℕ) {b : Booking} (found : find_booking i s ≡ some b) where
    get_hidden :
        can_view user (actor_or_null user profile) (detail_of b s) ≡ false
        → get_booking user profile i s ≡ (err forbidden, s)
    unfolding get_booking load_booking_detail
    get_hidden hidden = simp (found, hidden)

    get_shown :
        can_view user (actor_or_null user profile) (detail_of b s) ≡ true
        → get_booking user profile i s ≡ (ok (detail_of b s), s)
    unfolding get_booking load_booking_detail
    get_shown shown = simp (found, shown)

  module _ (c : ℕ) (p : UserProfile) (has : profile ≡ some p) (customer : p.customer ≡ some c)
      (any : includes user.permissions booking_read_any ≡ false)
      (agency : includes user.permissions booking_read_agency ≡ false) where
    own_only :
        (d : BookingDetail)
        → can_view user (actor_or_null user profile) d ≡ true
        → d.booking.customer_id ≡ some c
    unfolding can_view owns_it resolve_actor
    own_only d seen = ground (arith, has, customer, any, agency, seen)

    own_shown :
        (d : BookingDetail)
        → d.booking.customer_id ≡ some c
        → can_view user (actor_or_null user profile) d ≡ true
    unfolding can_view owns_it resolve_actor
    own_shown d own = ground (arith, has, customer, any, agency, own)

    -- What a customer is answered who asks for a booking.
    pub data Answer (i : ℕ) (x : Result BookingDetail × Store) : Type 0 where
      unknown : find_booking i s ≡ none → x ≡ (err failure, s) → Answer i x
      own :
          (b : Booking)
          → find_booking i s ≡ some b
          → b.customer_id ≡ some c
          → x ≡ (ok (detail_of b s), s)
          → Answer i x
      foreign :
          (b : Booking)
          → find_booking i s ≡ some b
          → b.customer_id ≢ some c
          → x ≡ (err forbidden, s)
          → Answer i x

    -- A customer who may read neither everybody's bookings nor an agency's is shown every booking of
    -- his own, and is refused every other; nothing is written.
    pub get_booking-own : (i : ℕ) → Answer i (get_booking user profile i s)
    get_booking-own i = elim (Option-cases (find_booking i s)) [
      | inl missing ↦ unknown missing (get_missing i missing)
      | inr (b, found) ↦
          elim (Bool-cases (can_view user (actor_or_null user profile) (detail_of b s))) [
            | inl seen ↦ own b found (own_only (detail_of b s) seen) (get_shown i found seen)
            | inr hidden ↦
                foreign b found (λ e. true-false (own_shown (detail_of b s) e) hidden)
                  (get_hidden i found hidden)
          ]
    ]
