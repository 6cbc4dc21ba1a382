-- ===== src/Itinerary/Laws.antt =====
-- packages/types/src/itinerary.ts: the legs are runs of the segments, in order, and where the
-- segments fit the search they are the legs of the search.
use mathlib.Core.Logic.{◌≢◌}
use mathlib.Core.List.{append_assoc, Permᴰ}
use muhammad_tours_and_trave.Prelude.{
  ℕ, ◌+◌, ◌-◌, ◌*◌, ◌/◌, ◌≤◌, ◌<◌, ℤ, pos, sub_ℕ, ◌≡◌, refl, ◌∙◌, ap, inl, inr, Bool-cases, List,
  [], ◌∷◌, ◌++◌, map, arith, leb, All, length,
}
use muhammad_tours_and_trave.Itinerary.{
  Segment, LegBoundary, Layover, FlightLeg, minutes_between, last_of, layovers_of, flight_leg,
  reaches, rest_of_leg, group, group_segments_by_leg, sorted,
}
use muhammad_tours_and_trave.Itinerary.Order.{
  IsOrdered, sorted-IsOrdered, IsNumbered, sorted-shuffled,
}

abbrev pub flatten : List (List Segment) → List Segment
flatten [] = []
flatten (l ∷ ls) = l ++ flatten ls

module _ (upper : ℕ → ℕ) where
  rest_of_leg-split :
      (leg : LegBoundary) (s : Segment) (ss : List Segment)
      → (rest_of_leg upper leg s ss).0 ++ (rest_of_leg upper leg s ss).1 ≡ ss
  unfolding rest_of_leg
  rest_of_leg-split leg s [] = refl
  rest_of_leg-split leg s (t ∷ ts) = elim (Bool-cases (reaches upper leg s)) [
    | inl here ↦ rw here refl
    | inr on ↦ rw on (ap (λ l. t ∷ l) (rest_of_leg-split leg t ts))
  ]

  -- No segment is lost between two legs, taken twice or moved: the legs' segments in a row are
  -- the beginning of the segments in order.
  group-prefix :
      (legs : List LegBoundary) (ss : List Segment)
      → (left : List Segment) × (flatten (map (λ l. l.segments) (group upper legs ss)) ++ left ≡ ss)
  unfolding group flight_leg
  group-prefix [] ss = (ss, refl)
  group-prefix (leg ∷ legs) [] = ([], refl)
  group-prefix (leg ∷ legs) (s ∷ ss) =
      let (left, e) = group-prefix legs (rest_of_leg upper leg s ss).1 in
      let (more, after) = rest_of_leg upper leg s ss in
      let legs' = flatten (map (λ l. l.segments) (group upper legs after)) in
      (
        left,
        ap (λ l. s ∷ l)
            (append_assoc more legs' left ∙ ap (λ l. more ++ l) e ∙ rest_of_leg-split leg s ss),
      )

  -- The segments of one searched leg: the last one ends where the leg does, whichever case its
  -- code is in, and none before it does.
  abbrev pub IsLeg : LegBoundary → Segment → List Segment → Type 0
  IsLeg leg s [] = upper s.destination ≡ upper leg.destination
  IsLeg leg s (t ∷ ts) = (upper s.destination ≢ upper leg.destination) × IsLeg leg t ts

  rest_of_leg-IsLeg :
      (leg : LegBoundary) (s : Segment) (more left : List Segment)
      → IsLeg leg s more
      → rest_of_leg upper leg s (more ++ left) ≡ (more, left)
  unfolding rest_of_leg
  rest_of_leg-IsLeg leg s [] [] h = refl
  rest_of_leg-IsLeg leg s [] (t ∷ ts) h = ground (arith, h)
  rest_of_leg-IsLeg leg s (t ∷ ts) left h = ground (arith, h.0, rest_of_leg-IsLeg leg t ts left h.1)

-- A searched leg with its segments.
pub record Part : Type 0 where
  pub leg : LegBoundary
  pub first : Segment
  pub others : List Segment

abbrev pub segments_of : Part → List Segment
segments_of p = p.first ∷ p.others

-- The minutes between two instants to the nearest one, a half counting up. They are below 0 where
-- the second instant is the earlier one.
pub data IsMinutes (earlier later : ℕ) : ℤ → Type 0 where
  forward :
      (n : ℕ)
      → earlier ≤ later
      → n * 60000 ≤ later - earlier + 30000
      → later - earlier < n * 60000 + 30000
      → IsMinutes earlier later (pos n)
  backward :
      (n : ℕ)
      → later < earlier
      → n * 60000 < earlier - later + 30000
      → earlier - later ≤ n * 60000 + 30000
      → IsMinutes earlier later (sub_ℕ 0 n)

-- A stop at each place where one segment ends and the next one begins, as long as the traveler
-- waits there.
abbrev pub AreLayovers : Segment → List Segment → List Layover → Type 0
AreLayovers s [] [] = Unit
AreLayovers s [] (x ∷ xs) = ⊥
AreLayovers s (t ∷ ts) [] = ⊥
AreLayovers s (t ∷ ts) (x ∷ xs) =
    (x.airport ≡ s.destination)
    × IsMinutes s.arrival_at t.departure_at x.minutes
    × AreLayovers t ts xs

-- The segment that a list of segments ends with.
abbrev pub EndsWith : Segment → List Segment → Type 0
EndsWith z ss = (before : List Segment) × (ss ≡ before ++ (z ∷ []))

-- What the traveler is shown of a searched leg: its ends, the segments, when the first one
-- departs and the last one arrives, how long that takes, and the stops between them.
pub record IsFlightLeg (p : Part) (l : FlightLeg) : Type 0 where
  pub from : l.origin ≡ p.leg.origin
  pub to : l.destination ≡ p.leg.destination
  pub flown : l.segments ≡ segments_of p
  pub departs : l.departure_at ≡ p.first.departure_at
  pub arrives : (z : Segment) × EndsWith z (segments_of p) × (l.arrival_at ≡ z.arrival_at)
  pub takes : IsMinutes l.departure_at l.arrival_at l.duration_minutes
  pub stopping : l.stops + 1 ≡ length (segments_of p)
  pub waiting : AreLayovers p.first p.others l.layovers

abbrev pub AreFlightLegs : List Part → List FlightLeg → Type 0
AreFlightLegs [] [] = Unit
AreFlightLegs [] (l ∷ ls) = ⊥
AreFlightLegs (p ∷ ps) [] = ⊥
AreFlightLegs (p ∷ ps) (l ∷ ls) = IsFlightLeg p l × AreFlightLegs ps ls

minutes_between-IsMinutes :
    (earlier later : ℕ) → IsMinutes earlier later (minutes_between earlier later)
unfolding minutes_between
minutes_between-IsMinutes earlier later = elim (Bool-cases (leb earlier later)) [
  | inl on ↦
      let le : earlier ≤ later = ground (arith, on) in
      rw on (forward ((later - earlier + 30000) / 60000) le (omega arith) (omega arith))
  | inr back ↦
      let lt : later < earlier = ground (arith, back) in
      rw back (backward ((earlier - later + 29999) / 60000) lt (omega arith) (omega arith))
]

last_of-EndsWith : (s : Segment) (ss : List Segment) → EndsWith (last_of s ss) (s ∷ ss)
last_of-EndsWith s [] = ([], refl)
last_of-EndsWith s (t ∷ ts) =
    let (before, e) = last_of-EndsWith t ts in (s ∷ before, ap (λ l. s ∷ l) e)

layovers_of-AreLayovers : (s : Segment) (ss : List Segment) → AreLayovers s ss (layovers_of s ss)
unfolding layovers_of
layovers_of-AreLayovers s [] = tt
layovers_of-AreLayovers s (t ∷ ts) =
    (refl, minutes_between-IsMinutes s.arrival_at t.departure_at, layovers_of-AreLayovers t ts)

flight_leg-IsFlightLeg : (p : Part) → IsFlightLeg p (flight_leg p.leg p.first p.others)
unfolding flight_leg
flight_leg-IsFlightLeg p = record {
  from = refl;
  to = refl;
  flown = refl;
  departs = refl;
  arrives = (last_of p.first p.others, last_of-EndsWith p.first p.others, refl);
  takes = minutes_between-IsMinutes p.first.departure_at (last_of p.first p.others).arrival_at;
  stopping = omega arith;
  waiting = layovers_of-AreLayovers p.first p.others;
}

module _ (upper : ℕ → ℕ) where
  -- The segments of the legs in a row are the beginning of all segments in the order of their
  -- sequence numbers: none is lost between two legs, taken twice or moved.
  group_segments_by_leg-prefix :
      (legs : List LegBoundary) (segments : List Segment)
      → IsOrdered (sorted segments)
        × (left : List Segment) × (flatten
                (map (λ l. l.segments) (group_segments_by_leg upper legs segments))
              ++ left
            ≡ sorted segments)
  unfolding group_segments_by_leg
  group_segments_by_leg-prefix legs segments =
      let (left, e) = group-prefix upper legs (sorted segments) in
      (sorted-IsOrdered segments, left, e)

  abbrev pub AreLegs : List Part → Type 0
  AreLegs ps = All (λ p. IsLeg upper p.leg p.first p.others) ps

  group-AreFlightLegs :
      (ps : List Part)
      → AreLegs ps
      → AreFlightLegs ps (group upper (map (λ p. p.leg) ps) (flatten (map segments_of ps)))
  unfolding group
  group-AreFlightLegs [] h = tt
  group-AreFlightLegs (p ∷ ps) h =
      rw (rest_of_leg-IsLeg upper p.leg p.first p.others (flatten (map segments_of ps)) h.0)
        (flight_leg-IsFlightLeg p, group-AreFlightLegs ps h.1)

  -- Where the searched legs have segments, numbered upward along the journey, and each leg's
  -- destination is reached with its last segment and not before, then in whatever order these
  -- segments are stored the result is one leg for each searched leg, in order, with its ends, its
  -- segments, its times, how long it takes, and its stops. A connection is never taken for the
  -- end of a leg, nor the way back for a connection.
  pub group_segments_by_leg_lem :
      (ps : List Part) (segments : List Segment)
      → AreLegs ps
      → IsNumbered (flatten (map segments_of ps))
      → Permᴰ (flatten (map segments_of ps)) segments
      → AreFlightLegs ps (group_segments_by_leg upper (map (λ p. p.leg) ps) segments)
  unfolding group_segments_by_leg
  group_segments_by_leg_lem ps segments h numbered shuffled =
      rw (sorted-shuffled (flatten (map segments_of ps)) numbered shuffled)
        (group-AreFlightLegs ps h)
