-- ===== src/Itinerary.antt =====
-- packages/types/src/itinerary.ts: the segments of an offer, which are stored in one list, are
-- grouped into the legs that the traveler searched for. Instants are in milliseconds, and
-- `upper` is what makes a code upper case.
pub mod Laws
pub mod Order
pub mod Tests
use muhammad_tours_and_trave.Prelude.{
  ℕ, ◌+◌, ◌-◌, ◌/◌, ℤ, pos, sub_ℕ, Bool, leb, if◌then◌else◌, List, [], ◌∷◌, ◌==◌, length,
}

pub record Segment : Type 0 where
  pub sequence : ℕ
  pub origin : ℕ
  pub destination : ℕ
  pub departure_at : ℕ
  pub arrival_at : ℕ

pub record LegBoundary : Type 0 where
  pub origin : ℕ
  pub destination : ℕ

pub record Layover : Type 0 where
  pub airport : ℕ
  pub minutes : ℤ

pub record FlightLeg : Type 0 where
  pub origin : ℕ
  pub destination : ℕ
  pub departure_at : ℕ
  pub arrival_at : ℕ
  pub duration_minutes : ℤ
  pub stops : ℕ
  pub segments : List Segment
  pub layovers : List Layover

-- `Math.round((later - earlier) / 60_000)`, which is negative where the order is reversed.
unfoldable pub minutes_between : ℕ → ℕ → ℤ
minutes_between earlier later =
    if leb earlier later
    then pos ((later - earlier + 30000) / 60000)
    else sub_ℕ 0 ((earlier - later + 29999) / 60000)

-- `[...segments].sort((a, b) => a.sequence - b.sequence)`, which is stable.
unfoldable pub insert : Segment → List Segment → List Segment
insert s [] = s ∷ []
insert s (t ∷ ts) =
    let rest = insert s ts in if leb s.sequence t.sequence then s ∷ t ∷ ts else t ∷ rest

unfoldable pub sorted : List Segment → List Segment
sorted [] = []
sorted (s ∷ ss) = insert s (sorted ss)

-- The last segment of a leg, by the first one and the others.
abbrev pub last_of : Segment → List Segment → Segment
last_of s [] = s
last_of s (t ∷ ts) = last_of t ts

unfoldable pub layovers_of : Segment → List Segment → List Layover
layovers_of s [] = []
layovers_of s (t ∷ ts) =
    record { airport = s.destination; minutes = minutes_between s.arrival_at t.departure_at }
    ∷ layovers_of t ts

unfoldable pub flight_leg : LegBoundary → Segment → List Segment → FlightLeg
flight_leg leg s more = record {
  origin = leg.origin;
  destination = leg.destination;
  departure_at = s.departure_at;
  arrival_at = (last_of s more).arrival_at;
  duration_minutes = minutes_between s.departure_at (last_of s more).arrival_at;
  stops = length more;
  segments = s ∷ more;
  layovers = layovers_of s more;
}

module _ (upper : ℕ → ℕ) where
  -- The comparison that closes a leg.
  abbrev pub reaches : LegBoundary → Segment → Bool
  reaches leg s = upper s.destination == upper leg.destination

  -- The inner loop, after it has taken a segment: what else belongs to the leg, and what is left.
  unfoldable pub rest_of_leg : LegBoundary → Segment → List Segment → List Segment × List Segment
  rest_of_leg leg s [] = ([], [])
  rest_of_leg leg s (t ∷ ts) =
      let (more, left) = rest_of_leg leg t ts in
      if reaches leg s then ([], t ∷ ts) else (t ∷ more, left)

  -- The outer loop, at what is left of the segments. A leg takes a segment at least.
  unfoldable pub group : List LegBoundary → List Segment → List FlightLeg
  group [] ss = []
  group (leg ∷ legs) [] = []
  group (leg ∷ legs) (s ∷ ss) =
      let (more, left) = rest_of_leg leg s ss in flight_leg leg s more ∷ group legs left

  unfoldable pub group_segments_by_leg : List LegBoundary → List Segment → List FlightLeg
  group_segments_by_leg legs segments = group legs (sorted segments)
