-- ===== src/Itinerary/Tests.antt =====
-- The theorems on itineraries at a round trip with a connection on the way out. Codes are in
-- lower case from 100 on.
use mathlib.Core.List.{Permᴰ}
use muhammad_tours_and_trave.Prelude.{
  ℕ, ◌-◌, ◌≡◌, refl, pos, leb, if◌then◌else◌, List, [], ◌∷◌, map, arith,
}
use muhammad_tours_and_trave.Itinerary.{
  Segment, insert, sorted, group, rest_of_leg, flight_leg, layovers_of, minutes_between,
  group_segments_by_leg,
}
use muhammad_tours_and_trave.Itinerary.Laws.{Part, AreFlightLegs, group_segments_by_leg_lem}

abbrev upper : ℕ → ℕ
upper c = if leb 100 c then c - 100 else c

-- Dhaka (1) to London (3) over Dubai (2), and back without a stop.
abbrev out_first : Segment
out_first = record {
  sequence = 1;
  origin = 1;
  destination = 102;
  departure_at = 0;
  arrival_at = 18000000;
}

abbrev out_second : Segment
out_second = record {
  sequence = 2;
  origin = 2;
  destination = 103;
  departure_at = 23400000;
  arrival_at = 48600000;
}

abbrev back : Segment
back = record {
  sequence = 3;
  origin = 3;
  destination = 1;
  departure_at = 648000000;
  arrival_at = 684000000;
}

abbrev outbound : Part
outbound = record {
  leg = record { origin = 1; destination = 3 };
  first = out_first;
  others = out_second ∷ [];
}

abbrev inbound : Part
inbound = record { leg = record { origin = 3; destination = 1 }; first = back; others = [] }

abbrev trip : List Part
trip = outbound ∷ inbound ∷ []

-- Ninety minutes in Dubai, and no layover on the way back.
the_layover :
    map
      (λ l. map (λ x. x.minutes) l.layovers)
      (group_segments_by_leg upper (map (λ p. p.leg) trip) (back ∷ out_first ∷ out_second ∷ []))
    ≡ (pos 90 ∷ []) ∷ [] ∷ []
unfolding group_segments_by_leg group rest_of_leg flight_leg layovers_of minutes_between sorted
    insert
the_layover = refl

-- The way back is stored first.
group_segments_by_leg_lem_example :
    AreFlightLegs trip
      (group_segments_by_leg upper (map (λ p. p.leg) trip) (back ∷ out_first ∷ out_second ∷ []))
group_segments_by_leg_lem_example =
    group_segments_by_leg_lem upper trip (back ∷ out_first ∷ out_second ∷ [])
      (((λ e. omega arith), refl), (refl, tt)) (omega arith, (omega arith, tt))
      (Permᴰ.trans (Permᴰ.cons refl (Permᴰ.swap refl refl)) (Permᴰ.swap refl refl))
