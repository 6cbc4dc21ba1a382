-- ===== src/Pricing/Tests.antt =====
-- The theorems on markups at two rules.
use muhammad_tours_and_trave.Prelude.{
  ◌≡◌, refl, pos, true, some, none, List, [], ◌∷◌, round2, of_cents,
}
use muhammad_tours_and_trave.Pricing.{
  airline, global, MarkupRule, percentage, fixed, MarkupContext, percent_of, apply_value,
  apply_rule, first_by_priority, where_for_scope, winning_rule, compute_markup,
}

-- Five percent on every fare, at least 10.00 and at most 40.00.
abbrev everywhere : MarkupRule
everywhere = record {
  id = 1;
  scope = global;
  agency_id = none;
  fare_family_code = none;
  route_code = none;
  cabin_code = none;
  airline_code = none;
  supplier_id = none;
  type_ = percentage;
  value = pos 50000;
  min_amount = some (pos 1000);
  max_amount = some (pos 4000);
  priority = pos 0;
  active = true;
}

-- 12.50 on the fares of one airline.
abbrev on_airline : MarkupRule
on_airline = record everywhere {
  id = 2;
  scope = airline;
  airline_code = some 33;
  type_ = fixed;
  value = pos 125000;
  min_amount = none;
  max_amount = none;
  priority = pos 9;
}

abbrev context : MarkupContext
context = record {
  supplier_id = 3;
  airline_code = 33;
  route_code = 4;
  cabin_code = 5;
  fare_family_code = 6;
  agency_id = none;
}

abbrev rules : List MarkupRule
rules = everywhere ∷ on_airline ∷ []

the_airline_wins :
    compute_markup 60000 context rules none
    ≡ record { markup_amount = pos 1250; rule_id = some 2; scope = some airline }
unfolding compute_markup winning_rule first_by_priority where_for_scope apply_rule apply_value
    round2 of_cents
the_airline_wins = refl

five_percent :
    compute_markup 60000 (record context { airline_code = 34 }) rules none
    ≡ record { markup_amount = pos 3000; rule_id = some 1; scope = some global }
unfolding compute_markup winning_rule first_by_priority where_for_scope apply_rule apply_value
    percent_of round2 of_cents
five_percent = refl
