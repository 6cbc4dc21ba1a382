-- ===== src/Pricing/Scopes.antt =====
-- Which rule `computeMarkup` of apps/api/src/modules/flights/pricing.service.ts picks.
use muhammad_tours_and_trave.Prelude.{
  ℕ, ◌≤ℤ◌, ◌≡◌, ◌⊎◌, refl, sym, subst, ◌∙◌, Bool, true, false, Option, none, some, inl, inr,
  Option-cases, List, [], ◌∷◌, All, All-imp, arith, leb_ℤ, if◌then◌else◌, Bool-cases, find_many,
}
use muhammad_tours_and_trave.Pricing.{
  Scope, agency, fare_family, route, cabin, airline, supplier, global, MarkupRule, MarkupContext,
  first_by_priority, candidates, winning_rule, asked_for, rows_of, where_for_scope, better,
}

-- A rule is among the rows of a query, and none of them comes before it.
pub data IsIn (r : MarkupRule) : List MarkupRule → Type 0 where
  here : {rs : List MarkupRule} → IsIn r (r ∷ rs)
  there : {x : MarkupRule} {rs : List MarkupRule} → IsIn r rs → IsIn r (x ∷ rs)

pub IsIn-All :
    (P : MarkupRule → Type 0) {r : MarkupRule} {rs : List MarkupRule} → IsIn r rs → All P rs → P r
IsIn-All P here h = h.0
IsIn-All P (there i) h = IsIn-All P i h.1

abbrev pub IsBest : MarkupRule → List MarkupRule → Type 0
IsBest r rs = IsIn r rs × All (λ x. r.priority ≤ℤ x.priority) rs

better-IsBest :
    (r b : MarkupRule) (rs : List MarkupRule) → IsBest b rs → IsBest (better r (some b)) (r ∷ rs)
better-IsBest r b rs k = pick (leb_ℤ r.priority b.priority) refl
  where
    pick : (c : Bool) → leb_ℤ r.priority b.priority ≡ c → IsBest (if c then r else b) (r ∷ rs)
    pick true first = (here, (omega arith, All-imp _ _ rs (λ x le. ground (arith, first)) k.1))
    pick false second = (there k.0, (ground (arith, second), k.1))

first_by_priority-nil : (rs : List MarkupRule) → first_by_priority rs ≡ none → rs ≡ []
unfolding first_by_priority
first_by_priority-nil [] e = refl
first_by_priority-nil (r ∷ rs) e = cc

first_by_priority-IsBest :
    (rs : List MarkupRule) {r : MarkupRule} → first_by_priority rs ≡ some r → IsBest r rs
unfolding first_by_priority
first_by_priority-IsBest [] e = cc
first_by_priority-IsBest (x ∷ rs) {r} e = elim (Option-cases (first_by_priority rs)) [
  | inl none_later ↦
      let last : rs ≡ [] = first_by_priority-nil rs none_later in
      let first : x ≡ r = ground (arith, none_later) in
      subst (λ y. IsBest y (x ∷ rs)) first
        (subst (λ l. IsBest x (x ∷ l)) (sym last) (here, (omega arith, tt)))
  | inr (b, later) ↦
      let chosen : better x (some b) ≡ r = ground (arith, later) in
      subst (λ y. IsBest y (x ∷ rs)) chosen
        (better-IsBest x b rs (first_by_priority-IsBest rs later))
]

abbrev pub meets : Option (MarkupRule → Bool) → Scope → MarkupRule → Bool
meets none scope r = false
meets (some condition) scope r = asked_for scope condition r

-- How the loop over the scopes ends: no turn found a row, or one did and none before it.
module _ (ctx : MarkupContext) (rules : List MarkupRule) where
  pub data Wins : List Scope → Scope → MarkupRule → Type 0 where
    now :
        {scope : Scope} {scopes : List Scope} {rule : MarkupRule}
        → IsBest rule (candidates scope ctx rules)
        → Wins (scope ∷ scopes) scope rule
    later :
        {first scope : Scope} {scopes : List Scope} {rule : MarkupRule}
        → candidates first ctx rules ≡ []
        → Wins scopes scope rule
        → Wins (first ∷ scopes) scope rule

  -- No scope of the list has a row.
  abbrev pub IsVacant : List Scope → Type 0
  IsVacant scopes = All (λ scope. candidates scope ctx rules ≡ []) scopes

  winning_rule-stop :
      (scope : Scope) (scopes : List Scope) {r : MarkupRule}
      → first_by_priority (candidates scope ctx rules) ≡ some r
      → winning_rule (scope ∷ scopes) ctx rules ≡ some (scope, r)
  unfolding winning_rule
  winning_rule-stop scope scopes e = rw e refl

  winning_rule-pass :
      (scope : Scope) (scopes : List Scope)
      → first_by_priority (candidates scope ctx rules) ≡ none
      → winning_rule (scope ∷ scopes) ctx rules ≡ winning_rule scopes ctx rules
  unfolding winning_rule
  winning_rule-pass scope scopes e = rw e refl

  pub winning_rule-cases :
      (scopes : List Scope)
      → ((winning_rule scopes ctx rules ≡ none) × IsVacant scopes)
        ⊎ ((scope : Scope) × (rule : MarkupRule) × (winning_rule scopes ctx rules
              ≡ some (scope, rule))
            × Wins scopes scope rule)
  unfolding winning_rule
  winning_rule-cases [] = inl (refl, tt)
  winning_rule-cases (scope ∷ scopes) =
      elim (Option-cases (first_by_priority (candidates scope ctx rules))) [
        | inr (r, e) ↦ inr (
          scope,
          r,
          winning_rule-stop scope scopes e,
          now (first_by_priority-IsBest (candidates scope ctx rules) e),
        )
        | inl e ↦
            let empty = first_by_priority-nil (candidates scope ctx rules) e in
            let pass = winning_rule-pass scope scopes e in
            elim (winning_rule-cases scopes) [
              | inl (n, v) ↦ inl (pass ∙ n, (empty, v))
              | inr (t, r, w, k) ↦ inr (t, r, pass ∙ w, later empty k)
            ]
      ]

  find_many-All :
      (p : MarkupRule → Bool) (rs : List MarkupRule) → All (λ r. p r ≡ true) (find_many p rs)
  find_many-All p [] = tt
  find_many-All p (r ∷ rs) = elim (Bool-cases (p r)) [
    | inl hit ↦ rw hit (hit, find_many-All p rs)
    | inr miss ↦ rw miss (find_many-All p rs)
  ]

  abbrev matches : Scope → MarkupRule → Bool
  matches scope r = meets (where_for_scope scope ctx) scope r

  rows_of-matches :
      (scope : Scope) (w : Option (MarkupRule → Bool))
      → All (λ r. meets w scope r ≡ true) (rows_of scope w rules)
  rows_of-matches scope none = tt
  rows_of-matches scope (some c) = find_many-All (asked_for scope c) rules

  Wins-matches :
      {scopes : List Scope} {scope : Scope} {rule : MarkupRule}
      → Wins scopes scope rule
      → matches scope rule ≡ true
  Wins-matches (now {scope} {scopes} {rule} k) =
      IsIn-All (λ r. matches scope r ≡ true) k.0 (rows_of-matches scope (where_for_scope scope ctx))
  Wins-matches (later e k) = Wins-matches k

  -- What a rule has in common with the fare, by the kind of rule that it is.
  abbrev pub Fits : Scope → MarkupRule → Type 0
  Fits agency r = (i : ℕ) × (ctx.agency_id ≡ some i) × (r.agency_id ≡ some i)
  Fits fare_family r = r.fare_family_code ≡ some ctx.fare_family_code
  Fits route r = r.route_code ≡ some ctx.route_code
  Fits cabin r = r.cabin_code ≡ some ctx.cabin_code
  Fits airline r = r.airline_code ≡ some ctx.airline_code
  Fits supplier r = r.supplier_id ≡ some ctx.supplier_id
  Fits global r = Unit

  -- A rule of a scope that is switched on and fits the fare.
  pub record Applies (scope : Scope) (r : MarkupRule) : Type 0 where
    pub of_scope : r.scope ≡ scope
    pub switched_on : r.active ≡ true
    pub fits : Fits scope r

  matches-Applies : (scope : Scope) (r : MarkupRule) → matches scope r ≡ true → Applies scope r
  unfolding where_for_scope
  matches-Applies agency r e = elim (Option-cases ctx.agency_id) [
    | inl nobody ↦ absurd (ground (arith, e, nobody))
    | inr (i, somebody) ↦ record {
      of_scope = ground (arith, e, somebody);
      switched_on = ground (arith, e, somebody);
      fits = (i, somebody, ground (arith, e, somebody));
    }
  ]
  matches-Applies scope r e = record {
    of_scope = ground (arith, e);
    switched_on = ground (arith, e);
    fits = ground (arith, e);
  }

  pub Wins-Applies :
      {scopes : List Scope} {scope : Scope} {rule : MarkupRule}
      → Wins scopes scope rule
      → Applies scope rule
  Wins-Applies {scopes} {scope} {rule} w = matches-Applies scope rule (Wins-matches w)
