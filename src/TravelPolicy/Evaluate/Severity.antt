-- ===== src/TravelPolicy/Evaluate/Severity.antt =====
-- The verdict of apps/api/src/modules/travel-policy/travel-policy.service.ts on a dearer fare.
use muhammad_tours_and_trave.Prelude.{
  ℕ, ◌≤◌, ◌≡◌, refl, ◌==◌, ℤ, ◌≤ℤ◌, true, false, if◌then◌else◌, Bool-cases, Option-cases, inl, inr,
  Option, none, some, ok, arith,
}
use muhammad_tours_and_trave.Fx.{FxSettings, FxState, Rates, rate_of, exchange_at, by_rates}
use muhammad_tours_and_trave.Fx.Monotone.{exchange_mono}
use muhammad_tours_and_trave.Fx.Laws.{Converted, convert-Converted}
use muhammad_tours_and_trave.TravelPolicy.Model.{
  TravelPolicy, PolicyEvaluation, EvaluationInput, Store,
}
use muhammad_tours_and_trave.TravelPolicy.Evaluate.{
  resolve_policy, no_policy, by_caps, by_fare, over_cabin, exceeds_cabin, exceeds, evaluate,
}

-- From in policy over sign-off to blocked.
abbrev pub severity : PolicyEvaluation → ℕ
severity e = if e.blocked then 2 else (if e.requires_approval then 1 else 0)

abbrev pub at_fare : EvaluationInput → ℤ → EvaluationInput
at_fare input fare = record input { total_fare = fare }

exceeds_mono : (cap : Option ℤ) (a b : ℤ) → a ≤ℤ b → exceeds cap a ≡ true → exceeds cap b ≡ true
exceeds_mono none a b h e = cc
exceeds_mono (some cap) a b h e = ground arith

module _ (p : TravelPolicy) (input input' : EvaluationInput) where
  by_caps_mono : (a b : ℤ) → a ≤ℤ b → severity (by_caps p input a) ≤ severity (by_caps p input' b)
  by_caps_mono a b h = elim (Bool-cases (exceeds p.hard_fare_cap_amount a)) [
    | inl hard ↦ rw (hard, exceeds_mono p.hard_fare_cap_amount a b h hard) (omega arith)
    | inr under ↦ elim (Bool-cases (exceeds p.hard_fare_cap_amount b)) [
      | inl hard ↦ elim (Bool-cases (exceeds p.soft_fare_cap_amount a)) [
        | inl soft ↦ rw (under, hard, soft) (omega arith)
        | inr fine ↦ rw (under, hard, fine) (omega arith)
      ]
      | inr under' ↦ elim (Bool-cases (exceeds p.soft_fare_cap_amount a)) [
        | inl soft ↦
            rw (under, under', soft, exceeds_mono p.soft_fare_cap_amount a b h soft) (omega arith)
        | inr fine ↦ rw (under, under', fine) (omega arith)
      ]
    ]
  ]

  -- Both fares are known in the policy's currency, in their order, or neither is.
  abbrev InOrder : Option ℤ → Option ℤ → Type 0
  InOrder none none = Unit {0}
  InOrder (some a) (some b) = a ≤ℤ b
  InOrder _ _ = ⊥

  by_fare_mono :
      (x y : Option ℤ) → InOrder x y → severity (by_fare p input x) ≤ severity (by_fare p input' y)
  by_fare_mono none none h = omega arith
  by_fare_mono none (some b) h = absurd h
  by_fare_mono (some a) none h = absurd h
  by_fare_mono (some a) (some b) h = by_caps_mono a b h

  by_rates-InOrder :
      (a b : ℤ) (from to : ℕ) (rates : Option Rates)
      → a ≤ℤ b
      → InOrder (by_rates a from to rates) (by_rates b from to rates)
  by_rates-InOrder a b from to none h = tt
  by_rates-InOrder a b from to (some rates) h = go (rate_of from rates) (rate_of to rates)
    where
      go : (x y : Option ℕ) → InOrder (exchange_at a x y) (exchange_at b x y)
      go none y = tt
      go (some f) none = tt
      go (some f) (some t) = exchange_mono a b f t h

  converted_InOrder :
      {settings : Option FxSettings} {upper : ℕ → ℕ} {now from to : ℕ} {s : FxState}
      (c : Converted settings upper now from to s) (a b : ℤ)
      → a ≤ℤ b
      → InOrder (c.answer a) (c.answer b)
  converted_InOrder {upper} {from} {to} c a b h = elim (Bool-cases (upper from == upper to)) [
    | inl same ↦ rw (c.by a, c.by b, same) h
    | inr other ↦
        rw (c.by a, c.by b, other) (by_rates-InOrder a b (upper from) (upper to) c.rates h)
  ]

module _ (settings : Option FxSettings) (upper : ℕ → ℕ) (now corporate : ℕ) (s : Store) where
  -- How an evaluation ends, for one booking at every fare.
  pub record Evaluated (input : EvaluationInput) : Type 0 where
    pub verdict : ℤ → PolicyEvaluation
    pub after : Store
    pub result :
        (fare : ℤ)
        → evaluate settings upper now corporate (at_fare input fare) s ≡ (ok (verdict fare), after)
    pub mono : (a b : ℤ) → a ≤ℤ b → severity (verdict a) ≤ severity (verdict b)

  module _ (input : EvaluationInput) where
    evaluate_unruled :
        (fare : ℤ)
        → resolve_policy corporate input.department_id s ≡ none
        → evaluate settings upper now corporate (at_fare input fare) s ≡ (ok no_policy, s)
    unfolding evaluate
    evaluate_unruled fare missing = rw missing refl

    module _ {p : TravelPolicy}
        (found : resolve_policy corporate input.department_id s ≡ some p) where
      evaluate_over :
          (fare : ℤ)
          → exceeds_cabin p input ≡ true
          → evaluate settings upper now corporate (at_fare input fare) s
            ≡ (ok (over_cabin p input), s)
      unfolding evaluate
      evaluate_over fare over = simp (found, over)

      evaluate_same :
          (fare : ℤ)
          → exceeds_cabin p input ≡ false
          → (input.currency == p.currency) ≡ true
          → evaluate settings upper now corporate (at_fare input fare) s
            ≡ (ok (by_caps p (at_fare input fare) fare), s)
      unfolding evaluate
      evaluate_same fare fits same = simp (found, fits, same)

      evaluate_converted :
          (fare : ℤ) (c : Converted settings upper now input.currency p.currency s.fx)
          → exceeds_cabin p input ≡ false
          → (input.currency == p.currency) ≡ false
          → evaluate settings upper now corporate (at_fare input fare) s
            ≡ (ok (by_fare p (at_fare input fare) (c.answer fare)), record s { fx = c.after })
      unfolding evaluate
      evaluate_converted fare c fits other = simp (found, fits, other, c.result fare)

    pub evaluate-Evaluated : Evaluated input
    evaluate-Evaluated = elim (Option-cases (resolve_policy corporate input.department_id s)) [
      | inl missing ↦ record {
        verdict = λ fare. no_policy;
        after = s;
        result = λ fare. evaluate_unruled fare missing;
        mono = λ a b h. omega arith;
      }
      | inr (p, found) ↦ elim (Bool-cases (exceeds_cabin p input)) [
        | inl over ↦ record {
          verdict = λ fare. over_cabin p input;
          after = s;
          result = λ fare. evaluate_over found fare over;
          mono = λ a b h. omega arith;
        }
        | inr fits ↦ elim (Bool-cases (input.currency == p.currency)) [
          | inl same ↦ record {
            verdict = λ fare. by_caps p (at_fare input fare) fare;
            after = s;
            result = λ fare. evaluate_same found fare fits same;
            mono = λ a b h. by_caps_mono p (at_fare input a) (at_fare input b) a b h;
          }
          | inr other ↦
              let c = convert-Converted settings upper now input.currency p.currency s.fx in
              record {
                verdict = λ fare. by_fare p (at_fare input fare) (c.answer fare);
                after = record s { fx = c.after };
                result = λ fare. evaluate_converted found fare c fits other;
                mono = λ a b h.
                    by_fare_mono p (at_fare input a) (at_fare input b) (c.answer a) (c.answer b)
                      (converted_InOrder p (at_fare input a) (at_fare input b) c a b h);
              }
        ]
      ]
    ]

    -- An evaluation never throws, whatever the live provider of the exchange rates does, and of
    -- two fares for the same flight the dearer is never judged more leniently.
    pub evaluate_mono :
        (a b : ℤ)
        → a ≤ℤ b
        → (x y : PolicyEvaluation) × (s' : Store) × (evaluate settings upper now corporate
              (at_fare input a)
              s
            ≡ (ok x, s'))
          × (evaluate settings upper now corporate (at_fare input b) s ≡ (ok y, s'))
          × (severity x ≤ severity y)
    evaluate_mono a b h =
        let e = evaluate-Evaluated in
        (e.verdict a, e.verdict b, e.after, e.result a, e.result b, e.mono a b h)
