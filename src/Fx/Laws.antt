-- ===== src/Fx/Laws.antt =====
-- What a caller of apps/api/src/modules/fx/fx-rates.service.ts can rely on.
use muhammad_tours_and_trave.Prelude.{
  ℕ, ◌+◌, ◌<◌, ◌≡◌, refl, ◌==◌, ltb, ℤ, true, false, Bool-cases, inl, inr, Option, none, some,
  Result, ok, Call-cases, arith,
}
use muhammad_tours_and_trave.Fx.{
  Rates, Fetch, FxSettings, Snapshot, FxState, live_cache_ttl_ms, fetch_live_rates, or_static,
  live_or_static, get_rates, by_rates, convert,
}

-- A call that returns, whatever happens on the way.
abbrev pub Returns : {A S : Type 0} → Result A × S → Type 0
Returns {A} {S} r = (a : A) × (s : S) × (r ≡ (ok a, s))

live_or_static-Returns :
    (static : Rates) (provider : Option Fetch) (now : ℕ) (s : FxState)
    → Returns (live_or_static static provider now s)
live_or_static-Returns static none now s = (some static, s, refl)
live_or_static-Returns static (some fetch) now s =
    elim (Call-cases (fetch_live_rates fetch now s)) [
      | inl (r, s', q) ↦ (some (or_static static (some r)), s', rw q refl)
      | inr (e, s', q) ↦ (some static, s', rw q refl)
    ]

get_rates-Returns :
    (settings : Option FxSettings) (now : ℕ) (s : FxState) → Returns (get_rates settings now s)
unfolding get_rates
get_rates-Returns none now s = (none, s, refl)
get_rates-Returns (some settings) now s =
    live_or_static-Returns settings.rates settings.provider now s

module _ (settings : Option FxSettings) (upper : ℕ → ℕ) (now : ℕ) (from to : ℕ) (s : FxState) where
  pub convert_same :
      (amount : ℤ)
      → (upper from == upper to) ≡ true
      → convert settings upper now amount from to s ≡ (ok (some amount), s)
  unfolding convert
  convert_same amount same = rw same refl

  pub convert-by_rates :
      {rates : Option Rates} {s' : FxState}
      → (amount : ℤ) → (upper from == upper to) ≡ false
      → get_rates settings now s ≡ (ok rates, s')
      → convert settings upper now amount from to s
        ≡ (ok (by_rates amount (upper from) (upper to) rates), s')
  unfolding convert
  convert-by_rates amount other got = simp (other, got)

  -- How a conversion ends, for all amounts at once: it leaves them, or goes by one table of rates.
  pub record Converted : Type 0 where
    pub answer : ℤ → Option ℤ
    pub after : FxState
    pub result :
        (amount : ℤ) → convert settings upper now amount from to s ≡ (ok (answer amount), after)
    pub rates : Option Rates
    pub by :
        (amount : ℤ)
        → answer amount ≡ (elim (upper from == upper to) [
          | true ↦ some amount
          | false ↦ by_rates amount (upper from) (upper to) rates
        ])

  pub convert-Converted : Converted
  convert-Converted = elim (Bool-cases (upper from == upper to)) [
    | inl same ↦ record {
      answer = λ a. some a;
      after = s;
      result = λ a. convert_same a same;
      rates = none;
      by = λ a. rw same refl;
    }
    | inr other ↦
        let (rates, s', got) = get_rates-Returns settings now s in
        record {
          answer = λ a. by_rates a (upper from) (upper to) rates;
          after = s';
          result = λ a. convert-by_rates a other got;
          rates = rates;
          by = λ a. rw other refl;
        }
  ]

  -- Whatever the live provider does, a conversion returns.
  pub convert-Returns : (amount : ℤ) → Returns (convert settings upper now amount from to s)
  convert-Returns amount = let c = convert-Converted in (c.answer amount, c.after, c.result amount)

module _ (settings : FxSettings) (fetch : Fetch) (upper : ℕ → ℕ) (now : ℕ) (s : FxState)
    (c : Snapshot) where
  young_rates :
      settings.provider ≡ some fetch
      → s.live_cache ≡ some c
      → ltb now (c.fetched_at + live_cache_ttl_ms) ≡ true
      → get_rates (some settings) now s ≡ (ok (some c.rates), s)
  unfolding get_rates fetch_live_rates
  young_rates live cached young = simp (live, cached, young)

  -- While the snapshot is less than an hour old, a conversion goes by its rates, and the provider
  -- is not asked.
  convert_young :
      (amount : ℤ) (from to : ℕ)
      → settings.provider ≡ some fetch
      → s.live_cache ≡ some c
      → now < c.fetched_at + live_cache_ttl_ms
      → (upper from == upper to) ≡ false
      → convert (some settings) upper now amount from to s
        ≡ (ok (by_rates amount (upper from) (upper to) (some c.rates)), s)
  convert_young amount from to live cached young other =
      convert-by_rates (some settings) upper now from to s amount other
        (young_rates live cached (ground arith))
