-- ===== src/Fx.antt =====
-- apps/api/src/modules/fx/fx-rates.service.ts. Currency codes are numbered texts, and a rate is a
-- whole number of some small part of a unit, the same for all rates. The settings, the live
-- provider and what `toUpperCase` makes of a code are arguments.
pub mod Laws
pub mod Monotone
pub mod Tests
use muhammad_tours_and_trave.Prelude.{
  ℕ, suc, ◌+◌, ◌-◌, ◌*◌, ◌/◌, ◌==◌, ltb, ℤ, pos, negsuc, sub_ℕ, Bool, true, false, not,
  if◌then◌else◌, Option, none, some, List, [], ◌∷◌, Result, caught, Action, failure, ◌>>=◌, ◌>>◌,
  pure, gets, modify, throw_if, or_throw, from_result, return_some, attempt,
}

abbrev pub Rates : Type 0
Rates = List (ℕ × ℕ)

-- `rates[code]`
abbrev pub rate_of : ℕ → Rates → Option ℕ
rate_of code [] = none
rate_of code ((c, rate) ∷ rates) = if c == code then some rate else rate_of code rates

-- What the provider's endpoint answers: `res.ok`, and `json.rates` where it is an object.
pub record Response : Type 0 where
  pub is_ok : Bool
  pub rates : Option Rates

-- The endpoint at a time in milliseconds: it answers, or the request fails.
abbrev pub Fetch : Type 0
Fetch = ℕ → Result Response

pub record FxSettings : Type 0 where
  pub base_currency : ℕ
  pub rates : Rates
  pub provider : Option Fetch

-- `LiveRatesSnapshot`
pub record Snapshot : Type 0 where
  pub rates : Rates
  pub fetched_at : ℕ

-- The service's memory, and the times of the requests that it has sent, the latest first.
pub record FxState : Type 0 where
  pub live_cache : Option Snapshot
  pub requests : List ℕ

abbrev pub live_cache_ttl_ms : ℕ
live_cache_ttl_ms = 60 * 60 * 1000

abbrev pub if_young : ℕ → Option Snapshot → Option Rates
if_young now none = none
if_young now (some c) = if ltb now (c.fetched_at + live_cache_ttl_ms) then some c.rates else none

-- `fetch(url)`
abbrev pub send : Fetch → ℕ → Action FxState Response
send fetch now s = from_result (fetch now) (record s { requests = now ∷ s.requests })

unfoldable pub fetch_live_rates : Fetch → ℕ → Action FxState Rates
fetch_live_rates fetch now = do
  cached ← gets (λ s. if_young now s.live_cache)
  return_some cached (do
    res ← send fetch now
    throw_if (not res.is_ok) failure
    rates ← or_throw res.rates failure
    modify (λ s. record s { live_cache = some (record { rates = rates; fetched_at = now }) })
    pure rates)

-- `if (live) return live; return settings.rates`
abbrev or_static : Rates → Option Rates → Rates
or_static static none = static
or_static static (some live) = live

abbrev live_or_static : Rates → Option Fetch → ℕ → Action FxState (Option Rates)
live_or_static static none now = pure (some static)
live_or_static static (some fetch) now = do
  live ← attempt (fetch_live_rates fetch now)
  pure (some (or_static static (caught live)))

unfoldable pub get_rates : Option FxSettings → ℕ → Action FxState (Option Rates)
get_rates none now = pure none
get_rates (some settings) now = live_or_static settings.rates settings.provider now

-- `round2(amount / fromRate * toRate)`, to the nearest cent and halves upwards.
unfoldable pub exchange : ℤ → ℕ → ℕ → ℤ
exchange (pos n) from_rate to_rate = pos ((2 * (n * to_rate) + from_rate) / (2 * from_rate))
exchange (negsuc n) from_rate to_rate =
    sub_ℕ 0 ((2 * (suc n * to_rate) + from_rate - 1) / (2 * from_rate))

abbrev pub exchange_at : ℤ → Option ℕ → Option ℕ → Option ℤ
exchange_at amount (some from_rate) (some to_rate) = some (exchange amount from_rate to_rate)
exchange_at amount _ _ = none

abbrev pub by_rates : ℤ → ℕ → ℕ → Option Rates → Option ℤ
by_rates amount from_code to_code none = none
by_rates amount from_code to_code (some rates) =
    exchange_at amount (rate_of from_code rates) (rate_of to_code rates)

abbrev convert_other : Option FxSettings → ℕ → ℤ → ℕ → ℕ → Action FxState (Option ℤ)
convert_other settings now amount from_code to_code = do
  rates ← get_rates settings now
  pure (by_rates amount from_code to_code rates)

unfoldable pub convert : Option FxSettings → (ℕ → ℕ) → ℕ → ℤ → ℕ → ℕ → Action FxState (Option ℤ)
convert settings upper now amount from to =
    if upper from == upper to
    then pure (some amount)
    else convert_other settings now amount (upper from) (upper to)
