-- ===== src/Fx/Tests.antt =====
-- The theorems on exchange rates at two currencies and a snapshot that is ten minutes old.
use muhammad_tours_and_trave.Prelude.{◌≡◌, refl, pos, some, [], ◌∷◌, ok, err, failure}
use muhammad_tours_and_trave.Fx.{
  Fetch, FxSettings, Snapshot, FxState, exchange, by_rates, get_rates, fetch_live_rates, convert,
}
use muhammad_tours_and_trave.Fx.Laws.{Returns, convert-Returns}

-- A provider that is down.
abbrev down : Fetch
down = λ now. err failure

abbrev settings : FxSettings
settings = record { base_currency = 7; rates = (7, 100) ∷ (8, 250) ∷ []; provider = some down }

abbrev cached : Snapshot
cached = record { rates = (7, 100) ∷ (8, 300) ∷ []; fetched_at = 1000 }

abbrev state : FxState
state = record { live_cache = some cached; requests = 1000 ∷ [] }

convert-Returns_example : Returns (convert (some settings) (λ c. c) 9000000 (pos 1999) 7 8 state)
convert-Returns_example = convert-Returns (some settings) (λ c. c) 9000000 7 8 state (pos 1999)

-- Half a cent is rounded up, and a provider that is down leaves the static table.
rounded : by_rates (pos 1999) 7 8 (some settings.rates) ≡ some (pos 4998)
unfolding exchange
rounded = refl

fallen_back :
    (convert (some settings) (λ c. c) 9000000 (pos 1999) 7 8 state).0 ≡ ok (some (pos 4998))
unfolding convert get_rates fetch_live_rates exchange
fallen_back = refl
