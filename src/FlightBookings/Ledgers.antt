-- ===== src/FlightBookings/Ledgers.antt =====
-- What booking and cancelling flights does to the agencies' wallets:
-- apps/api/src/modules/bookings/bookings.service.ts over
-- apps/api/src/modules/wallet/wallet.service.ts.
use muhammad_tours_and_trave.Prelude.{sym, subst, List}
use muhammad_tours_and_trave.Wallet.Apply.Ledger as Ledger
use muhammad_tours_and_trave.Wallet.Apply.Ledger.{
  apply_transaction-IsSound, get_or_create_wallet-IsSound,
}
use muhammad_tours_and_trave.FlightBookings.Model.{Store, Services}
use muhammad_tours_and_trave.FlightBookings.Suppliers.{move}
use muhammad_tours_and_trave.FlightBookings.Requests.{Request, handle_all}
use muhammad_tours_and_trave.FlightBookings.Steps.Parts.{IsStepwise}
use muhammad_tours_and_trave.FlightBookings.Steps.Deciding.{handle_all-kept}

-- Each wallet's balance is the sum of its ledger.
pub record IsBalanced (s : Store) : Type 0 where
  pub ledger : Ledger.IsSound s.wallet

IsBalanced-IsStepwise : (services : Services) → IsStepwise IsBalanced services
unfolding move
IsBalanced-IsStepwise services = record {
  moved = λ i to user reason. record { kept = λ s h. record { ledger = h.ledger } };
  referenced = λ i reference s h. record { ledger = h.ledger };
  inserted =
      λ row passengers id_row status_row. record { kept = λ s h. record { ledger = h.ledger } };
  applied = λ input. record {
    kept = λ s h. record { ledger = apply_transaction-IsSound input s.wallet h.ledger };
  };
  opened = λ agency. record {
    kept = λ s h. record { ledger = get_or_create_wallet-IsSound agency s.wallet h.ledger };
  };
  charged = λ target reference amount currency key token. record {
    kept = λ s h. record { ledger = h.ledger };
  };
  returned = λ target amount currency. record { kept = λ s h. record { ledger = h.ledger } };
  framed = λ s s' booking wallet payments le h. record {
    ledger = subst Ledger.IsSound (sym wallet) h.ledger;
  };
}

-- Whatever bookings, cancellations and decisions are asked for, in whatever order, and however
-- they end: the balance of every wallet is the sum of its ledger.
pub handle_all-IsBalanced :
    (requests : List (Services × Request)) (s : Store)
    → IsBalanced s
    → IsBalanced (handle_all requests s)
handle_all-IsBalanced requests s h = handle_all-kept IsBalanced IsBalanced-IsStepwise requests s h
