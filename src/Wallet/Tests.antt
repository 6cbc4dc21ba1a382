-- ===== src/Wallet/Tests.antt =====
-- The theorems on wallets at one agency with a deposit.
use muhammad_tours_and_trave.Prelude.{
  ◌≡◌, refl, pos, ◌+ℤ◌, ◌-ℤ◌, round2, of_cents, true, some, none, arith, [], ◌∷◌, ok,
}
use muhammad_tours_and_trave.Wallet.Model.{
  Agency, active, Wallet, WalletTransaction, deposit, refund_credit, Store, ApplyTransactionInput,
  find_wallet,
}
use muhammad_tours_and_trave.Wallet.Apply.{post_entry, apply_transaction}
use muhammad_tours_and_trave.Wallet.Apply.Outcome.{new_entry, posted_store}
use muhammad_tours_and_trave.Wallet.Apply.Ledger.{IsSound, apply_transaction-IsSound}
use muhammad_tours_and_trave.Wallet.Apply.Retry.{Recorded, apply_transaction_idempotent}
use muhammad_tours_and_trave.Wallet.Bookings.{
  debit_for_booking_input, debit_for_booking, credit_for_booking,
}
use muhammad_tours_and_trave.Wallet.Bookings.Laws.{credit-debit_for_booking}

abbrev agency : Agency
agency = record {
  id = 7;
  status = active;
  currency = 0;
  credit_enabled = true;
  credit_limit = pos 50000;
}

abbrev wallet : Wallet
wallet = record { id = 1; agency_id = 7; currency = 0; balance = pos 100000 }

abbrev first_deposit : WalletTransaction
first_deposit = record {
  id = 2;
  wallet_id = 1;
  booking_id = none;
  hotel_booking_id = none;
  type_ = deposit;
  debit = pos 0;
  credit = pos 100000;
  previous_balance = pos 0;
  new_balance = pos 100000;
  currency = 0;
  reference = none;
  description = none;
  created_by = some 5;
  idempotency_key = 500;
}

abbrev tables : Store
tables = record {
  agencies = agency ∷ [];
  wallets = wallet ∷ [];
  transactions = first_deposit ∷ [];
  audit = [];
  next_id = 3;
}

tables-IsSound : IsSound tables
unfolding ◌+ℤ◌ ◌-ℤ◌
tables-IsSound = record {
  balanced = (refl, tt);
  chained = (refl, tt);
  used = (omega arith, tt);
  issued = (omega arith, tt);
}

-- A debit of 300.00 for booking 11.
abbrev debit : ApplyTransactionInput
debit = debit_for_booking_input 7 (pos 3000000) 11 111 0 501

-- More than the balance and the credit limit together.
abbrev too_much : ApplyTransactionInput
too_much = debit_for_booking_input 7 (pos 20000000) 11 111 0 501

debited :
    apply_transaction debit tables
    ≡ (ok (new_entry debit wallet tables), posted_store debit wallet tables)
unfolding apply_transaction post_entry round2 of_cents ◌+ℤ◌ ◌-ℤ◌
debited = refl

balance_after :
    find_wallet 7 (apply_transaction debit tables).1 ≡ some (record wallet { balance = pos 70000 })
unfolding apply_transaction post_entry round2 of_cents ◌+ℤ◌ ◌-ℤ◌
balance_after = refl

refusal_writes_nothing : (apply_transaction too_much tables).1 ≡ tables
unfolding apply_transaction post_entry round2 of_cents ◌+ℤ◌ ◌-ℤ◌
refusal_writes_nothing = refl

apply_transaction-IsSound_example : IsSound (apply_transaction debit tables).1
apply_transaction-IsSound_example = apply_transaction-IsSound debit tables tables-IsSound

apply_transaction_idempotent_example : Recorded debit tables (apply_transaction debit tables)
apply_transaction_idempotent_example = apply_transaction_idempotent debit tables

debited_for_booking :
    debit_for_booking 7 (pos 3000000) 11 111 0 501 tables
    ≡ (ok (new_entry debit wallet tables), posted_store debit wallet tables)
unfolding debit_for_booking
debited_for_booking = debited

credit-debit_for_booking_example :
    (u : WalletTransaction) × (s'' : Store) × (credit_for_booking 7
        (pos 3000000)
        11
        111
        1
        502
        refund_credit
        (posted_store debit wallet tables)
      ≡ (ok u, s''))
    × (find_wallet 7 s'' ≡ find_wallet 7 tables)
credit-debit_for_booking_example =
    credit-debit_for_booking 7 (pos 3000000) 11 111 0 1 501 502 refund_credit tables
      {t = new_entry debit wallet tables} {s' = posted_store debit wallet tables} refl refl
      (ground arith) debited_for_booking
