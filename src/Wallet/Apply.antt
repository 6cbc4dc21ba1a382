-- ===== src/Wallet/Apply.antt =====
-- `getOrCreateWallet` and `applyTransaction` of apps/api/src/modules/wallet/wallet.service.ts.
pub mod Outcome
pub mod Ledger
pub mod Retry
use muhammad_tours_and_trave.Prelude.{
  ℕ, ◌+◌, ℤ, pos, ◌+ℤ◌, ◌-ℤ◌, ltb_ℤ, round2, round_cents, Bool, ◌&&◌, ◌||◌, if◌then◌else◌, Option,
  none, some, ◌∷◌, ◌==◌, or_else, Action, bad_request, not_found, failure, insufficient_funds,
  ◌>>=◌, ◌>>◌, pure, return_some, throw_if, gets, modify, or_throw, transaction, update_where,
}
use muhammad_tours_and_trave.Wallet.Model.{
  Agency, Wallet, WalletTransaction, Store, ApplyTransactionInput, find_agency, find_wallet,
  find_transaction,
}

-- `wallet.create`
abbrev pub create_wallet : Agency → Action Store Wallet
create_wallet agency s =
    let w : Wallet = record {
      id = s.next_id;
      agency_id = agency.id;
      currency = agency.currency;
      balance = pos 0;
    } in
    pure w (record s { wallets = w ∷ s.wallets; next_id = s.next_id + 1 })

unfoldable pub get_or_create_wallet : ℕ → Action Store Wallet
get_or_create_wallet agency_id = do
  existing ← gets (find_wallet agency_id)
  return_some existing (do
    found ← gets (find_agency agency_id)
    agency ← or_throw found not_found
    create_wallet agency)

-- The lowest balance that an enforced debit may leave.
abbrev pub credit_floor : Agency → ℤ
credit_floor agency = if agency.credit_enabled then pos 0 -ℤ agency.credit_limit else pos 0

-- `wallet.update({ where: { id }, data: { balance } })`
abbrev pub write_balance : ℕ → ℤ → Store → Store
write_balance i balance s = record s {
  wallets = update_where (λ w. w.id == i) (λ w. record w { balance = balance }) s.wallets;
}

-- The row that `walletTransaction.create` writes.
abbrev pub entry_of : ApplyTransactionInput → Wallet → ℤ → ℤ → ℤ → ℕ → WalletTransaction
entry_of input wallet debit credit new_balance i = record {
  id = i;
  wallet_id = wallet.id;
  booking_id = input.booking_id;
  hotel_booking_id = input.hotel_booking_id;
  type_ = input.type_;
  debit = debit;
  credit = credit;
  previous_balance = wallet.balance;
  new_balance = new_balance;
  currency = wallet.currency;
  reference = input.reference;
  description = input.description;
  created_by = input.created_by;
  idempotency_key = input.idempotency_key;
}

abbrev pub create_transaction : (ℕ → WalletTransaction) → Action Store WalletTransaction
create_transaction row s =
    pure (row s.next_id)
      (record s { transactions = row s.next_id ∷ s.transactions; next_id = s.next_id + 1 })

-- The body of the transaction, after the look-up of the idempotency key has found nothing.
unfoldable pub post_entry : ApplyTransactionInput → ℤ → ℤ → Action Store WalletTransaction
post_entry input debit credit = do
  found ← gets (find_wallet input.agency_id)
  wallet ← or_throw found not_found
  owner ← gets (find_agency input.agency_id)
  agency ← or_throw owner failure
  let new_balance = round_cents (wallet.balance -ℤ debit +ℤ credit)
  throw_if (input.enforce_credit_limit && ltb_ℤ new_balance (credit_floor agency)) (
      insufficient_funds (round_cents (wallet.balance -ℤ credit_floor agency)) debit
        wallet.currency)
  modify (write_balance wallet.id new_balance)
  create_transaction (entry_of input wallet debit credit new_balance)

unfoldable pub apply_transaction : ApplyTransactionInput → Action Store WalletTransaction
apply_transaction input =
    let debit = round2 (or_else input.debit (pos 0)) in
    let credit = round2 (or_else input.credit (pos 0)) in
    do
      throw_if (ltb_ℤ debit (pos 0) || ltb_ℤ credit (pos 0)) bad_request
      throw_if (ltb_ℤ (pos 0) debit && ltb_ℤ (pos 0) credit) bad_request
      transaction (do
        existing ← gets (find_transaction input.idempotency_key)
        return_some existing (post_entry input debit credit))
