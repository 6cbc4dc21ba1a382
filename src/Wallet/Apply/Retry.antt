-- ===== src/Wallet/Apply/Retry.antt =====
-- What a caller of `applyTransaction` can rely on: a retry changes nothing, a refusal writes
-- nothing, an enforced debit respects the credit terms, and a credit undoes a debit.
use muhammad_tours_and_trave.Prelude.{
  ℕ, ◌≡◌, refl, ℤ, pos, ◌+ℤ◌, ◌-ℤ◌, ◌≤ℤ◌, Bool, true, false, some, none, ==_refl, Result, ok, err,
  ◌⊎◌, none, bad_request, not_found, insufficient_funds,
}
use muhammad_tours_and_trave.Wallet.Model.{
  Agency, Wallet, WalletTransaction, Store, ApplyTransactionInput, find_wallet, find_transaction,
}
use muhammad_tours_and_trave.Wallet.Apply.{apply_transaction}
use muhammad_tours_and_trave.Wallet.Apply.Outcome.{
  refused, replayed, posted, apply_transaction-Applied, apply_known, new_entry, posted_store,
  debit_of, credit_of, is_negative, is_two_way,
}

-- What a call that ended so has left behind: its entry under its key, or nothing new.
abbrev pub Recorded : ApplyTransactionInput → Store → Result WalletTransaction × Store → Type 0
Recorded input s (ok t, s') =
    (find_transaction input.idempotency_key s' ≡ some t) × (apply_transaction input s' ≡ (ok t, s'))
Recorded input s (err e, s') = s' ≡ s

-- A call that fails writes nothing. After a call that succeeds, the same call again returns the
-- same entry and writes nothing: no retry can move money twice.
pub apply_transaction_idempotent :
    (input : ApplyTransactionInput) (s : Store) → Recorded input s (apply_transaction input s)
apply_transaction_idempotent input s = elim (apply_transaction-Applied input s) [
  | refused e q ↦ rw q refl
  | replayed t one known q ↦ rw q (known, apply_known input s one known)
  | posted w a new wallet agency enough one q ↦
      let s' = posted_store input w s in
      let known : find_transaction input.idempotency_key s' ≡ some (new_entry input w s) =
        rw (==_refl input.idempotency_key) in
      rw q (known, apply_known input s' one known)
]

-- What the terms of an agency ask of a balance: its credit line, if it has one, covers what it owes.
abbrev pub Covers : Bool → ℤ → ℤ → Type 0
Covers true credit_limit balance = pos 0 ≤ℤ (balance +ℤ credit_limit)
Covers false credit_limit balance = pos 0 ≤ℤ balance

-- The agency's wallet as it is stored, and that its balance is within the terms.
pub record IsCovered (a : Agency) (i : ℕ) (t : WalletTransaction) (s : Store) : Type 0 where
  pub wallet : Wallet
  pub stored : find_wallet i s ≡ some wallet
  pub shown : t.new_balance ≡ wallet.balance
  pub covered : Covers a.credit_enabled a.credit_limit wallet.balance

-- How an enforced call under a new key can end.
pub data WithinTerms (a : Agency) (input : ApplyTransactionInput) (s : Store)
    (x : Result WalletTransaction × Store) : Type 0 where
  entered :
      (w : Wallet) (t : WalletTransaction) (s' : Store)
      → find_wallet input.agency_id s ≡ some w
      → x ≡ (ok t, s')
      → t.new_balance ≡ w.balance -ℤ debit_of input +ℤ credit_of input
      → IsCovered a input.agency_id t s'
      → WithinTerms a input s x
  short :
      (w : Wallet) (available debit : ℤ) (currency : ℕ)
      → find_wallet input.agency_id s ≡ some w
      → ¬ Covers a.credit_enabled a.credit_limit (w.balance -ℤ debit_of input +ℤ credit_of input)
      → x ≡ (err (insufficient_funds available debit currency), s)
      → WithinTerms a input s x
  no_wallet :
      find_wallet input.agency_id s ≡ none → x ≡ (err not_found, s) → WithinTerms a input s x
  malformed :
      (is_negative input ≡ true) ⊎ (is_two_way input ≡ true)
      → x ≡ (err bad_request, s)
      → WithinTerms a input s x
