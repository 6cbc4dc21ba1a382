-- ===== src/Wallet/Bookings/Laws.antt =====
-- A refund gives a booking's money back.
use muhammad_tours_and_trave.Prelude.{
  ℕ, ◌≡◌, ◌≢◌, refl, subst, sym, ◌∙◌, ap, ℤ, pos, round2, int_laws, none, some, ok, arith, ◌==◌,
  find?-update_where_any, ==_refl,
}
use muhammad_tours_and_trave.Wallet.Model.{
  Agency, Wallet, WalletTransaction, LedgerTransactionType, Store, ApplyTransactionInput,
  find_agency, find_wallet, find_transaction,
}
use muhammad_tours_and_trave.Wallet.Apply.{apply_transaction}
use muhammad_tours_and_trave.Wallet.Apply.Outcome.{
  refused, replayed, posted, apply_transaction-Applied, apply_posted, HasOneAmount, new_balance_of,
  posted_store, new_entry,
}
use muhammad_tours_and_trave.Wallet.Bookings.{
  debit_for_booking_input, debit_for_booking, credit_for_booking_input, credit_for_booking,
}

find_wallet-posted_store :
    (input : ApplyTransactionInput) (i : ℕ) (w : Wallet) (s : Store)
    → find_wallet i s ≡ some w
    → find_wallet i (posted_store input w s) ≡ some (record w { balance = new_balance_of input w })
find_wallet-posted_store input i w s found =
    rw
      (find?-update_where_any (λ x. x.id == w.id) (λ x. x.agency_id == i)
        (λ x. record x { balance = new_balance_of input w }) s.wallets (λ x. refl) found)
      (rw (==_refl w.id))

nothing : round2 (pos 0) ≡ pos 0
unfolding round2
nothing = refl

module _ (agency_id : ℕ) (amount : ℤ) (booking_id reference text text' k k' : ℕ)
    (type_ : LedgerTransactionType) (s : Store) where
  abbrev debit_input : ApplyTransactionInput
  debit_input = debit_for_booking_input agency_id amount booking_id reference text k

  abbrev credit_input : ApplyTransactionInput
  credit_input = credit_for_booking_input agency_id amount booking_id reference text' k' type_

  -- The credit goes through at a store, and its wallet is then that of `s`.
  abbrev Refunded : Store → Type 0
  Refunded s' =
      (u : WalletTransaction) × (s'' : Store) × (apply_transaction credit_input s' ≡ (ok u, s''))
      × (find_wallet agency_id s'' ≡ find_wallet agency_id s)

  debited-Refunded :
      {w : Wallet} {a : Agency}
      → find_transaction k' s ≡ none
      → k ≢ k'
      → HasOneAmount debit_input
      → find_wallet agency_id s ≡ some w
      → find_agency agency_id s ≡ some a
      → Refunded (posted_store debit_input w s)
  debited-Refunded {w} {a} fresh' ne one wallet agency =
      let s' = posted_store debit_input w s in
      let w' = record w { balance = new_balance_of debit_input w } in
      let wallet' : find_wallet agency_id s' ≡ some w' =
        find_wallet-posted_store debit_input agency_id w s wallet in
      let new' : find_transaction k' s' ≡ none = ground arith in
      let one' : HasOneAmount credit_input = ground (arith, nothing, one) in
      let restored : new_balance_of credit_input w' ≡ w.balance = omega int_laws in
      (
        new_entry credit_input w' s',
        posted_store credit_input w' s',
        apply_posted credit_input s' one' new' wallet' agency refl,
        find_wallet-posted_store credit_input agency_id w' s' wallet'
            ∙ ap (λ b. some (record w { balance = b })) restored
            ∙ sym wallet,
      )

  -- If the agency's wallet was debited for a booking, then a credit of the same amount under a
  -- key of its own goes through, and the wallet is again what it was before the debit.
  pub credit-debit_for_booking :
      {t : WalletTransaction} {s' : Store}
      → find_transaction k s ≡ none
      → find_transaction k' s ≡ none
      → k ≢ k'
      → debit_for_booking agency_id amount booking_id reference text k s ≡ (ok t, s')
      → (u : WalletTransaction) × (s'' : Store) × (credit_for_booking agency_id amount booking_id
            reference text' k' type_ s'
          ≡ (ok u, s''))
        × (find_wallet agency_id s'' ≡ find_wallet agency_id s)
  unfolding debit_for_booking credit_for_booking
  credit-debit_for_booking {t} {s'} fresh fresh' ne debited =
      elim (apply_transaction-Applied debit_input s) [
        | refused e q ↦ cc
        | replayed r one known q ↦ cc
        | posted w a new wallet agency enough one q ↦
            subst Refunded (ap (λ r. r.1) (sym q ∙ debited))
              (debited-Refunded fresh' ne one wallet agency)
      ]
