-- ===== src/Wallet/Apply/Outcome.antt =====
-- The three ways in which `applyTransaction` can end, as one relation: the proofs about it go
-- through this relation and never through its code.
use muhammad_tours_and_trave.Prelude.{
  ◌+◌, ◌≡◌, refl, sym, subst, rollback, ℤ, pos, ◌+ℤ◌, ◌-ℤ◌, ltb_ℤ, round2, round2-of_cents, Bool,
  false, true, ◌⊎◌, ◌&&◌, ◌||◌, none, some, ◌∷◌, inl, inr, or_else, Error, Result, ok, err,
  bad_request, not_found, failure, insufficient_funds, Bool-cases, Option-cases,
}
use muhammad_tours_and_trave.Wallet.Model.{
  Agency, Wallet, WalletTransaction, Store, ApplyTransactionInput, find_agency, find_wallet,
  find_transaction,
}
use muhammad_tours_and_trave.Wallet.Apply.{
  credit_floor, write_balance, entry_of, post_entry, apply_transaction,
}

-- The amounts of an input, rounded to the cent.
abbrev pub debit_of : ApplyTransactionInput → ℤ
debit_of input = round2 (or_else input.debit (pos 0))

abbrev pub credit_of : ApplyTransactionInput → ℤ
credit_of input = round2 (or_else input.credit (pos 0))

abbrev pub new_balance_of : ApplyTransactionInput → Wallet → ℤ
new_balance_of input w = w.balance -ℤ debit_of input +ℤ credit_of input

abbrev pub new_entry : ApplyTransactionInput → Wallet → Store → WalletTransaction
new_entry input w s =
    entry_of input w (debit_of input) (credit_of input) (new_balance_of input w) s.next_id

-- The tables after a new entry.
abbrev pub posted_store : ApplyTransactionInput → Wallet → Store → Store
posted_store input w s = record s {
  wallets = (write_balance w.id (new_balance_of input w) s).wallets;
  transactions = new_entry input w s ∷ s.transactions;
  next_id = s.next_id + 1;
}

-- The two tests on the amounts of an input, before any table is read.
abbrev pub is_negative : ApplyTransactionInput → Bool
is_negative input = ltb_ℤ (debit_of input) (pos 0) || ltb_ℤ (credit_of input) (pos 0)

abbrev pub is_two_way : ApplyTransactionInput → Bool
is_two_way input = ltb_ℤ (pos 0) (debit_of input) && ltb_ℤ (pos 0) (credit_of input)

abbrev pub HasOneAmount : ApplyTransactionInput → Type 0
HasOneAmount input = (is_negative input ≡ false) × (is_two_way input ≡ false)

pub data Applied (input : ApplyTransactionInput) (s : Store) (r : Result WalletTransaction × Store)
    : Type 0 where
  refused : (e : Error) → r ≡ (err e, s) → Applied input s r
  replayed :
      (t : WalletTransaction)
      → HasOneAmount input
      → find_transaction input.idempotency_key s ≡ some t
      → r ≡ (ok t, s)
      → Applied input s r
  posted :
      (w : Wallet) (a : Agency)
      → find_transaction input.idempotency_key s ≡ none
      → find_wallet input.agency_id s ≡ some w
      → find_agency input.agency_id s ≡ some a
      → (input.enforce_credit_limit && ltb_ℤ (new_balance_of input w) (credit_floor a)) ≡ false
      → HasOneAmount input
      → r ≡ (ok (new_entry input w s), posted_store input w s)
      → Applied input s r

rollback-Applied :
    {input : ApplyTransactionInput} {s : Store} {r : Result WalletTransaction × Store}
    → Applied input s r
    → Applied input s (rollback s r)
rollback-Applied (refused e q) = refused e (rw q)
rollback-Applied (replayed t one known q) = replayed t one known (rw q)
rollback-Applied (posted w a new wallet agency enough signs q) =
    posted w a new wallet agency enough signs (rw q)

module _ (input : ApplyTransactionInput) (s : Store) where
  abbrev post : Result WalletTransaction × Store
  post = post_entry input (debit_of input) (credit_of input) s

  post-Applied :
      find_transaction input.idempotency_key s ≡ none
      → HasOneAmount input
      → (r : Result WalletTransaction × Store) → r ≡ post
      → Applied input s r
  unfolding post_entry
  post-Applied new signs r e = elim (Option-cases (find_wallet input.agency_id s)) [
    | inl no_wallet ↦ refused not_found (rw e (rw no_wallet))
    | inr (w, wallet) ↦ elim (Option-cases (find_agency input.agency_id s)) [
      | inl no_agency ↦ refused failure (rw e (simp (wallet, no_agency)))
      | inr (a, agency) ↦
          elim (Bool-cases
            (input.enforce_credit_limit && ltb_ℤ (new_balance_of input w) (credit_floor a))) [
              | inl short ↦
                  refused
                    (insufficient_funds (w.balance -ℤ credit_floor a) (debit_of input) w.currency)
                    (rw e (simp (wallet, agency, round2-of_cents, short)))
              | inr enough ↦
                  posted w a new wallet agency enough signs
                    (rw e (simp (wallet, agency, round2-of_cents, enough)))
            ]
    ]
  ]

  pub apply_new :
      HasOneAmount input
      → find_transaction input.idempotency_key s ≡ none
      → apply_transaction input s ≡ rollback s post
  unfolding apply_transaction
  apply_new (signs, one) new = simp (signs, one, new)

  pub apply_known :
      {t : WalletTransaction}
      → HasOneAmount input
      → find_transaction input.idempotency_key s ≡ some t
      → apply_transaction input s ≡ (ok t, s)
  unfolding apply_transaction
  apply_known (signs, one) known = simp (signs, one, known)

  pub apply_posted :
      {w : Wallet} {a : Agency}
      → HasOneAmount input
      → find_transaction input.idempotency_key s ≡ none
      → find_wallet input.agency_id s ≡ some w
      → find_agency input.agency_id s ≡ some a
      → (input.enforce_credit_limit && ltb_ℤ (new_balance_of input w) (credit_floor a)) ≡ false
      → apply_transaction input s ≡ (ok (new_entry input w s), posted_store input w s)
  unfolding post_entry
  apply_posted one new wallet agency enough =
      rw (apply_new one new) (simp (wallet, agency, round2-of_cents, enough))

  -- Whatever the input and the tables, the call ends in one of the three ways.
  pub apply_transaction-Applied : Applied input s (apply_transaction input s)
  unfolding apply_transaction
  apply_transaction-Applied = elim (Bool-cases (is_negative input)) [
    | inl negative ↦ refused bad_request (simp negative)
    | inr signs ↦ elim (Bool-cases (is_two_way input)) [
      | inl both ↦ refused bad_request (simp (signs, both))
      | inr one ↦ elim (Option-cases (find_transaction input.idempotency_key s)) [
        | inr (t, known) ↦ replayed t (signs, one) known (apply_known (signs, one) known)
        | inl new ↦
            subst (λ r. Applied input s r) (sym (apply_new (signs, one) new))
              (rollback-Applied (post-Applied new (signs, one) post refl))
      ]
    ]
  ]

  pub apply_no_wallet :
      HasOneAmount input
      → find_transaction input.idempotency_key s ≡ none
      → find_wallet input.agency_id s ≡ none
      → apply_transaction input s ≡ (err not_found, s)
  unfolding post_entry
  apply_no_wallet one new missing = rw (apply_new one new) (simp missing)

  pub apply_short :
      {w : Wallet} {a : Agency}
      → HasOneAmount input
      → find_transaction input.idempotency_key s ≡ none
      → find_wallet input.agency_id s ≡ some w
      → find_agency input.agency_id s ≡ some a
      → (input.enforce_credit_limit && ltb_ℤ (new_balance_of input w) (credit_floor a)) ≡ true
      → apply_transaction input s
        ≡ (err (insufficient_funds (w.balance -ℤ credit_floor a) (debit_of input) w.currency), s)
  unfolding post_entry
  apply_short one new wallet agency short =
      rw (apply_new one new) (simp (wallet, agency, round2-of_cents, short))

  pub apply_malformed :
      (is_negative input ≡ true) ⊎ (is_two_way input ≡ true)
      → apply_transaction input s ≡ (err bad_request, s)
  unfolding apply_transaction
  apply_malformed (inl negative) = simp negative
  apply_malformed (inr both) = elim (Bool-cases (is_negative input)) [
    | inl negative ↦ simp negative
    | inr signs ↦ simp (signs, both)
  ]
