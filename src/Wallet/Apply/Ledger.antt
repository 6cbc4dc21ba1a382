-- ===== src/Wallet/Apply/Ledger.antt =====
-- `balance` is the sum of the ledger: what the doc comment of WalletService promises.
use muhammad_tours_and_trave.Prelude.{
  ℕ, ◌+◌, ◌<◌, ◌≡◌, ◌≢◌, refl, subst, sym, ◌∙◌, ap, ℤ, pos, ◌+ℤ◌, ◌-ℤ◌, Bool, true, false,
  if◌then◌else◌, some, none, List, [], ◌∷◌, ◌==◌, ==_iff, All, All-imp, All-find?, update_where,
  All-update_where, Option-cases, ok, err, not_found, inl, inr, arith,
}
use muhammad_tours_and_trave.Wallet.Model.{
  Agency, Wallet, WalletTransaction, Store, ApplyTransactionInput, find_agency, find_wallet,
}
use muhammad_tours_and_trave.Wallet.Apply.{apply_transaction, create_wallet, get_or_create_wallet}
use muhammad_tours_and_trave.Wallet.Apply.Outcome.{
  refused, replayed, posted, apply_transaction-Applied, new_entry, new_balance_of, posted_store,
  debit_of, credit_of,
}

-- Credits less debits of the entries of one wallet.
abbrev pub ledger_sum : ℕ → List WalletTransaction → ℤ
ledger_sum i [] = pos 0
ledger_sum i (t ∷ ts) =
    if t.wallet_id == i then ledger_sum i ts -ℤ t.debit +ℤ t.credit else ledger_sum i ts

pub record IsSound (s : Store) : Type 0 where
  -- each balance is the sum of its own entries
  pub balanced : All (λ w. w.balance ≡ ledger_sum w.id s.transactions) s.wallets
  -- each entry takes the balance from the one that it names to the other
  pub chained : All (λ t. t.new_balance ≡ t.previous_balance -ℤ t.debit +ℤ t.credit) s.transactions
  -- ids are given out once
  pub used : All (λ t. t.wallet_id < s.next_id) s.transactions
  pub issued : All (λ w. w.id < s.next_id) s.wallets

ledger_sum-fresh :
    (n : ℕ) (ts : List WalletTransaction) → All (λ t. t.wallet_id < n) ts → ledger_sum n ts ≡ pos 0
ledger_sum-fresh n [] u = refl
ledger_sum-fresh n (t ∷ ts) u = ground (arith, ledger_sum-fresh n ts u.1)

ledger_sum-hit :
    (i : ℕ) (t : WalletTransaction) (ts : List WalletTransaction)
    → t.wallet_id ≡ i
    → ledger_sum i (t ∷ ts) ≡ ledger_sum i ts -ℤ t.debit +ℤ t.credit
ledger_sum-hit i t ts e = ground arith

ledger_sum-miss :
    (i : ℕ) (t : WalletTransaction) (ts : List WalletTransaction)
    → t.wallet_id ≢ i
    → ledger_sum i (t ∷ ts) ≡ ledger_sum i ts
ledger_sum-miss i t ts e = ground arith

below_suc : (i n : ℕ) → i < n → i < n + 1
below_suc i n h = omega arith

-- The wallets after an entry, against the ledger with that entry.
balanced-post :
    (t : WalletTransaction) (ts : List WalletTransaction) (i : ℕ) (b : ℤ) (ws : List Wallet)
    → t.wallet_id ≡ i
    → b ≡ ledger_sum i ts -ℤ t.debit +ℤ t.credit
    → All (λ w. w.balance ≡ ledger_sum w.id ts) ws
    → All
        (λ w. w.balance ≡ ledger_sum w.id (t ∷ ts))
        (update_where (λ w. w.id == i) (λ w. record w { balance = b }) ws)
balanced-post t ts i b [] ti e h = tt
balanced-post t ts i b (w ∷ ws) ti e h = (step (w.id == i) refl, balanced-post t ts i b ws ti e h.1)
  where
    step :
        (c : Bool)
        → (w.id == i) ≡ c
        → let w' = if c then record w { balance = b } else w in
          w'.balance ≡ ledger_sum w'.id (t ∷ ts)
    step true hit =
        subst (λ j. b ≡ ledger_sum j (t ∷ ts)) (sym ((==_iff w.id i).0 hit))
          (e ∙ sym (ledger_sum-hit i t ts ti))
    step false miss = h.0 ∙ sym (ledger_sum-miss w.id t ts (ground (arith, miss)))

posted_store-IsSound :
    (input : ApplyTransactionInput) (w : Wallet) (s : Store)
    → find_wallet input.agency_id s ≡ some w
    → IsSound s
    → IsSound (posted_store input w s)
posted_store-IsSound input w s found h = record {
  balanced =
      balanced-post (new_entry input w s) s.transactions w.id (new_balance_of input w) s.wallets
        refl
        (ap (λ b. b -ℤ debit_of input +ℤ credit_of input)
          (All-find? _ (λ x. x.agency_id == input.agency_id) s.wallets h.balanced found))
        h.balanced;
  chained = (refl, h.chained);
  used = (
    below_suc w.id s.next_id
        (All-find? _ (λ x. x.agency_id == input.agency_id) s.wallets h.issued found),
    All-imp _ _ s.transactions (λ t. below_suc t.wallet_id s.next_id) h.used,
  );
  issued =
      All-update_where (λ x. x.id < s.next_id + 1) (λ x. x.id == w.id)
        (λ x. record x { balance = new_balance_of input w }) s.wallets (λ x e lt. lt)
        (All-imp _ _ s.wallets (λ x. below_suc x.id s.next_id) h.issued);
}

-- Whatever is applied, and however the call ends: if every wallet's balance was the sum of its
-- ledger entries before, it is so afterwards, and every entry still leads from its previous
-- balance to its new one.
pub apply_transaction-IsSound :
    (input : ApplyTransactionInput) (s : Store) → IsSound s → IsSound (apply_transaction input s).1
apply_transaction-IsSound input s h = elim (apply_transaction-Applied input s) [
  | refused e q ↦ rw q h
  | replayed t one known q ↦ rw q h
  | posted w a new wallet agency enough signs q ↦ rw q (posted_store-IsSound input w s wallet h)
]

module _ (i : ℕ) (s : Store) where
  pub get_or_create_found :
      {w : Wallet} → find_wallet i s ≡ some w → get_or_create_wallet i s ≡ (ok w, s)
  unfolding get_or_create_wallet
  get_or_create_found found = rw found

  get_or_create_unknown :
      find_wallet i s ≡ none
      → find_agency i s ≡ none
      → get_or_create_wallet i s ≡ (err not_found, s)
  unfolding get_or_create_wallet
  get_or_create_unknown missing unknown = simp (missing, unknown)

  get_or_create_new :
      {a : Agency}
      → find_wallet i s ≡ none
      → find_agency i s ≡ some a
      → get_or_create_wallet i s ≡ create_wallet a s
  unfolding get_or_create_wallet
  get_or_create_new missing known = simp (missing, known)

  -- The ledger and the audit log stay as they were.
  abbrev pub IsQuiet : Store → Type 0
  IsQuiet s' = (s'.transactions ≡ s.transactions) × (s'.audit ≡ s.audit)

  pub get_or_create_wallet-IsQuiet : IsQuiet (get_or_create_wallet i s).1
  get_or_create_wallet-IsQuiet = elim (Option-cases (find_wallet i s)) [
    | inr (w, found) ↦ rw (get_or_create_found found) (refl, refl)
    | inl missing ↦ elim (Option-cases (find_agency i s)) [
      | inl unknown ↦ rw (get_or_create_unknown missing unknown) (refl, refl)
      | inr (a, known) ↦ rw (get_or_create_new missing known) (refl, refl)
    ]
  ]

create_wallet-IsSound : (a : Agency) (s : Store) → IsSound s → IsSound (create_wallet a s).1
create_wallet-IsSound a s h = record {
  balanced = (sym (ledger_sum-fresh s.next_id s.transactions h.used), h.balanced);
  chained = h.chained;
  used = All-imp _ _ s.transactions (λ t. below_suc t.wallet_id s.next_id) h.used;
  issued = (omega arith, All-imp _ _ s.wallets (λ x. below_suc x.id s.next_id) h.issued);
}

-- A wallet that is made on demand starts at the sum of its entries too: there are none yet.
pub get_or_create_wallet-IsSound :
    (agency_id : ℕ) (s : Store) → IsSound s → IsSound (get_or_create_wallet agency_id s).1
get_or_create_wallet-IsSound i s h = elim (Option-cases (find_wallet i s)) [
  | inr (w, found) ↦ rw (get_or_create_found i s found) h
  | inl missing ↦ elim (Option-cases (find_agency i s)) [
    | inl unknown ↦ rw (get_or_create_unknown i s missing unknown) h
    | inr (a, known) ↦ rw (get_or_create_new i s missing known) (create_wallet-IsSound a s h)
  ]
]
