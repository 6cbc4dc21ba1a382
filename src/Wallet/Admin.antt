-- ===== src/Wallet/Admin.antt =====
-- The methods of apps/api/src/modules/wallet/wallet.service.ts behind the endpoints: the manual
-- adjustment and the reading of wallets and their ledgers. `agent` is the agent profile that
-- `prisma.user.findUnique` yields for the acting user.
pub mod Laws
use muhammad_tours_and_trave.Prelude.{
  ℕ, zero, suc, ℤ, pos, leb_ℤ, Bool, true, false, not, if◌then◌else◌, Option, none, some, List, [],
  ◌∷◌, ◌==◌, Result, ok, err, Action, bad_request, conflict, forbidden, ◌>>=◌, ◌>>◌, pure, throw_if,
  gets, modify, or_throw, find_many,
}
use muhammad_tours_and_trave.Roles.{wallet_adjust, includes}
use muhammad_tours_and_trave.Access.{AuthenticatedUser, AgentProfile}
use muhammad_tours_and_trave.Wallet.Model.{
  Agency, LedgerTransactionType, deposit, adjustment_credit, adjustment_debit, Wallet,
  WalletTransaction, AuditEntry, Store, ApplyTransactionInput, find_wallet,
}
use muhammad_tours_and_trave.Wallet.Apply.{get_or_create_wallet, apply_transaction}

-- The types of an adjustment.
pub data AdjustmentType : Type 0 where
  deposit_ credit_ debit_ : AdjustmentType

abbrev pub is_debit : AdjustmentType → Bool
is_debit debit_ = true
is_debit _ = false

abbrev pub ledger_type : AdjustmentType → LedgerTransactionType
ledger_type deposit_ = deposit
ledger_type credit_ = adjustment_credit
ledger_type debit_ = adjustment_debit

pub record Adjustment : Type 0 where
  pub type_ : AdjustmentType
  pub amount : ℤ
  pub description : Option ℕ

abbrev pub adjustment_input : ℕ → ℕ → Adjustment → ℕ → ApplyTransactionInput
adjustment_input user_id agency_id input idempotency_key = record {
  agency_id = agency_id;
  type_ = ledger_type input.type_;
  debit = if is_debit input.type_ then some input.amount else none;
  credit = if is_debit input.type_ then none else some input.amount;
  booking_id = none;
  hotel_booking_id = none;
  reference = none;
  description = input.description;
  created_by = some user_id;
  idempotency_key = idempotency_key;
  enforce_credit_limit = is_debit input.type_;
}

abbrev pub record_audit : AuditEntry → Store → Store
record_audit entry s = record s { audit = entry ∷ s.audit }

unfoldable pub admin_adjust :
    AuthenticatedUser → ℕ → Adjustment → ℕ → Action Store WalletTransaction
admin_adjust user agency_id input idempotency_key = do
  throw_if (leb_ℤ input.amount (pos 0)) bad_request
  get_or_create_wallet agency_id
  txn ← apply_transaction (adjustment_input user.id agency_id input idempotency_key)
  modify (
      record_audit (record {
        user_id = user.id;
        agency_id = agency_id;
        type_ = ledger_type input.type_;
        amount = input.amount;
      }))
  pure txn

abbrev agency_of : Option AgentProfile → Option ℕ
agency_of none = none
agency_of (some a) = some a.agency_id

unfoldable pub resolve_own_agency_id : Option AgentProfile → Action Store ℕ
resolve_own_agency_id agent = or_throw (agency_of agent) conflict

unfoldable pub assert_can_manage : AuthenticatedUser → Action Store (Unit {0})
assert_can_manage user = throw_if (not (includes user.permissions wallet_adjust)) forbidden

pub record Pagination : Type 0 where
  pub take : ℕ
  pub cursor : Option ℕ

-- The rows from the one with the given id on; none where there is no such row.
abbrev from_row : ℕ → List WalletTransaction → List WalletTransaction
from_row i [] = []
from_row i (t ∷ ts) = if t.id == i then t ∷ ts else from_row i ts

abbrev first_rows : ℕ → List WalletTransaction → List WalletTransaction
first_rows zero ts = []
first_rows (suc n) [] = []
first_rows (suc n) (t ∷ ts) = t ∷ first_rows n ts

abbrev but_first : List WalletTransaction → List WalletTransaction
but_first [] = []
but_first (t ∷ ts) = ts

abbrev of_wallet : ℕ → List WalletTransaction → List WalletTransaction
of_wallet i ts = find_many (λ t. t.wallet_id == i) ts

-- The table holds the latest row first, which is the order that is asked for.
abbrev page : ℕ → ℕ → Option ℕ → List WalletTransaction → List WalletTransaction
page wallet_id n none ts = first_rows n (of_wallet wallet_id ts)
page wallet_id n (some i) ts = first_rows n (but_first (of_wallet wallet_id (from_row i ts)))

unfoldable pub list_transactions : ℕ → Pagination → Action Store (List WalletTransaction)
list_transactions wallet_id p = gets (λ s. page wallet_id p.take p.cursor s.transactions)

unfoldable pub get_wallet_for_user : Option AgentProfile → Action Store Wallet
get_wallet_for_user agent = do
  agency_id ← resolve_own_agency_id agent
  get_or_create_wallet agency_id

unfoldable pub list_transactions_for_user :
    Option AgentProfile → Pagination → Action Store (List WalletTransaction)
list_transactions_for_user agent p = do
  agency_id ← resolve_own_agency_id agent
  wallet ← get_or_create_wallet agency_id
  list_transactions wallet.id p

unfoldable pub get_wallet_for_agency : AuthenticatedUser → ℕ → Action Store Wallet
get_wallet_for_agency user agency_id = do assert_can_manage user; get_or_create_wallet agency_id

unfoldable pub list_transactions_for_agency :
    AuthenticatedUser → ℕ → Pagination → Action Store (List WalletTransaction)
list_transactions_for_agency user agency_id p = do
  assert_can_manage user
  wallet ← get_or_create_wallet agency_id
  list_transactions wallet.id p

abbrev with_wallet : Store → List Agency → List (Agency × Option Wallet)
with_wallet s [] = []
with_wallet s (a ∷ rest) = (a, find_wallet a.id s) ∷ with_wallet s rest

unfoldable pub list_agency_wallets :
    AuthenticatedUser → Action Store (List (Agency × Option Wallet))
list_agency_wallets user = do assert_can_manage user; gets (λ s. with_wallet s s.agencies)
