-- ===== src/Wallet/Model.antt =====
-- The tables that apps/api/src/modules/wallet/wallet.service.ts reads and writes: models B2BAgency,
-- Wallet and WalletTransaction of apps/api/prisma/schema.prisma. Amounts of a row are in cents, and
-- the amounts of an input are in ten-thousandths (`round2` takes the latter to the former).
use muhammad_tours_and_trave.Prelude.{ℕ, ℤ, Bool, Option, List, find?, ◌==◌}

pub data AgencyStatus : Type 0 where
  pending_approval active suspended : AgencyStatus

pub record Agency : Type 0 where
  pub id : ℕ
  pub status : AgencyStatus
  pub currency : ℕ
  pub credit_enabled : Bool
  pub credit_limit : ℤ

pub record Wallet : Type 0 where
  pub id : ℕ
  pub agency_id : ℕ
  pub currency : ℕ
  pub balance : ℤ

pub data LedgerTransactionType : Type 0 where
  deposit booking_debit refund_credit adjustment_credit adjustment_debit : LedgerTransactionType
  commission service_fee : LedgerTransactionType

pub record WalletTransaction : Type 0 where
  pub id : ℕ
  pub wallet_id : ℕ
  pub booking_id : Option ℕ
  pub hotel_booking_id : Option ℕ
  pub type_ : LedgerTransactionType
  pub debit : ℤ
  pub credit : ℤ
  pub previous_balance : ℤ
  pub new_balance : ℤ
  pub currency : ℕ
  pub reference : Option ℕ
  pub description : Option ℕ
  pub created_by : Option ℕ
  pub idempotency_key : ℕ

-- An entry of the audit log: the acting user, the action and the resource.
pub record AuditEntry : Type 0 where
  pub user_id : ℕ
  pub agency_id : ℕ
  pub type_ : LedgerTransactionType
  pub amount : ℤ

-- The tables, the latest transaction and audit entry first, and the next id to be given out.
pub record Store : Type 0 where
  pub agencies : List Agency
  pub wallets : List Wallet
  pub transactions : List WalletTransaction
  pub audit : List AuditEntry
  pub next_id : ℕ

-- `ApplyTransactionInput`
pub record ApplyTransactionInput : Type 0 where
  pub agency_id : ℕ
  pub type_ : LedgerTransactionType
  pub debit : Option ℤ
  pub credit : Option ℤ
  pub booking_id : Option ℕ
  pub hotel_booking_id : Option ℕ
  pub reference : Option ℕ
  pub description : Option ℕ
  pub created_by : Option ℕ
  pub idempotency_key : ℕ
  pub enforce_credit_limit : Bool

abbrev pub find_agency : ℕ → Store → Option Agency
find_agency i s = find? (λ a. a.id == i) s.agencies

-- `wallet.findUnique({ where: { agencyId } })`
abbrev pub find_wallet : ℕ → Store → Option Wallet
find_wallet i s = find? (λ w. w.agency_id == i) s.wallets

-- `walletTransaction.findUnique({ where: { idempotencyKey } })`
abbrev pub find_transaction : ℕ → Store → Option WalletTransaction
find_transaction k s = find? (λ t. t.idempotency_key == k) s.transactions
