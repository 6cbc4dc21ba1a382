-- ===== src/Wallet/Bookings.antt =====
-- The four calls of apps/api/src/modules/wallet/wallet.service.ts by which a booking takes money
-- from its agency's wallet and gives it back.
pub mod Laws
use muhammad_tours_and_trave.Prelude.{ℕ, ℤ, Option, none, some, true, false, Action}
use muhammad_tours_and_trave.Wallet.Model.{
  LedgerTransactionType, booking_debit, WalletTransaction, Store, ApplyTransactionInput,
}
use muhammad_tours_and_trave.Wallet.Apply.{apply_transaction}

module _ (agency_id : ℕ) (amount : ℤ) (booking_id booking_reference : ℕ) (description : ℕ)
    (idempotency_key : ℕ) where
  abbrev pub debit_for_booking_input : ApplyTransactionInput
  debit_for_booking_input = record {
    agency_id = agency_id;
    type_ = booking_debit;
    debit = some amount;
    credit = none;
    booking_id = some booking_id;
    hotel_booking_id = none;
    reference = some booking_reference;
    description = some description;
    created_by = none;
    idempotency_key = idempotency_key;
    enforce_credit_limit = true;
  }

  unfoldable pub debit_for_booking : Action Store WalletTransaction
  debit_for_booking = apply_transaction debit_for_booking_input

  abbrev pub credit_for_booking_input : LedgerTransactionType → ApplyTransactionInput
  credit_for_booking_input type_ = record {
    agency_id = agency_id;
    type_ = type_;
    debit = none;
    credit = some amount;
    booking_id = some booking_id;
    hotel_booking_id = none;
    reference = some booking_reference;
    description = some description;
    created_by = none;
    idempotency_key = idempotency_key;
    enforce_credit_limit = false;
  }

  unfoldable pub credit_for_booking : LedgerTransactionType → Action Store WalletTransaction
  credit_for_booking type_ = apply_transaction (credit_for_booking_input type_)

  -- The hotel counterparts, on the other column.
  unfoldable pub debit_for_hotel_booking : Action Store WalletTransaction
  debit_for_hotel_booking = apply_transaction (record {
    agency_id = agency_id;
    type_ = booking_debit;
    debit = some amount;
    credit = none;
    booking_id = none;
    hotel_booking_id = some booking_id;
    reference = some booking_reference;
    description = some description;
    created_by = none;
    idempotency_key = idempotency_key;
    enforce_credit_limit = true;
  })

  unfoldable pub credit_for_hotel_booking : LedgerTransactionType → Action Store WalletTransaction
  credit_for_hotel_booking type_ = apply_transaction (record {
    agency_id = agency_id;
    type_ = type_;
    debit = none;
    credit = some amount;
    booking_id = none;
    hotel_booking_id = some booking_id;
    reference = some booking_reference;
    description = some description;
    created_by = none;
    idempotency_key = idempotency_key;
    enforce_credit_limit = false;
  })
