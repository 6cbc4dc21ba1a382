-- ===== src/Wallet.antt =====
-- apps/api/src/modules/wallet/wallet.service.ts: the agencies' wallets and their ledger.
pub mod Model
pub mod Apply
pub mod Bookings
pub mod Admin
pub mod Tests
