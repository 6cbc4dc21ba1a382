-- ===== src/Payments.antt =====
-- Payments by card: apps/api/src/modules/payments/payments.service.ts.
pub mod Model
pub mod Charge
pub mod Refund
pub mod Tests
