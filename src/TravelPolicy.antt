-- ===== src/TravelPolicy.antt =====
-- apps/api/src/modules/travel-policy/travel-policy.service.ts.
pub mod Model
pub mod Evaluate
pub mod Admin
pub mod Tests
