-- ===== src/Manpower.antt =====
-- apps/api/src/modules/manpower/manpower.service.ts: the catalog of jobs abroad, the applications
-- for them, and their review.
pub mod Model
pub mod Jobs
pub mod Applications
pub mod Review
pub mod Counting
pub mod Tests
