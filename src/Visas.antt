-- ===== src/Visas.antt =====
-- apps/api/src/modules/visas/visas.service.ts: applications for a visa, and their review.
pub mod Model
pub mod Service
pub mod Laws
pub mod Tests
