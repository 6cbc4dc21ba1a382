-- ===== src/HajjUmrah.antt =====
-- Hajj and Umrah packages: apps/api/src/modules/hajj-umrah/hajj-umrah.service.ts.
pub mod Model
pub mod Packages
pub mod Bookings
pub mod Catalog
pub mod Tests
