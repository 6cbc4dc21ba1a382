-- ===== src/FlightBookings.antt =====
-- The booking of flights: apps/api/src/modules/bookings/bookings.service.ts, and the approval of
-- company bookings, apps/api/src/modules/corporate-approvals/corporate-approvals.service.ts.
pub mod Model
pub mod Suppliers
pub mod Tickets
pub mod Reads
pub mod Pricing
pub mod Create
pub mod Cancel
pub mod Approvals
pub mod Requests
pub mod Steps
pub mod Histories
pub mod Lives
pub mod Ledgers
pub mod Tests
