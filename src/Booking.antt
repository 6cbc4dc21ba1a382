-- ===== src/Booking.antt =====
-- Flight bookings: apps/api/src/modules/bookings/.
pub mod Status
pub mod Lifecycle
pub mod Model
pub mod StateMachine
pub mod Tests
