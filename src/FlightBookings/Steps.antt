-- ===== src/FlightBookings/Steps.antt =====
-- What the methods of apps/api/src/modules/bookings/bookings.service.ts keep true, put together from
-- what their steps keep: the calls of the other services, the new row, and writes elsewhere.
pub mod Parts
pub mod Preparing
pub mod Creating
pub mod Cancelling
pub mod Deciding
