-- ===== src/Lib.antt =====
-- The server of a travel agency (apps/api, a NestJS application over PostgreSQL) as a library of
-- definitions and theorems. Each service is modelled as it is written: its tables are a record of
-- lists of rows, and a method is an action, a function from the tables to a result or an exception
-- and the tables that it leaves. A database transaction that throws puts the tables back, and
-- what a method wrote before a throw outside of one stays written.
--
-- The parts, and the code that each is about:
-- - Prelude: what all parts share. Effects has the actions, Keeping what a method keeps true of its
--   tables step by step, Table the queries of a table, Int the integers and the rounding of money
--   (`round2`), History the audit trail of a row with a status and the lemmas that every service
--   with such a trail uses, Reference the loop that draws a unique reference code
--   (`generateUniqueReference`, five attempts, which are its fuel: the code gives up after as many).
-- - Roles: packages/types/src/roles.ts, the roles, permissions and default grants.
-- - Access: apps/api/src/common/guards/permissions.guard.ts (`canActivate`), and the steps that
--   every service repeats: `resolveActor`, `ownsIt` and the filter of `listMine`.
-- - Rbac: apps/api/src/modules/rbac/rbac.service.ts, every method: which user has which role, and
--   which role holds which permission.
-- - Auth: apps/api/src/modules/auth/auth.service.ts, totp.util.ts and strategies/. Tokens issues,
--   rotates and revokes the refresh tokens, Accounts has the registration, the check of a password
--   and its reset, TwoFactor the second factor, and Totp the one-time codes and base 32. A text is
--   the list of its ASCII codes here, a digest is a number, and argon2, SHA-256, HMAC, the signing of
--   tokens and the random generator are arguments; what is drawn is numbered by the next id. Requests
--   puts the calls that write in one type, and Steps says what all of them keep true of the refresh
--   tokens; Rotation, Codes, Reset, SignUp and SignIn are about what lets a user in.
-- - Booking: the state machine of flight bookings. Status and Lifecycle are
--   apps/api/src/modules/bookings/booking-status.transitions.ts, and StateMachine is
--   booking-state-machine.service.ts (`transition`).
-- - Wallet: apps/api/src/modules/wallet/wallet.service.ts. Apply has `getOrCreateWallet` and
--   `applyTransaction`, Bookings the calls by which a booking is debited and credited, and Admin
--   the methods behind the endpoints (`adminAdjust`, the readings).
-- - Payments: apps/api/src/modules/payments/payments.service.ts over the provider of
--   payment-provider.interface.ts, which is an argument: a function from the number of the payment
--   and the request to an answer or an exception. Charge has the three `chargeFor...` methods and
--   Refund `refundPayment`, `refundHotelPayment` and `settleRefund`. The tables record the requests
--   that the provider was sent.
-- - HajjUmrah: apps/api/src/modules/hajj-umrah/hajj-umrah.service.ts, every method, over Payments.
--   Packages is the catalog and Bookings the reservation of seats, the deposit and the
--   installments. Steps puts these together from what their steps keep true; Seats, Capacity and
--   Catalog are about the seats, Paid about the balance, Priced about the status.
-- - Pricing: apps/api/src/modules/flights/pricing.service.ts (`computeMarkup`).
-- - Itinerary: packages/types/src/itinerary.ts (`groupSegmentsByLeg`), which the frontends show an
--   offer's segments by. Order is about the sort of the segments and Laws about the legs.
-- - Fx: apps/api/src/modules/fx/fx-rates.service.ts: `convert`, the choice of the rates and the
--   cache of the live ones. The provider is an argument: a function from the time to its answer.
-- - TravelPolicy: apps/api/src/modules/travel-policy/travel-policy.service.ts. Evaluate has
--   `evaluate` and `resolveCostCenter`, over Fx, and Admin the methods that write policies and cost
--   centres.
-- - FlightBookings: apps/api/src/modules/bookings/bookings.service.ts and
--   apps/api/src/modules/corporate-approvals/corporate-approvals.service.ts, every method of both,
--   over the state machine, the wallet, the payments and the travel policy. The adapters of the
--   suppliers (packages/types/src/flights.ts, `FlightSupplierAdapter`) are arguments, one function
--   for each method that they have, from the request and the number of the call to an answer or an
--   exception; Suppliers records what they were asked. Pricing has the reprice and the checks before
--   a booking, Create `createBooking`, Tickets `issueTicketsForBooking`, Cancel `cancelBooking` and
--   `performCancellation`, Reads what a booking shows and to whom, Approvals `listPending` and
--   `decide`. Requests puts the calls that write in one type, so that Steps, Histories, Ledgers and
--   Lives can be about any sequence of them: Steps proves step by step what a call keeps, given that
--   each service that it uses keeps it, and the other three apply that.
-- - Visas: apps/api/src/modules/visas/visas.service.ts, every method.
-- - Manpower: apps/api/src/modules/manpower/manpower.service.ts, every method: Jobs the catalog,
--   Applications the submission and the lists, Review the moves of an application.
--
-- How the state corresponds: a table is a list of its rows, the latest first where the code asks
-- for that order; ids, references, texts and dates are natural numbers, since the code only
-- compares them; an amount of a row is an integer number of cents, as its column holds it, and an
-- amount of a request is in ten-thousandths of the unit, so that `round2` has something to round.
-- JavaScript computes these amounts in floating point: the model computes them exactly, which
-- agrees with it as long as the amounts stay small enough for a double to tell the cents apart,
-- except that `Math.round(n * 100) / 100` takes down some half cents whose double lies below them,
-- such as 1.005, where the model's `round2` takes every half cent up.
-- The random generator, the clock and the profile of the acting user are arguments. The audit log
-- is a list of entries that a service writes to its own tables. Each method runs alone: what two
-- requests do to each other between their reads and writes is not modelled. The text of
-- an exception, log lines and metrics are left out everywhere.
--
-- Rates of exchange are ratios of natural numbers, above 0 as every rate is: by a rate of 0 the
-- model's `exchange` gives 0, where JavaScript gives Infinity or NaN. A text that the code puts
-- together of other values, such as the note of a travel policy or the reason of a move, is a
-- constructor with these values or a number.
--
-- Not modelled: the frontends, the supplier adapters and the network, the search for flights and
-- hotels, the booking of hotels, the administration of agencies, suppliers, companies and markup
-- rules, the throttles of the login, and the reports. Of a flight booking, the route that is written
-- into the spreadsheet and the rows that an answer nests are left out.
pub mod Prelude
pub mod Roles
pub mod Access
pub mod Rbac
pub mod Auth
pub mod Booking
pub mod Wallet
pub mod Payments
pub mod HajjUmrah
pub mod Fx
pub mod TravelPolicy
pub mod FlightBookings
pub mod Pricing
pub mod Itinerary
pub mod Visas
pub mod Manpower
