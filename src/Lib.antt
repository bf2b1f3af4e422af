-- ===== src/Lib.antt =====
-- The marketplace backend: bookings of services between a seeker and a provider, with an online
-- payment that is held until the work is confirmed, a paid work queue per provider, trust scores,
-- refunds, cancellations, and cases that an administrator decides.
--
-- State. The database is the record Schema.Store.Db: each table of prisma/schema.prisma that the
-- modelled services touch is the list of its rows, oldest first, with the columns that they read
-- or write. A transaction is a function from a database to a result (an error carries the status
-- and the code that the service throws, and leaves the database as it was). Base.Tables has the
-- queries of the Prisma client: find (findFirst, findUnique), select (findMany), count, update
-- (update, updateMany), delete and insert (create); `where` is a test on a row.
--
-- Files and the code that they are about:
-- - Base: Booleans, results, lists, tables and integers. Schema: enums, rows and database.
-- - Policy/Membership: src/services/subscription-policy.ts (subscriptionBenefits,
--   providerMembershipWhere, assertListingCapacity, membershipQuote); Policy/Commission:
--   payment-commission.ts; Policy/Pricing: bookings/direct-listing-pricing.ts and
--   src/lib/listing-pricing.ts; Policy/Accounts: src/utils/permissions.ts, src/utils/security.ts,
--   account-lifecycle.service.ts, offer-eligibility.ts; Policy/Cases: report-penalty-policy.ts,
--   report-decision-policy.ts; Policy/Requests: src/lib/request-deletion.ts,
--   src/lib/request-archive.ts, request-payment-methods.ts; Policy/Bookings:
--   bookings/paid-start-readiness.ts, bookings/completion-review.ts; Policy/Arrangement:
--   src/lib/service-arrangement.ts, with JobLocationSchema of src/schema/location.schema.ts and
--   locationFromRecord and assertJobLocation of src/lib/proximity.ts.
-- - Providers: provider-membership.service.ts (ensureProviderTrial, assertNewProviderBusiness).
-- - Queue: queue.service.ts (recalculateQueueInTransaction is recalculate_queue,
--   notifyWaitlistInTransaction is notify_waitlist); Queue/Waitlist: bookings/waitlist.service.ts;
--   Queue/Metrics: bookings/queue-metrics.ts; Queue/Order, Queue/Reindex, Queue/Recalculate,
--   Queue/Counts and Queue/Frame hold the proofs on the order, on positions and on what a
--   recalculation leaves alone.
-- - Trust: trust.service.ts (applyTrustEventInTransaction is apply_trust_event); Trust/Bookings:
--   trust-policy.service.ts; Trust/Score, Trust/History, Trust/Points and Trust/Frame
--   hold proofs.
-- - Bookings: booking-lifecycle.service.ts, booking-progress.service.ts,
--   bookings/lifecycle-events.ts and case-resolution.service.ts; Bookings/Start:
--   bookings/provider-operations.service.ts; Bookings/Completion:
--   bookings/completion.service.ts. Bookings/Begin, Bookings/OneJob, Bookings/Frame and
--   Bookings/Completion/* hold proofs. Bookings/Direct: createDirectRequest of
--   bookings/direct-bookings.service.ts; Bookings/Direct/Responses: its
--   respondToDirectBookingService; Bookings/Direct/Inquiries: its createDirectFromOfferService;
--   the other files of Bookings/Direct hold proofs.
-- - Offers: offers.service.ts (submitOffer, acceptOffer, rejectOffer) and
--   offer-selection-notifications.service.ts. Offers/Selected has the rule that one offer of a
--   request is selected at most; Offers/Kept and Offers/Submitted hold proofs.
-- - Payments: releaseOfferHold, markPaymentAttemptFailed and expireStalePaymentAttempts of
--   payment-attempt.service.ts; Payments/Prepare and Payments/Prepare/Create: the first
--   transaction of initiateOnlinePayment; Payments/Capture, with Capture/Rows and
--   Capture/Finalize: finalizeSuccessfulPayment and refundCapturedAttempt; Payments/Gateway:
--   initiateOnlinePayment, getPaymentAttemptStatus and reconcileOnlinePaymentReturn. The other
--   files of Payments hold proofs.
-- - Refunds: payment-refund.service.ts. Cancellations: performImmediateCancel of
--   cancellation.service.ts; Cancellations/Requests: its requestCancellation,
--   respondToCancellationRequest (declining) and escalateCancellationRequest.
-- - Operations: admin-resolution-operation.service.ts. Escalations:
--   completion-escalation.service.ts.
-- - Flow: sequences of the transactions that start, complete, dispute, settle, refund and cancel
--   bookings, with Flow/Paid for the proofs on them; Flow/Selection: sequences of those that
--   submit, reject, hold, pay for and take offers.
-- - Examples: runs on small inputs.
-- Paths without a directory are in src/services.
--
-- How the parts interact. The booking services call the queue (a job that ends or is cancelled
-- leaves it, the others move up, and the first of the waitlist is told), trust (a settlement
-- awards points), and the shared guards of Bookings. A refund is two transactions with a call of
-- the payment gateway between them: the record Refunds.World has the answers of the gateway
-- (getPaymentIntent, createRefund) and, as functions on the database, whatever other transactions
-- run before each of the two; Cancellations.Surroundings adds those that run between the reads of
-- an immediate cancellation, its refund and its last transaction. A checkout holds an offer while
-- it is paid for: the hold is taken with a new payment attempt, ends when the attempt fails or
-- its time runs out, and becomes the selection of the offer when the payment is captured, which
-- creates the booking and its entry of the queue. The record Payments.Gateway.Gateway has the
-- answers of the payment gateway to a checkout and a return from one.
--
-- Conventions. Ids are numbers, and `next_id` stands for a new cuid. Times are milliseconds,
-- durations minutes, amounts centavos (the source has Decimal(10, 2)). The clock is the argument
-- `now`. The advisory locks order the transactions that they guard, so each runs here on its own,
-- and a row that is read again under the lock is the row that was read first, but for a refund
-- and an immediate cancellation, which let other transactions run in between. Texts for people
-- are left out, with their lengths as arguments where the source tests them; a notification is a
-- constructor for its title and link. Unique keys that the source formats as strings are data
-- (EventKey, LedgerKey). The unique keys that a new booking or a new entry of the queue can
-- repeat, of prisma/schema.prisma and prisma/migrations, are tested where the row is created
-- (booking_conflicts, entry_conflicts), and so is the payment that an attempt gets; the
-- transaction then fails with the status 500. The unique keys of other tables, and those that an
-- update could repeat, are not tested; where a theorem needs unique ids it says so. `updatedAt`
-- is kept only where the review of a completion reads it. A text that a schema measures is a
-- number with the text's length, before and after trimming (Schema.Rows.Text), and a coordinate
-- is an integer of millionths of a degree. A ZodError is the status 400 with the code
-- validation_failed. The reason that is stored with a failed attempt is left out. Loops are
-- structural recursion over the rows that were read. Only initiateOnlinePayment calls itself; its
-- model takes the number of these calls, and one more than there are pending attempts is enough.
--
-- Not modelled: the controllers, routes, sockets, e-mail, uploads, AI summaries and search, which
-- are input and output; the publishing and editing of requests and listings; messages and the
-- sign-in of accounts; the approval of a cancellation by the other participant or an
-- administrator; the resolution of reports.
pub mod Base
pub mod Schema
pub mod Policy
pub mod Providers
pub mod Queue
pub mod Trust
pub mod Offers
pub mod Payments
pub mod Bookings
pub mod Refunds
pub mod Cancellations
pub mod Operations
pub mod Escalations
pub mod Flow
pub mod Examples
