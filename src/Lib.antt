-- ===== src/Lib.antt =====
-- A model of the core of the backend and the theorems that make it correct.
--
-- The program is a TypeScript service on Prisma and Postgres. Controllers (src/controllers) read
-- requests and call services (src/services); services read and write tables (prisma/schema.prisma)
-- and call outside systems through src/integrations. The components modelled here are services: each
-- has its tables as a record of lists of rows, and each exported operation is a function from the
-- tables to the tables it leaves and its answer or refusal. A `throw` is a value (`err`), a
-- transaction that throws leaves the tables, and what is outside the code (clocks, fresh ids, random
-- codes, answers of FP and of the SMS provider, hashes, decimals) is an argument.
--
-- Basics: numbers, lists, texts and results that the models share.
--
-- Ticket (src/services/support-ticket.service.ts): the tickets of support, their thread, history,
-- deadline and stamps. Ticket/Row has the rows, Ticket/Desk the handlers of staff,
-- `createStaffTicket`, `updateTicket`, `staffReply` and `createTicketFromChat`, Ticket/Investor
-- those of the investor, `getMyTicket`, `createMyTicket` and `replyToMyTicket`, Ticket/Steps their
-- sequences; Ticket/Audit, Ticket/Grown, Ticket/Stamps, Ticket/Sla and Ticket/Visible the proofs.
-- The conversation of a chat that `getMyTicket` shows is an argument; the unique key on it is
-- checked where a ticket is raised from a chat. Lists and summaries for the portal are left out:
-- they are queries.
--
-- Otp (src/services/otp.service.ts): one-time codes. Otp/Store has the challenges, Otp/Request
-- `requestOtp`, Otp/Verify `verifyOtp` and `consumeVerificationToken`; Otp/Lockout, Otp/Accepts,
-- Otp/Tokens, Otp/Budget and Otp/History (with Otp/Rows and Otp/Attempts) the proofs. The phone
-- number is taken as normalised; the hash functions, the provider and the channel are arguments.
--
-- Rules (src/services/scheme-rules.service.ts, src/services/scheme-availability.service.ts,
-- src/services/sip-validation.ts): the checks before an order or a plan. Rules/Decimal says what is
-- relied on of the ORM's decimals, for values that fit in their 20 digits, Rules/Amount has
-- `checkAmount` and `checkUnits`, Rules/Catalogue the tables and their reads, Rules/Live the live
-- check that writes FP's answer back, Rules/Orders the checks of purchases, redemptions and
-- switches, Rules/Plans `validatePlan`, Rules/Sip the SIP mandate and schedules; Rules/AmountSpec,
-- Rules/Mirror, Rules/OrderLaws, Rules/Redeemable and Rules/PlanLaws the proofs. Flags of a scheme
-- that no check of an order reads are left out.
--
-- Staff (src/utils/staff-hierarchy.ts, src/services/staff-admin.service.ts): the levels of portal
-- staff and the writes of staff administration. Staff/Hierarchy, Staff/Store and Staff/Admin are the
-- model, Staff/Guards, Staff/Invariant, Staff/Steps and Staff/Escalation the proofs. Each call is run
-- as a whole; calls that interleave are not modelled. Passwords are their hashes.
--
-- SignIn (src/services/staff-auth.service.ts, src/utils/totp.ts): sign-in of portal staff.
-- SignIn/Totp has `totpAt` and `verifyTotp` over an argument for the HMAC, SignIn/Store the tables,
-- SignIn/Password `login` and `changePassword`, SignIn/Session `authenticate` and `logout`,
-- SignIn/Factor `beginMfaSetup` and `verifyMfa`, SignIn/Steps their sequences; SignIn/Codes,
-- SignIn/Wrong, SignIn/Lockout, SignIn/Replay, SignIn/Spent, SignIn/Once, SignIn/Tokens and SignIn/Refused the
-- proofs. Times are milliseconds; each call is run as a whole; hashes and the check of a password
-- are arguments; the sealing of secrets, `me` and `sessionState` (reads) and the delay for an unknown
-- email are left out.
--
-- Roles (src/services/role-admin.service.ts, src/utils/role-key.ts): the roles and what they grant.
-- Roles/Key has `roleKeyFrom`, Roles/Store the tables, Roles/Admin `createRole`, `updateRole` and
-- `deleteRole`; Roles/Shape, Roles/Guards, Roles/Access, Roles/Escalation and Roles/Levels the proofs.
-- Permissions are numbered as in src/types/staff.types.ts; the case of letters is an argument.
--
-- Cart (src/services/cart.service.ts): the cart and its checkout. Cart/Items has `getCart`,
-- `putCartItem` and `removeCartItem`, Cart/Checkout `createCheckout` and the stage of a checkout,
-- Cart/Consent `consentCheckout`, Cart/Payment `payCheckout` and `consentTarget`; Cart/Bounds,
-- Cart/Lines, Cart/Refined, Cart/Settled, Cart/Sent and Cart/Paid the proofs. The order, plan and OTP services are
-- arguments, with a state of their own where a checkout is placed; what a confirmation or a payment
-- asks of them is the list of its calls. `refreshCheckout`, which only re-reads, is left out.
--
-- Announcement (src/services/announcement.service.ts): announcements to investors, one row at a time.
-- Announcement/Row has `createAnnouncement`, `updateAnnouncement`, `transition` and what a run of
-- `runAnnouncementDispatch` makes of a row, Announcement/Approved the proof. The audience, the
-- delivery of notifications, the audit log and what investors see are left out.
--
-- Phone (src/utils/phone.ts): mobile numbers. Phone/Number is the model, Phone/Canonical the proof.
--
-- Webhook (src/services/fp-webhook.service.ts): the inbox of events. Webhook/Inbox is the model,
-- Webhook/Delivery and Webhook/Retries the proofs. What a handler's calls come to is an argument, and
-- so is what others do to the inbox while FP is asked. A run is over the rows in the order in which
-- they were received; its fuel is the limit of the run, and five runs for each event are enough
-- because an event is tried at most five times.
--
-- Lease (src/services/job-lease.ts): the leases of background jobs. Lease/Checkpoint has the
-- statements on `projection_checkpoints`, Lease/Exclusion the proof. The loop on timers is left out.
--
-- Not modelled: src/controllers, src/routes and src/middleware (HTTP), src/integrations (clients of
-- outside systems), the other services (orders, payments, plans, KYC, portfolio, reports,
-- notifications, compliance), and the migrations, tests and scripts.
pub mod Announcement
mod Basics
pub mod Cart
pub mod Lease
pub mod Otp
pub mod Phone
pub mod Roles
pub mod Rules
pub mod SignIn
pub mod Staff
pub mod Ticket
pub mod Webhook
