-- ===== src/Ticket.antt =====
-- Support tickets: src/services/support-ticket.service.ts, over the rows of `SupportTicket` in
-- prisma/schema.prisma. A ticket carries its `messages` and `events` relations, oldest first.
pub mod Row
pub mod Desk
pub mod Investor
pub mod Steps
pub mod Audit
pub mod Grown
pub mod Stamps
pub mod Sla
pub mod Visible
mod Tests
