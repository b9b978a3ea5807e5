-- ===== src/Rules.antt =====
-- The pre-flight checks of orders and plans: src/services/scheme-rules.service.ts, the live check of
-- src/services/scheme-availability.service.ts, and src/services/sip-validation.ts.
pub mod Decimal
pub mod Amount
pub mod AmountSpec
pub mod Catalogue
pub mod Live
pub mod Orders
pub mod Plans
pub mod Mirror
pub mod OrderLaws
pub mod PlanLaws
pub mod Redeemable
pub mod Sip
mod Tests
