-- ===== src/Cart.antt =====
-- The cart and its checkout: src/services/cart.service.ts.
pub mod Items
pub mod Bounds
pub mod Lines
pub mod Refined
pub mod Checkout
pub mod Settled
pub mod Consent
pub mod Sent
pub mod Payment
pub mod Paid
mod Tests
