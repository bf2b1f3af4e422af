-- ===== src/Policy.antt =====
-- Rules that read no table: memberships, fees, prices, permissions, cases and requests.
pub mod Membership
pub mod Commission
pub mod Pricing
pub mod Accounts
pub mod Cases
pub mod Requests
pub mod Arrangement
pub mod Bookings
