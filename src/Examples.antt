-- ===== src/Examples.antt =====
-- Runs of the models on small inputs: each theorem is applied at a database or a case on which its
-- hypotheses hold.
mod Data
mod Policies
mod Members
mod Lines
mod Jobs
mod Money
mod Offers
mod Direct
mod Payments
mod Checkouts
