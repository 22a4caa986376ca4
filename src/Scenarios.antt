-- ===== src/Scenarios.antt =====
-- Runs of the services on small databases.
mod World
mod Deals
mod Parts
mod Money
mod Channels
mod Sweeps
mod Payments
mod Loans
mod Transfers
mod Agreements
mod Orders
mod Addresses
