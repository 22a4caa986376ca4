-- ===== src/Swaps.antt =====
-- Swaps: the service for orders with exchanges and HTLCs (sthrip/services/swap_service.py), and the
-- conversion of bits in addresses (sthrip/swaps/utils/bitcoin.py).
pub mod Bech32
pub mod RoundTrip
pub mod Rates
pub mod Providers
pub mod Orders
pub mod Service
pub mod Polling
pub mod Events
pub mod Polls
pub mod Trace
pub mod Books
pub mod Ends
