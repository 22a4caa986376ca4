-- ===== src/Ledger.antt =====
-- Balances of agents (`BalanceRepository`, sthrip/db/balance_repo.py). A session locks the row that
-- it changes, so within one call nobody else writes it: the branches that retry after another
-- session created the same row are not part of the model.
pub mod Rows
pub mod Held
pub mod Balance
pub mod Method
pub mod Invariant
