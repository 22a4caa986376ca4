-- ===== src/Ledger/Method.antt =====
-- A call of one of the repository's methods, as a value.
use sthrip.Base.{ℕ, String}
use sthrip.Base.Int.{ℤ, pos, ◌≤ℤ◌}
use sthrip.Base.Action.{Action}
use sthrip.Models.Database.{Db}
use sthrip.Ledger.Rows

pub data Method : Type 0 where
  deposit deduct withdraw credit add_pending clear_pending_on_confirm : ℕ → ℤ → ℕ → Method
  set_deposit_address : ℕ → String → ℕ → Method

abbrev pub call : ℕ → Method → Action Db (Unit {0})
call now (Method.deposit a x t) = Rows.deposit now a x t
call now (Method.deduct a x t) = Rows.deduct now a x t
call now (Method.withdraw a x t) = Rows.withdraw now a x t
call now (Method.credit a x t) = Rows.credit now a x t
call now (Method.add_pending a x t) = Rows.add_pending now a x t
call now (Method.clear_pending_on_confirm a x t) = Rows.clear_pending_on_confirm now a x t
call now (Method.set_deposit_address a address t) = Rows.set_deposit_address now a address t

-- The methods that only add are called with amounts of zero or more.
abbrev pub AddsNothingNegative : Method → Type 0
AddsNothingNegative (Method.deposit _ x _) = pos 0 ≤ℤ x
AddsNothingNegative (Method.credit _ x _) = pos 0 ≤ℤ x
AddsNothingNegative (Method.add_pending _ x _) = pos 0 ≤ℤ x
AddsNothingNegative _ = Unit
