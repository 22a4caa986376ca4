-- ===== src/Scenarios/Money.antt =====
-- Runs of the methods on balances and channels.
use sthrip.Base.{arith}
use sthrip.Base.Int.{pos}
use sthrip.Ledger.Method.{Method, call}
use sthrip.Ledger.Invariant.{IsSolvent, call-IsSolvent}
use sthrip.Scenarios.World.{world}

call-IsSolvent_example : IsSolvent (call 50 (Method.withdraw 1 (pos 30) 0) world).1.balances
call-IsSolvent_example =
    call-IsSolvent 50 (Method.withdraw 1 (pos 30) 0) world tt
      ((omega arith, omega arith), ((omega arith, omega arith), tt))
