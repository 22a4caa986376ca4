-- ===== src/Scenarios/Sweeps.antt =====
-- Runs of the sweep over what has expired.
use sthrip.Base.{ℕ, ◌≡◌, refl, arith}
use sthrip.Base.Action.{ok}
use sthrip.Escrow.Expiry.{resolve_expired}
use sthrip.Escrow.TrustRange.{TrustInRange}
use sthrip.Escrow.Sweep.{resolve_expired-TrustInRange}
use sthrip.Escrow.Progress.{NothingDue, resolve_expired-NothingDue}
use sthrip.Base.Table.{find}
use sthrip.Scenarios.World.{world}

resolve_expired-TrustInRange_example :
    ((n : ℕ) × ((resolve_expired 95 world).0 ≡ ok n)) × TrustInRange (resolve_expired 95 world).1
resolve_expired-TrustInRange_example =
    resolve_expired-TrustInRange 95 world
      ((omega arith, omega arith), ((omega arith, omega arith), tt))

-- The sweep on this database resolves six.
counts_six : (resolve_expired 95 world).0 ≡ ok 6
unfolding resolve_expired sthrip.Base.Keys.keys_where find sthrip.Base.Table.set
counts_six = refl

resolve_expired-NothingDue_example : NothingDue 95 (resolve_expired 95 world).1
unfolding find
resolve_expired-NothingDue_example =
    resolve_expired-NothingDue 95 world (refl, (refl, (refl, (refl, (refl, (refl, tt))))))
