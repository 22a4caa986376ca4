-- ===== src/Scenarios/Parts.antt =====
-- Runs of the calls on milestones.
use sthrip.Base.{◌≡◌, ◌⊎◌, refl, arith}
use sthrip.Base.Int.{pos, ◌+ℤ◌, ◌-ℤ◌}
use sthrip.Base.Table.{sum}
use sthrip.Base.Action.{ok, Raised}
use sthrip.Ledger.Held.{counted}
use sthrip.Accounting.{assets}
use sthrip.Escrow.Milestones.{release_milestone}
use sthrip.Escrow.MilestoneOutcomes.{
  Releasable, released_result, released_state, release_milestone_outcome,
}
use sthrip.Escrow.Expiry.{resolve_milestone_expiry}
use sthrip.Escrow.MilestoneExpiry.{resolve_milestone_expiry-assets}
use sthrip.Scenarios.World.{
  world, reviewed_part, half_done, finds_reviewed_part, finds_half_done, first_delivered,
  second_active, finds_first_delivered, finds_second_active,
}

release_milestone_outcome_example :
    (Releasable 1 (pos 500) first_delivered reviewed_part
      × (release_milestone 50 14 1 1 (pos 500) world ≡ (
        ok (released_result 50 1 (pos 500) first_delivered reviewed_part),
        released_state 50 14 1 (pos 500) first_delivered reviewed_part world,
      )))
    ⊎ ((¬ Releasable 1 (pos 500) first_delivered reviewed_part)
        × Raised (release_milestone 50 14 1 1 (pos 500) world).0
        × ((release_milestone 50 14 1 1 (pos 500) world).1 ≡ world))
release_milestone_outcome_example =
    release_milestone_outcome 50 14 1 1 (pos 500) first_delivered reviewed_part world
      finds_reviewed_part finds_first_delivered

-- 600 were released with a fee of 6: 394 of the 400 that are open come back.
resolve_milestone_expiry-assets_example :
    assets 0 (resolve_milestone_expiry 95 16 2 world).1 +ℤ counted 0 0 (pos 400)
    ≡ assets 0 world +ℤ counted 0 0 (pos 394)
unfolding ◌-ℤ◌ ◌+ℤ◌ sum
resolve_milestone_expiry-assets_example =
    resolve_milestone_expiry-assets 0 95 16 2 second_active half_done world finds_half_done
      finds_second_active refl refl refl (omega arith)
