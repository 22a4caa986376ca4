-- ===== src/Scenarios/Deals.antt =====
-- Runs of the calls on whole deals.
use sthrip.Base.{◌≡◌, ◌⊎◌, some, List, [], ◌∷◌, refl, true, false}
use sthrip.Base.Int.{pos, negsuc, ◌+ℤ◌}
use sthrip.Base.Table.{sum}
use sthrip.Base.Action.{ok, Raised}
use sthrip.Models.Escrow.{EscrowStatus}
use sthrip.Ledger.Held.{counted}
use sthrip.Accounting.{assets}
use sthrip.Escrow.MilestoneRepo.{MilestoneTerms}
use sthrip.Escrow.Repo.{released_deal}
use sthrip.Escrow.Trust.{fee_of}
use sthrip.Escrow.Deals.{Request, create_escrow, release_escrow}
use sthrip.Escrow.Expiry.{resolve_single}
use sthrip.Escrow.Outcomes.{Releasable, released_state, release_escrow_outcome}
use sthrip.Escrow.Creation.{Creatable, created_deal, created_state, create_escrow_outcome}
use sthrip.Escrow.Resolution.{
  HasEnded, refunded_state, auto_released_state, resolve_single_outcome, resolve_single-overpays,
}
use sthrip.Escrow.Preservation.{AllWellFormed}
use sthrip.Escrow.Machine.{view, Move}
use sthrip.Escrow.Lifecycle.{perform-Move}
use sthrip.Escrow.History.{Call, perform_all, perform_all-assets, perform}
use sthrip.Scenarios.World.{
  world, world-IsWellFormed, handed_over, half_done, finds_handed_over, finds_half_done,
}

release_escrow_outcome_example :
    (Releasable 1 (pos 600) handed_over
      × (release_escrow 50 13 1 (pos 600) world ≡ (
        ok (released_deal 50 (pos 600) (fee_of (pos 600) 100) handed_over),
        released_state 50 13 1 (pos 600) handed_over world,
      )))
    ⊎ ((¬ Releasable 1 (pos 600) handed_over)
        × Raised (release_escrow 50 13 1 (pos 600) world).0
        × ((release_escrow 50 13 1 (pos 600) world).1 ≡ world))
release_escrow_outcome_example =
    release_escrow_outcome 50 13 1 (pos 600) handed_over world finds_handed_over

abbrev draft : MilestoneTerms
draft = record {
  description = "draft";
  amount = pos 300;
  delivery_timeout_hours = 24;
  review_timeout_hours = 24;
}

abbrev final : MilestoneTerms
final = record draft { description = "final"; amount = pos 200 }

abbrev two_parts : Request
two_parts = record {
  buyer_id = 1;
  seller_id = 2;
  amount = pos 500;
  description = "two parts";
  accept_timeout_hours = 24;
  delivery_timeout_hours = 48;
  review_timeout_hours = 24;
  milestones = some (draft ∷ final ∷ []);
}

create_escrow_outcome_example :
    (Creatable 20 two_parts world
      × (create_escrow 50 20 "hash" two_parts world
          ≡ (ok (created_deal 50 "hash" two_parts), created_state 50 20 "hash" two_parts world)))
    ⊎ ((¬ Creatable 20 two_parts world) × Raised (create_escrow 50 20 "hash" two_parts world).0)
create_escrow_outcome_example = create_escrow_outcome 50 20 "hash" two_parts world

resolve_single_outcome_example :
    ((EscrowStatus.delivered ≡ EscrowStatus.created)
      × (resolve_single 95 13 world ≡ (ok true, refunded_state 95 13 (pos 0) handed_over world)))
    ⊎ ((EscrowStatus.delivered ≡ EscrowStatus.accepted)
        × (resolve_single 95 13 world
            ≡ (ok true, refunded_state 95 13 (negsuc 2) handed_over world)))
    ⊎ ((EscrowStatus.delivered ≡ EscrowStatus.delivered)
        × (resolve_single 95 13 world ≡ (ok true, auto_released_state 95 13 handed_over world)))
    ⊎ (HasEnded EscrowStatus.delivered × (resolve_single 95 13 world ≡ (ok false, world)))
resolve_single_outcome_example = resolve_single_outcome 95 13 handed_over world finds_handed_over

-- 600 of the 1000 were released before, and the books grow by those 600.
resolve_single-overpays_example :
    assets 0 (resolve_single 95 16 world).1 +ℤ counted 0 0 (pos 400)
    ≡ assets 0 world +ℤ counted 0 0 (pos 1000)
unfolding sum ◌+ℤ◌
resolve_single-overpays_example =
    resolve_single-overpays 0 95 16 half_done world finds_half_done refl refl

abbrev calls : List Call
calls =
    Call.accept 50 11 2
    ∷ Call.deliver 51 11 2
    ∷ Call.release 52 11 1 (pos 700)
    ∷ Call.release_part 53 14 1 1 (pos 600)
    ∷ Call.cancel 54 11 1
    ∷ Call.create 55 20 "hash" two_parts
    ∷ []

perform_all-assets_example :
    AllWellFormed (perform_all calls world) × (assets 0 (perform_all calls world) ≡ assets 0 world)
perform_all-assets_example = perform_all-assets 0 calls world world-IsWellFormed

perform-Move_example : Move (view world) (view (perform (Call.release 80 13 1 (pos 400)) world))
perform-Move_example = perform-Move (Call.release 80 13 1 (pos 400)) world
