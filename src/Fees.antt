-- ===== src/Fees.antt =====
-- Collected fees: `_record_fee` of sthrip/services/escrow_service.py and of
-- sthrip/services/channel_service.py, which differ in the source that they write.
use sthrip.Base.{ℕ, none, ◌≡◌, List, [], ◌∷◌, if◌then◌else◌}
use sthrip.Base.Int.{ℤ, pos, ◌+ℤ◌, ◌≤ℤ◌, leb_ℤ, int_laws}
use sthrip.Base.Action.{Action, modify}
use sthrip.Models.Parties.{FeeCollection, FeeSource, FeeCollectionStatus}
use sthrip.Models.Database.{Db}
use sthrip.Ledger.Held.{counted}

unfoldable pub with_fee : FeeSource → ℕ → ℕ → ℤ → List FeeCollection → List FeeCollection
with_fee source id token amount fees =
    let fee : FeeCollection = record {
      source_type = source;
      source_id = id;
      amount = amount;
      token = token;
      status = FeeCollectionStatus.pending;
      payer_agent_id = none;
      amount_piconero = none;
      rate_applied_bps = none;
      transaction_ref = none;
      collected_at = none;
    } in
    if leb_ℤ amount (pos 0) then fees else fee ∷ fees

unfoldable pub record_fee : FeeSource → ℕ → ℕ → ℤ → Action Db (Unit {0})
record_fee source id token amount =
    modify (λ db. record db { fees = with_fee source id token amount db.fees })

-- The fees collected in token `u`.
unfoldable pub fee_sum : ℕ → List FeeCollection → ℤ
fee_sum u [] = pos 0
fee_sum u (f ∷ fees) = counted u f.token f.amount +ℤ fee_sum u fees

pub fee_sum-with_fee :
    (u : ℕ) (source : FeeSource) (id token : ℕ) (amount : ℤ) (fees : List FeeCollection)
    → pos 0 ≤ℤ amount
    → fee_sum u (with_fee source id token amount fees) ≡ fee_sum u fees +ℤ counted u token amount
unfolding fee_sum with_fee counted
fee_sum-with_fee u source id token amount fees h = grind int_laws
