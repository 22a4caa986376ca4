-- ===== src/Escrow/Resolution.antt =====
-- How the resolution of one expired deal ends, and what it does to the books.
use sthrip.Base.{ℕ, ◌≡◌, ◌⊎◌, none, some, inl, inr, ◌∷◌, arith, true, false, refl, or_default}
use sthrip.Base.Int.{ℤ, pos, negsuc, ◌+ℤ◌, ◌-ℤ◌, int_laws, parts}
use sthrip.Base.Table.{find, set, find-set_self, sum-set}
use sthrip.Base.Action.{ok}
use sthrip.Models.Parties.{xmr, FeeSource, audit, webhook}
use sthrip.Models.Escrow.{EscrowDeal, EscrowStatus}
use sthrip.Models.Database.{Db}
use sthrip.Ledger.Held.{counted, counted_zero, counted-sub, held-paid, held-amend}
use sthrip.Ledger.Rows.{paid, amend, add_available}
use sthrip.Fees.{with_fee, fee_sum-with_fee}
use sthrip.Accounting.{in_escrow, assets, open_amount}
use sthrip.Escrow.Repo.{released_deal, expired_deal}
use sthrip.Escrow.Trust.{completion_trust, fee_of, adjusted, fee_of_bounds}
use sthrip.Escrow.Expiry.{resolve_single}
use sthrip.Escrow.WellFormed.{IsWellFormed}

-- The buyer is refunded the whole amount, and the seller's trust moves by `delta`.
abbrev pub refunded_state : ℕ → ℕ → ℤ → EscrowDeal → Db → Db
refunded_state now id delta d db =
    let t = or_default d.token xmr in
    record db {
      balances = amend now d.buyer_id t (add_available now d.amount) db.balances;
      deals = set id (expired_deal now d) db.deals;
      reputations = adjusted now d.seller_id delta db.reputations;
      journal =
          audit "escrow.expired" none (some id)
          ∷ webhook d.seller_id "escrow.expired"
          ∷ webhook d.buyer_id "escrow.expired"
          ∷ db.journal;
    }

-- The seller has the whole amount less the fee.
abbrev pub auto_released_state : ℕ → ℕ → EscrowDeal → Db → Db
auto_released_state now id d db =
    let t = or_default d.token xmr in
    let fee = fee_of d.amount d.fee_percent in
    record db {
      balances = paid now d.seller_id (d.amount -ℤ fee) t db.balances;
      fees = with_fee FeeSource.escrow id t fee db.fees;
      deals = set id (released_deal now d.amount fee d) db.deals;
      reputations = completion_trust now d.buyer_id d.seller_id d.amount d.amount db.reputations;
      journal =
          audit "escrow.auto_released" none (some id)
          ∷ webhook d.seller_id "escrow.completed"
          ∷ webhook d.buyer_id "escrow.completed"
          ∷ db.journal;
    }

-- The statuses that nothing leaves.
abbrev pub HasEnded : EscrowStatus → Type 0
HasEnded EscrowStatus.created = ⊥
HasEnded EscrowStatus.accepted = ⊥
HasEnded EscrowStatus.delivered = ⊥
HasEnded _ = Unit

-- For a deal that is there: a deal that nobody accepted, or that was accepted and not delivered, is
-- refunded whole, the second with three points of the seller's trust lost; one that was delivered is
-- released whole; one that has ended is left, with the answer false.
pub resolve_single_outcome :
    (now id : ℕ) (d : EscrowDeal) (db : Db)
    → find id db.deals ≡ some d
    → ((d.status ≡ EscrowStatus.created)
        × (resolve_single now id db ≡ (ok true, refunded_state now id (pos 0) d db)))
      ⊎ ((d.status ≡ EscrowStatus.accepted)
          × (resolve_single now id db ≡ (ok true, refunded_state now id (negsuc 2) d db)))
      ⊎ ((d.status ≡ EscrowStatus.delivered)
          × (resolve_single now id db ≡ (ok true, auto_released_state now id d db)))
      ⊎ (HasEnded d.status × (resolve_single now id db ≡ (ok false, db)))
unfolding resolve_single adjusted
resolve_single_outcome now id d db e = ground (
  arith,
  find-set_self id (expired_deal now d) d db.deals e,
  find-set_self id (released_deal now d.amount (fee_of d.amount d.fee_percent) d) d db.deals e,
)

-- A refund adds to the books what it pays beyond what the deal still held.
refunded_state-assets :
    (u now id : ℕ) (delta : ℤ) (d : EscrowDeal) (db : Db)
    → find id db.deals ≡ some d
    → assets u (refunded_state now id delta d db) +ℤ in_escrow u d
      ≡ assets u db +ℤ counted u (or_default d.token xmr) d.amount
unfolding assets in_escrow
refunded_state-assets u now id delta d db e =
    let t = or_default d.token xmr in
    omega (
      int_laws,
      parts (
          held-amend u now d.buyer_id t (add_available now d.amount) d.amount db.balances
            (λ r. refl)),
      parts (sum-set (in_escrow u) id (expired_deal now d) d db.deals e),
      parts (counted_zero u t),
    )

auto_released_state-assets :
    (u now id : ℕ) (d : EscrowDeal) (db : Db)
    → find id db.deals ≡ some d
    → IsWellFormed d
    → d.status ≡ EscrowStatus.delivered
    → assets u (auto_released_state now id d db) ≡ assets u db
unfolding assets in_escrow
auto_released_state-assets u now id d db e w st =
    let fee = fee_of d.amount d.fee_percent in
    let t = or_default d.token xmr in
    let bounds = fee_of_bounds d.amount d.fee_percent w.amount_positive w.rate_fits in
    let held_before : in_escrow u d ≡ counted u t d.amount = rw st in
    omega (
      int_laws,
      parts held_before,
      parts (held-paid u now d.seller_id t (d.amount -ℤ fee) db.balances (omega int_laws)),
      parts (fee_sum-with_fee u FeeSource.escrow id t fee db.fees bounds.0),
      parts (sum-set (in_escrow u) id (released_deal now d.amount fee d) d db.deals e),
      parts (counted-sub u t d.amount fee),
      parts (counted_zero u t),
    )

-- The resolution of a well-formed deal without milestones keeps the books of every token.
pub resolve_single-assets :
    (u now id : ℕ) (d : EscrowDeal) (db : Db)
    → find id db.deals ≡ some d
    → IsWellFormed d
    → d.is_multi_milestone ≡ false
    → assets u (resolve_single now id db).1 ≡ assets u db
unfolding in_escrow
resolve_single-assets u now id d db e w m =
    let paid_back = refunded_state-assets u now id in
    elim (resolve_single_outcome now id d db e) [
      | inl (st, done) ↦
          let before : in_escrow u d ≡ counted u (or_default d.token xmr) d.amount = rw st in
          rw done (omega (int_laws, parts (paid_back (pos 0) d db e), parts before))
      | inr (inl (st, done)) ↦
          let before : in_escrow u d ≡ counted u (or_default d.token xmr) d.amount = rw (st, m) in
          rw done (omega (int_laws, parts (paid_back (negsuc 2) d db e), parts before))
      | inr (inr (inl (st, done))) ↦ rw done (auto_released_state-assets u now id d db e w st)
      | inr (inr (inr (_, done))) ↦ rw done
    ]

-- The resolution of an accepted deal of milestones refunds the deal's whole amount, whatever was
-- released before: with what its milestones still held added, the books are as before with the
-- whole amount added.
pub resolve_single-overpays :
    (u now id : ℕ) (d : EscrowDeal) (db : Db)
    → find id db.deals ≡ some d
    → d.is_multi_milestone ≡ true
    → d.status ≡ EscrowStatus.accepted
    → assets u (resolve_single now id db).1
        +ℤ counted u (or_default d.token xmr) (open_amount d.milestones)
      ≡ assets u db +ℤ counted u (or_default d.token xmr) d.amount
unfolding in_escrow
resolve_single-overpays u now id d db e m st =
    let before : in_escrow u d ≡ counted u (or_default d.token xmr) (open_amount d.milestones) =
      rw (st, m) in
    let paid_back = refunded_state-assets u now id (negsuc 2) d db e in
    elim (resolve_single_outcome now id d db e) [
      | inl (no_, _) ↦ ground arith
      | inr (inl (_, done)) ↦ rw done (omega (int_laws, parts paid_back, parts before))
      | inr (inr (inl (no_, _))) ↦ ground arith
      | inr (inr (inr (no_, _))) ↦ ground arith
    ]
