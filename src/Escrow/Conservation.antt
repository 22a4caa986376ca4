-- ===== src/Escrow/Conservation.antt =====
-- The books over each call on a whole deal.
use sthrip.Base.{
  List, ℕ, ◌≡◌, ◌≤◌, some, inl, inr, arith, Option-cases, Bool-cases, refl, or_default,
}
use sthrip.Base.Int.{ℤ, ◌-ℤ◌, int_laws, parts}
use sthrip.Base.Table.{Table, find, set, sum-set, All, find-All}
use sthrip.Models.Parties.{Entry, xmr, FeeSource}
use sthrip.Models.Milestone
use sthrip.Models.Milestone.{EscrowMilestone, MilestoneStatus}
use sthrip.Models.Escrow.{EscrowDeal, EscrowStatus}
use sthrip.Models.Database.{Db}
use sthrip.Ledger.Held.{counted, held-paid, held-amend, counted-sub, counted_zero}
use sthrip.Ledger.Rows.{paid, add_available}
use sthrip.Fees.{fee_sum-with_fee}
use sthrip.Escrow.WellFormed.{IsWellFormed}
use sthrip.Escrow.MilestoneRepo.{activated}
use sthrip.Accounting.{escrowed, open_amount, in_escrow, assets, open_milestone}
use sthrip.Escrow.Repo.{delivered_deal, released_deal, cancelled_deal}
use sthrip.Escrow.Trust.{fee_of, fee_of_bounds}
use sthrip.Escrow.Deals.{deliver_escrow, release_escrow, cancel_escrow, accept_escrow}
use sthrip.Escrow.Outcomes.{
  released_state, cancelled_state, accepted_result, deliver_escrow_outcome, release_escrow_outcome,
  cancel_escrow_outcome, accept_escrow_outcome, Releasable, Cancellable,
}

-- Writing a deal that holds as much as before keeps the books.
pub assets-set_same :
    (u id : ℕ) (d d' : EscrowDeal) (journal : List Entry) (db : Db)
    → find id db.deals ≡ some d
    → in_escrow u d' ≡ in_escrow u d
    → assets u (record db { deals = set id d' db.deals; journal = journal }) ≡ assets u db
unfolding assets
assets-set_same u id d d' journal db e same =
    omega (int_laws, parts (sum-set (in_escrow u) id d' d db.deals e), parts same)

-- A release pays out what the deal held: to the seller, to the buyer and in fees.
released_state-assets :
    (u now id buyer : ℕ) (amount : ℤ) (d : EscrowDeal) (db : Db)
    → find id db.deals ≡ some d
    → d.fee_percent ≤ 10000
    → Releasable buyer amount d
    → assets u (released_state now id buyer amount d db) ≡ assets u db
unfolding assets in_escrow
released_state-assets u now id buyer amount d db e fits (st, m, b, lo, hi) =
    let fee = fee_of amount d.fee_percent in
    let t = or_default d.token xmr in
    let bounds = fee_of_bounds amount d.fee_percent lo fits in
    let rows = paid now d.seller_id (amount -ℤ fee) t db.balances in
    let held_before : in_escrow u d ≡ counted u t d.amount = rw st in
    omega (
      int_laws,
      parts held_before,
      parts (held-paid u now d.seller_id t (amount -ℤ fee) db.balances (omega int_laws)),
      parts (held-paid u now d.buyer_id t (d.amount -ℤ amount) rows (omega int_laws)),
      parts (fee_sum-with_fee u FeeSource.escrow id t fee db.fees bounds.0),
      parts (sum-set (in_escrow u) id (released_deal now amount fee d) d db.deals e),
      parts (counted-sub u t amount fee),
      parts (counted-sub u t d.amount amount),
      parts (counted_zero u t),
    )

-- Releasing a deal, or the refusal to, keeps the books.
pub release_escrow-assets :
    (u now id buyer : ℕ) (amount : ℤ) (db : Db)
    → All IsWellFormed db.deals
    → assets u (release_escrow now id buyer amount db).1 ≡ assets u db
release_escrow-assets u now id buyer amount db ws = elim (Option-cases (find id db.deals)) [
  | inl e ↦ unfold release_escrow in (rw e refl)
  | inr (d, e) ↦ elim (release_escrow_outcome now id buyer amount d db e) [
    | inl (ready, done) ↦
        let well = find-All IsWellFormed id d db.deals ws e in
        rw done (released_state-assets u now id buyer amount d db e well.rate_fits ready)
    | inr (_, _, same) ↦ rw same
  ]
]

-- Marking delivery moves no money.
pub deliver_escrow-assets :
    (u now id seller : ℕ) (db : Db) → assets u (deliver_escrow now id seller db).1 ≡ assets u db
unfolding in_escrow
deliver_escrow-assets u now id seller db = elim (Option-cases (find id db.deals)) [
  | inl e ↦ unfold deliver_escrow in (rw e refl)
  | inr (d, e) ↦ elim (deliver_escrow_outcome now id seller d db e) [
    | inl ((st, m, _), done) ↦
        rw done
          (assets-set_same u id d (delivered_deal now d.review_timeout_hours d) _ db e (rw (st, m)))
    | inr (_, _, same) ↦ rw same
  ]
]

cancelled_state-assets :
    (u now id buyer : ℕ) (d : EscrowDeal) (db : Db)
    → find id db.deals ≡ some d
    → Cancellable buyer d
    → assets u (cancelled_state now id buyer d db) ≡ assets u db
unfolding assets in_escrow
cancelled_state-assets u now id buyer d db e (st, b) =
    let t = or_default d.token xmr in
    let held_before : in_escrow u d ≡ counted u t d.amount = rw st in
    omega (
      int_laws,
      parts held_before,
      parts (
          held-amend u now d.buyer_id t (add_available now d.amount) d.amount db.balances
            (λ r. refl)),
      parts (sum-set (in_escrow u) id (cancelled_deal now d) d db.deals e),
      parts (counted_zero u t),
    )

-- A cancelled deal goes back to the buyer's balance whole.
pub cancel_escrow-assets :
    (u now id buyer : ℕ) (db : Db) → assets u (cancel_escrow now id buyer db).1 ≡ assets u db
cancel_escrow-assets u now id buyer db = elim (Option-cases (find id db.deals)) [
  | inl e ↦ unfold cancel_escrow in (rw e refl)
  | inr (d, e) ↦ elim (cancel_escrow_outcome now id buyer d db e) [
    | inl (ready, done) ↦ rw done (cancelled_state-assets u now id buyer d db e ready)
    | inr (_, _, same) ↦ rw same
  ]
]

-- Starting a pending milestone leaves what is open.
pub activated-open_amount :
    (now seq : ℕ) (ms : Table EscrowMilestone) (m : EscrowMilestone)
    → find seq ms ≡ some m
    → m.status ≡ MilestoneStatus.pending
    → open_amount (set seq (activated now m.delivery_timeout_hours m) ms) ≡ open_amount ms
activated-open_amount now seq ms m e st =
    let same : open_milestone m ≡ m.amount = rw st in
    omega (
      int_laws,
      parts same,
      parts (sum-set open_milestone seq (activated now m.delivery_timeout_hours m) m ms e),
    )

accepted_result-escrowed :
    (now : ℕ) (d : EscrowDeal)
    → IsWellFormed d
    → d.status ≡ EscrowStatus.created
    → escrowed (accepted_result now d) ≡ escrowed d
accepted_result-escrowed now d w st = elim (Bool-cases d.is_multi_milestone) [
  | inl m ↦ elim (Option-cases (find 1 d.milestones)) [
    | inl e ↦ rw (m, e, st) (w.parts_add_up m st)
    | inr (ms, e) ↦ elim (Bool-cases (Milestone.is_pending ms.status)) [
      | inl p ↦
          let pend : ms.status ≡ MilestoneStatus.pending = ground arith in
          rw (m, e, st)
            (ground
              (arith, activated-open_amount now 1 d.milestones ms e pend, w.parts_add_up m st))
      | inr p ↦ rw (m, e, p, st) (w.parts_add_up m st)
    ]
  ]
  | inr m ↦ rw (m, st)
]

accepted_result-token : (now : ℕ) (d : EscrowDeal) → (accepted_result now d).token ≡ d.token
accepted_result-token now d = ground arith

accepted_result-in_escrow :
    (u now : ℕ) (d : EscrowDeal)
    → IsWellFormed d
    → d.status ≡ EscrowStatus.created
    → in_escrow u (accepted_result now d) ≡ in_escrow u d
unfolding in_escrow
accepted_result-in_escrow u now d w st =
    rw (accepted_result-escrowed now d w st) (rw (accepted_result-token now d))

-- Accepting a deal moves no money.
pub accept_escrow-assets :
    (u now id seller : ℕ) (db : Db)
    → All IsWellFormed db.deals
    → assets u (accept_escrow now id seller db).1 ≡ assets u db
unfolding in_escrow
accept_escrow-assets u now id seller db ws = elim (Option-cases (find id db.deals)) [
  | inl e ↦ unfold accept_escrow in (rw e refl)
  | inr (d, e) ↦ elim (accept_escrow_outcome now id seller d db e) [
    | inl ((st, _, _, _), done) ↦ rw done (
        assets-set_same u id d (accepted_result now d) _ db e
          (accepted_result-in_escrow u now d (find-All IsWellFormed id d db.deals ws e) st))
    | inr (_, _, same) ↦ rw same
  ]
]
