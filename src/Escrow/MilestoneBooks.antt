-- ===== src/Escrow/MilestoneBooks.antt =====
-- What the release and the delivery of a milestone do to the books.
use sthrip.Base.{
  ℕ, ◌≡◌, ◌+◌, ◌≤◌, none, some, [], inl, inr, ◌∷◌, arith, true, refl, or_default, Bool-cases,
  Option-cases, length, ◌==◌, ap, ==→eq,
}
use mathlib.Core.Path.{subst}
use sthrip.Base.Int.{ℤ, pos, ◌+ℤ◌, ◌-ℤ◌, int_laws, parts}
use sthrip.Base.Table.{Table, find, set, find-set_self, sum, sum-set, All, find-All}
use sthrip.Models.Parties.{xmr, FeeSource}
use sthrip.Models.Milestone
use sthrip.Models.Milestone.{EscrowMilestone, MilestoneStatus}
use sthrip.Models.Escrow.{EscrowDeal, EscrowStatus}
use sthrip.Models.Database.{Db}
use sthrip.Ledger.Held.{counted, counted-sub, counted-add, held-paid}
use sthrip.Ledger.Rows.{paid}
use sthrip.Fees.{fee_sum-with_fee}
use sthrip.Accounting.{in_escrow, assets, open_amount, open_milestone, escrowed}
use sthrip.Escrow.MilestoneRepo.{delivered, released}
use sthrip.Escrow.Trust.{fee_of, fee_of_bounds}
use sthrip.Escrow.Milestones.{completed_count, deliver_milestone, release_milestone}
use sthrip.Base.Keys.{Distinct, set-Distinct, length-set}
use sthrip.Escrow.WellFormed.{IsWellFormed}
use sthrip.Escrow.Conservation.{assets-set_same, activated-open_amount}
use sthrip.Escrow.MilestoneOutcomes.{
  delivered_parts, deliver_milestone_outcome, deliver_milestone_unknown, Releasable, released_state,
  release_milestone_outcome, release_milestone_unknown, with_parts, started, ends_with,
  after_release,
}

completed_count-le : (seq : ℕ) (ms : Table EscrowMilestone) → completed_count seq ms ≤ length ms
unfolding completed_count
completed_count-le seq [] = omega arith
completed_count-le seq ((n, m) ∷ ms) = ground (arith, completed_count-le seq ms)

-- If as many milestones are complete as there are, nothing is open.
nothing_open :
    (seq : ℕ) (ms : Table EscrowMilestone)
    → Distinct ms
    → length ms ≤ completed_count seq ms
    → ((m : EscrowMilestone) → find seq ms ≡ some m → open_milestone m ≡ pos 0)
    → open_amount ms ≡ pos 0
unfolding completed_count find sum
nothing_open seq [] ds h z = refl
nothing_open seq ((n, m) ∷ ms) (d, ds) h z =
    let later : (o : EscrowMilestone) → find seq ms ≡ some o → open_milestone o ≡ pos 0 = λ o eo.
      elim (Bool-cases (n == seq)) [
        | inl same ↦
            let gone : find seq ms ≡ none = subst (λ k. find k ms ≡ none) (==→eq n seq same) d in
            ground arith
        | inr other ↦ z o (rw other eo)
      ] in
    let rest = nothing_open seq ms ds (ground (arith, completed_count-le seq ms)) later in
    let here : open_milestone m ≡ pos 0 = ground (arith, z m, completed_count-le seq ms) in
    omega (int_laws, parts here, parts rest)

-- Starting the next milestone leaves what is open.
started-open_amount :
    (now n : ℕ) (ms : Table EscrowMilestone)
    → open_amount (started now n (find n ms) ms) ≡ open_amount ms
started-open_amount now n ms = elim (Option-cases (find n ms)) [
  | inl e ↦ rw e
  | inr (m, e) ↦ elim (Bool-cases (Milestone.is_pending m.status)) [
    | inl p ↦
        let pend : m.status ≡ MilestoneStatus.pending = ground arith in
        rw (e, p) (activated-open_amount now n ms m e pend)
    | inr p ↦ rw (e, p)
  ]
]

-- What is open falls by the milestone that was released.
released-open_amount :
    (now seq : ℕ) (amount fee : ℤ) (m : EscrowMilestone) (ms : Table EscrowMilestone)
    → find seq ms ≡ some m
    → m.status ≡ MilestoneStatus.delivered
    → open_amount (set seq (released now amount fee m) ms) +ℤ m.amount ≡ open_amount ms
released-open_amount now seq amount fee m ms e st =
    let was : open_milestone m ≡ m.amount = rw st in
    omega
      (int_laws, parts was, parts (sum-set open_milestone seq (released now amount fee m) m ms e))

-- The deal that is left holds what it held before, less the milestone.
after_release-escrowed :
    (now seq : ℕ) (amount fee : ℤ) (m : EscrowMilestone) (d : EscrowDeal)
    → IsWellFormed d
    → d.is_multi_milestone ≡ true
    → d.status ≡ EscrowStatus.accepted
    → find seq d.milestones ≡ some m
    → m.status ≡ MilestoneStatus.delivered
    → escrowed (
          after_release now seq amount fee
            (with_parts (set seq (released now amount fee m) d.milestones) d))
        +ℤ m.amount
      ≡ escrowed d
after_release-escrowed now seq amount fee m d w multi st em sm =
    let ms = set seq (released now amount fee m) d.milestones in
    let fell = released-open_amount now seq amount fee m d.milestones em sm in
    elim (Bool-cases (ends_with seq (with_parts ms d))) [
      | inl last ↦
          let counted_all : length ms ≤ completed_count seq ms = ground (
            arith,
            w.parts_counted multi,
            length-set seq (released now amount fee m) d.milestones,
          ) in
          let none_left =
            nothing_open seq ms
              (set-Distinct seq (released now amount fee m) d.milestones w.parts_distinct)
              counted_all
              (λ o eo.
                ground (arith, find-set_self seq (released now amount fee m) m d.milestones em)) in
          rw (last, multi, st) (omega (int_laws, parts fell, parts none_left))
      | inr more ↦
          rw (more, multi, st)
            (omega (int_laws, parts fell, parts (started-open_amount now (seq + 1) ms)))
    ]

after_release-token :
    (now seq : ℕ) (amount fee : ℤ) (d : EscrowDeal)
    → (after_release now seq amount fee d).token ≡ d.token
after_release-token now seq amount fee d = ground arith

pub after_release-in_escrow :
    (u now seq : ℕ) (amount fee : ℤ) (m : EscrowMilestone) (d : EscrowDeal)
    → IsWellFormed d
    → d.is_multi_milestone ≡ true
    → d.status ≡ EscrowStatus.accepted
    → find seq d.milestones ≡ some m
    → m.status ≡ MilestoneStatus.delivered
    → in_escrow u (
          after_release now seq amount fee
            (with_parts (set seq (released now amount fee m) d.milestones) d))
        +ℤ counted u (or_default d.token xmr) m.amount
      ≡ in_escrow u d
unfolding in_escrow
after_release-in_escrow u now seq amount fee m d w multi st em sm =
    let t = or_default d.token xmr in
    let d' =
      after_release now seq amount fee
        (with_parts (set seq (released now amount fee m) d.milestones) d) in
    let same : in_escrow u d' ≡ counted u t (escrowed d') = rw (
      after_release-token now seq amount fee
        (with_parts (set seq (released now amount fee m) d.milestones) d)) in
    omega (
      int_laws,
      parts same,
      parts (counted-add u t (escrowed d') m.amount),
      parts (ap (counted u t) (after_release-escrowed now seq amount fee m d w multi st em sm)),
    )

released_state-assets :
    (u now id seq buyer : ℕ) (amount : ℤ) (m : EscrowMilestone) (d : EscrowDeal) (db : Db)
    → find id db.deals ≡ some d
    → find seq d.milestones ≡ some m
    → IsWellFormed d
    → Releasable buyer amount m d
    → assets u (released_state now id seq amount m d db) ≡ assets u db
unfolding assets
released_state-assets u now id seq buyer amount m d db e em w (st, multi, b, sm, lo, hi) =
    let fee = fee_of amount d.fee_percent in
    let t = or_default d.token xmr in
    let d' = with_parts (set seq (released now amount fee m) d.milestones) d in
    let bounds = fee_of_bounds amount d.fee_percent lo w.rate_fits in
    let rows = paid now d.seller_id (amount -ℤ fee) t db.balances in
    omega (
      int_laws,
      parts (held-paid u now d.seller_id t (amount -ℤ fee) db.balances (omega int_laws)),
      parts (held-paid u now d.buyer_id t (m.amount -ℤ amount) rows (omega int_laws)),
      parts (fee_sum-with_fee u FeeSource.escrow id t fee db.fees bounds.0),
      parts (sum-set (in_escrow u) id d' d db.deals e),
      parts (
          sum-set (in_escrow u) id (after_release now seq amount fee d') d' (set id d' db.deals)
            (find-set_self id d' d db.deals e)),
      parts (after_release-in_escrow u now seq amount fee m d w multi st em sm),
      parts (counted-sub u t amount fee),
      parts (counted-sub u t m.amount amount),
    )

-- Where the deals are well formed, the release of a milestone, and each way to refuse it, keeps the
-- books of every token.
pub release_milestone-assets :
    (u now id seq buyer : ℕ) (amount : ℤ) (db : Db)
    → All IsWellFormed db.deals
    → assets u (release_milestone now id seq buyer amount db).1 ≡ assets u db
release_milestone-assets u now id seq buyer amount db ws = elim (Option-cases (find id db.deals)) [
  | inl e ↦ unfold release_milestone in (rw e refl)
  | inr (d, e) ↦ elim (Option-cases (find seq d.milestones)) [
    | inl em ↦ rw ((release_milestone_unknown now id seq buyer amount d db e em).1)
    | inr (m, em) ↦ elim (release_milestone_outcome now id seq buyer amount m d db e em) [
      | inl (ready, done) ↦ rw done (
          released_state-assets u now id seq buyer amount m d db e em
            (find-All IsWellFormed id d db.deals ws e) ready)
      | inr (_, _, same) ↦ rw same
    ]
  ]
]

delivered_parts-in_escrow :
    (u now seq : ℕ) (m : EscrowMilestone) (d : EscrowDeal)
    → d.is_multi_milestone ≡ true
    → d.status ≡ EscrowStatus.accepted
    → find seq d.milestones ≡ some m
    → m.status ≡ MilestoneStatus.active
    → in_escrow u (delivered_parts now seq m d) ≡ in_escrow u d
unfolding in_escrow
delivered_parts-in_escrow u now seq m d multi st em sm =
    let m' = delivered now m.review_timeout_hours m in
    let was : open_milestone m ≡ m.amount = rw sm in
    let same : open_amount (set seq m' d.milestones) ≡ open_amount d.milestones =
      omega (int_laws, parts was, parts (sum-set open_milestone seq m' m d.milestones em)) in
    rw (multi, st) (ap (counted u (or_default d.token xmr)) same)

-- Delivering a milestone moves no money.
pub deliver_milestone-assets :
    (u now id seq seller : ℕ) (db : Db)
    → assets u (deliver_milestone now id seq seller db).1 ≡ assets u db
deliver_milestone-assets u now id seq seller db = elim (Option-cases (find id db.deals)) [
  | inl e ↦ unfold deliver_milestone in (rw e refl)
  | inr (d, e) ↦ elim (Option-cases (find seq d.milestones)) [
    | inl em ↦ rw ((deliver_milestone_unknown now id seq seller d db e em).1)
    | inr (m, em) ↦ elim (deliver_milestone_outcome now id seq seller m d db e em) [
      | inl ((st, multi, _, sm), done) ↦ rw done (
          assets-set_same u id d (delivered_parts now seq m d) _ db e
            (delivered_parts-in_escrow u now seq m d multi st em sm))
      | inr (_, _, same) ↦ rw same
    ]
  ]
]
