-- ===== src/Escrow/SweepForm.antt =====
-- The form of the deals over the sweep.
use sthrip.Base.{ℕ, ◌≡◌, ◌≢◌, ◌∙◌, arith, some, inl, inr, refl, Option-cases}
use sthrip.Base.Table.{find, set, find-All, set-All}
use sthrip.Base.Action.{ok}
use sthrip.Models.Milestone.{EscrowMilestone}
use sthrip.Models.Escrow.{EscrowDeal, EscrowStatus}
use sthrip.Models.Database.{Db}
use sthrip.Escrow.MilestoneRepo.{expired, released}
use sthrip.Escrow.Repo
use sthrip.Escrow.Repo.{released_deal}
use sthrip.Escrow.Trust.{fee_of}
use sthrip.Escrow.Expiry.{end_status, resolve_single, resolve_milestone_expiry, resolve_expired}
use sthrip.Escrow.WellFormed.{
  IsWellFormed, length-cancel_all, cancel_all-Distinct, cancel_all-Positive,
}
use sthrip.Escrow.MilestoneExpiry.{expired_deal}
use sthrip.Escrow.Resolution.{resolve_single_outcome}
use sthrip.Escrow.AutoRelease.{
  with_released, resolve_milestone_expiry_outcome, resolve_milestone_expiry_unknown,
}
use sthrip.Escrow.Preservation.{AllWellFormed}
use sthrip.Escrow.Reform.{
  Replaces, set-Replaces, moved-IsWellFormed, after_release-IsWellFormed, restatused-IsWellFormed,
  with_parts-IsWellFormed,
}
use sthrip.Escrow.Sweep.{resolve_expired-Counts}

refunded-IsWellFormed :
    (now : ℕ) (d : EscrowDeal) → IsWellFormed d → IsWellFormed (Repo.expired_deal now d)
refunded-IsWellFormed now d w =
    restatused-IsWellFormed d (Repo.expired_deal now d) w (refl, refl, refl, refl) refl (λ c. cc)

resolve_single-AllWellFormed :
    (now id : ℕ) (db : Db) → AllWellFormed db → AllWellFormed (resolve_single now id db).1
resolve_single-AllWellFormed now id db ws = elim (Option-cases (find id db.deals)) [
  | inl e ↦ unfold resolve_single in (rw e ws)
  | inr (d, e) ↦
      let w = find-All IsWellFormed id d db.deals ws e in
      let refunded = set-All IsWellFormed id _ db.deals ws (refunded-IsWellFormed now d w) in
      elim (resolve_single_outcome now id d db e) [
        | inl (_, done) ↦ rw done refunded
        | inr (inl (_, done)) ↦ rw done refunded
        | inr (inr (inl (_, done))) ↦ rw done (
            set-All IsWellFormed id _ db.deals ws (
              restatused-IsWellFormed d
                (released_deal now d.amount (fee_of d.amount d.fee_percent) d) w
                (refl, refl, refl, refl) refl (λ c. cc)))
        | inr (inr (inr (_, done))) ↦ rw done ws
      ]
]

ended-after : (seq : ℕ) → end_status seq ≢ EscrowStatus.created
ended-after seq = ground arith

expired-IsWellFormed :
    (now seq : ℕ) (m : EscrowMilestone) (d : EscrowDeal)
    → IsWellFormed d
    → find seq d.milestones ≡ some m
    → IsWellFormed (expired_deal now seq m d)
expired-IsWellFormed now seq m d w em =
    let ms = set seq (expired now m) d.milestones in
    let (l, ds, ps) : Replaces d.milestones ms =
      set-Replaces seq m (expired now m) d.milestones em refl w.parts_distinct w.parts_positive in
    moved-IsWellFormed d (expired_deal now seq m d) w (refl, refl, refl, refl)
      (length-cancel_all now ms ∙ l, cancel_all-Distinct now ms ds, cancel_all-Positive now ms ps)
      (ended-after seq)

resolve_milestone_expiry-AllWellFormed :
    (now id seq : ℕ) (db : Db)
    → AllWellFormed db
    → AllWellFormed (resolve_milestone_expiry now id seq db).1
resolve_milestone_expiry-AllWellFormed now id seq db ws = elim (Option-cases (find id db.deals)) [
  | inl e ↦ unfold resolve_milestone_expiry in (rw e ws)
  | inr (d, e) ↦
      let w = find-All IsWellFormed id d db.deals ws e in
      elim (Option-cases (find seq d.milestones)) [
        | inl em ↦ rw (resolve_milestone_expiry_unknown now id seq d db e em) ws
        | inr (m, em) ↦ elim (resolve_milestone_expiry_outcome now id seq m d db e em) [
          | inl (_, _, done) ↦
              rw done
                (set-All IsWellFormed id _ db.deals ws (expired-IsWellFormed now seq m d w em))
          | inr (inl (st, _, done)) ↦
              let fee = fee_of m.amount d.fee_percent in
              let d' = with_released now seq m d in
              let w' =
                with_parts-IsWellFormed (set seq (released now m.amount fee m) d.milestones) d w st
                  (set-Replaces seq m (released now m.amount fee m) d.milestones em refl
                    w.parts_distinct w.parts_positive) in
              rw done (
                set-All IsWellFormed id _ (set id d' db.deals)
                  (set-All IsWellFormed id d' db.deals ws w')
                  (after_release-IsWellFormed now seq m.amount fee d' w' st))
          | inr (inr (_, done)) ↦ rw done ws
        ]
      ]
]

-- The sweep never raises, and where every deal is well formed before it, every one is after it.
resolve_expired-AllWellFormed :
    (now : ℕ) (db : Db)
    → AllWellFormed db
    → ((n : ℕ) × ((resolve_expired now db).0 ≡ ok n)) × AllWellFormed (resolve_expired now db).1
resolve_expired-AllWellFormed now db ws =
    resolve_expired-Counts AllWellFormed now (resolve_single-AllWellFormed now)
      (resolve_milestone_expiry-AllWellFormed now) db ws
