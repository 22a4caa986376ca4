-- ===== src/Escrow/Preservation.antt =====
-- The form of the deals over each call.
use sthrip.Base.{ℕ, inl, inr, refl, Option-cases}
use sthrip.Base.Int.{ℤ}
use sthrip.Base.Table.{find, set, All, find-All, set-All}
use sthrip.Models.Database.{Db}
use sthrip.Escrow.MilestoneRepo.{delivered, released}
use sthrip.Escrow.Repo.{delivered_deal, released_deal, cancelled_deal}
use sthrip.Escrow.Trust.{fee_of}
use sthrip.Escrow.Deals.{accept_escrow, deliver_escrow, release_escrow, cancel_escrow}
use sthrip.Escrow.Milestones.{release_milestone, deliver_milestone}
use sthrip.Escrow.Outcomes.{
  accept_escrow_outcome, deliver_escrow_outcome, release_escrow_outcome, cancel_escrow_outcome,
}
use sthrip.Escrow.MilestoneOutcomes.{
  with_parts, deliver_milestone_outcome, deliver_milestone_unknown, release_milestone_outcome,
  release_milestone_unknown,
}
use sthrip.Escrow.WellFormed.{IsWellFormed}
use sthrip.Escrow.Reform.{
  set-Replaces, accepted_result-IsWellFormed, after_release-IsWellFormed, restatused-IsWellFormed,
  with_parts-IsWellFormed,
}

-- The deals of the session after a write of one of them.
abbrev pub AllWellFormed : Db → Type 0
AllWellFormed db = All IsWellFormed db.deals

pub accept_escrow-AllWellFormed :
    (now id seller : ℕ) (db : Db)
    → AllWellFormed db
    → AllWellFormed (accept_escrow now id seller db).1
accept_escrow-AllWellFormed now id seller db ws = elim (Option-cases (find id db.deals)) [
  | inl e ↦ unfold accept_escrow in (rw e ws)
  | inr (d, e) ↦ elim (accept_escrow_outcome now id seller d db e) [
    | inl (_, done) ↦ rw done (
        set-All IsWellFormed id _ db.deals ws
          (accepted_result-IsWellFormed now d (find-All IsWellFormed id d db.deals ws e)))
    | inr (_, _, same) ↦ rw same ws
  ]
]

pub deliver_escrow-AllWellFormed :
    (now id seller : ℕ) (db : Db)
    → AllWellFormed db
    → AllWellFormed (deliver_escrow now id seller db).1
deliver_escrow-AllWellFormed now id seller db ws = elim (Option-cases (find id db.deals)) [
  | inl e ↦ unfold deliver_escrow in (rw e ws)
  | inr (d, e) ↦ elim (deliver_escrow_outcome now id seller d db e) [
    | inl (_, done) ↦ rw done (
        set-All IsWellFormed id _ db.deals ws (
          restatused-IsWellFormed d (delivered_deal now d.review_timeout_hours d)
            (find-All IsWellFormed id d db.deals ws e) (refl, refl, refl, refl) refl (λ c. cc)))
    | inr (_, _, same) ↦ rw same ws
  ]
]

pub release_escrow-AllWellFormed :
    (now id buyer : ℕ) (amount : ℤ) (db : Db)
    → AllWellFormed db
    → AllWellFormed (release_escrow now id buyer amount db).1
release_escrow-AllWellFormed now id buyer amount db ws = elim (Option-cases (find id db.deals)) [
  | inl e ↦ unfold release_escrow in (rw e ws)
  | inr (d, e) ↦ elim (release_escrow_outcome now id buyer amount d db e) [
    | inl (_, done) ↦ rw done (
        set-All IsWellFormed id _ db.deals ws (
          restatused-IsWellFormed d (released_deal now amount (fee_of amount d.fee_percent) d)
            (find-All IsWellFormed id d db.deals ws e) (refl, refl, refl, refl) refl (λ c. cc)))
    | inr (_, _, same) ↦ rw same ws
  ]
]

pub cancel_escrow-AllWellFormed :
    (now id buyer : ℕ) (db : Db)
    → AllWellFormed db
    → AllWellFormed (cancel_escrow now id buyer db).1
cancel_escrow-AllWellFormed now id buyer db ws = elim (Option-cases (find id db.deals)) [
  | inl e ↦ unfold cancel_escrow in (rw e ws)
  | inr (d, e) ↦ elim (cancel_escrow_outcome now id buyer d db e) [
    | inl (_, done) ↦ rw done (
        set-All IsWellFormed id _ db.deals ws (
          restatused-IsWellFormed d (cancelled_deal now d)
            (find-All IsWellFormed id d db.deals ws e) (refl, refl, refl, refl) refl (λ c. cc)))
    | inr (_, _, same) ↦ rw same ws
  ]
]

pub deliver_milestone-AllWellFormed :
    (now id seq seller : ℕ) (db : Db)
    → AllWellFormed db
    → AllWellFormed (deliver_milestone now id seq seller db).1
deliver_milestone-AllWellFormed now id seq seller db ws = elim (Option-cases (find id db.deals)) [
  | inl e ↦ unfold deliver_milestone in (rw e ws)
  | inr (d, e) ↦
      let w = find-All IsWellFormed id d db.deals ws e in
      elim (Option-cases (find seq d.milestones)) [
        | inl em ↦ rw ((deliver_milestone_unknown now id seq seller d db e em).1) ws
        | inr (m, em) ↦ elim (deliver_milestone_outcome now id seq seller m d db e em) [
          | inl ((st, _, _, _), done) ↦ rw done (
              set-All IsWellFormed id _ db.deals ws (
                with_parts-IsWellFormed
                  (set seq (delivered now m.review_timeout_hours m) d.milestones) d w st
                  (set-Replaces seq m (delivered now m.review_timeout_hours m) d.milestones em refl
                    w.parts_distinct w.parts_positive)))
          | inr (_, _, same) ↦ rw same ws
        ]
      ]
]

pub release_milestone-AllWellFormed :
    (now id seq buyer : ℕ) (amount : ℤ) (db : Db)
    → AllWellFormed db
    → AllWellFormed (release_milestone now id seq buyer amount db).1
release_milestone-AllWellFormed now id seq buyer amount db ws =
    elim (Option-cases (find id db.deals)) [
      | inl e ↦ unfold release_milestone in (rw e ws)
      | inr (d, e) ↦
          let w = find-All IsWellFormed id d db.deals ws e in
          elim (Option-cases (find seq d.milestones)) [
            | inl em ↦ rw ((release_milestone_unknown now id seq buyer amount d db e em).1) ws
            | inr (m, em) ↦ elim (release_milestone_outcome now id seq buyer amount m d db e em) [
              | inl ((st, _, _, _, _, _), done) ↦
                  let fee = fee_of amount d.fee_percent in
                  let ms = set seq (released now amount fee m) d.milestones in
                  let w' = with_parts-IsWellFormed ms d w st (
                    set-Replaces seq m (released now amount fee m) d.milestones em refl
                      w.parts_distinct w.parts_positive) in
                  rw done (
                    set-All IsWellFormed id _ (set id (with_parts ms d) db.deals)
                      (set-All IsWellFormed id (with_parts ms d) db.deals ws w')
                      (after_release-IsWellFormed now seq amount fee (with_parts ms d) w' st))
              | inr (_, _, same) ↦ rw same ws
            ]
          ]
    ]
