-- ===== src/Escrow/Lifecycle.antt =====
-- The agents' calls on deals as runs of the abstract machine.
use sthrip.Base.{
  ℕ, ◌≡◌, String, List, [], ◌∷◌, arith, refl, inl, inr, ==-refl, Option-cases, Bool-cases,
}
use sthrip.Base.Int.{ℤ}
use sthrip.Base.Table.{find, set, set-set}
use sthrip.Base.Action.{transact, transact-Raised}
use sthrip.Models.Escrow.{EscrowDeal, EscrowStatus}
use sthrip.Models.Database.{Db}
use sthrip.Escrow.Repo.{delivered_deal, cancelled_deal, released_deal}
use sthrip.Escrow.Trust.{fee_of}
use sthrip.Escrow.Deals.{
  Request, create_escrow, accept_escrow, deliver_escrow, release_escrow, cancel_escrow,
}
use sthrip.Escrow.Milestones.{deliver_milestone, release_milestone}
use sthrip.Escrow.Creation.{create_escrow_outcome, created_deal}
use sthrip.Escrow.Outcomes.{
  accept_escrow_outcome, accepted_result, deliver_escrow_outcome, release_escrow_outcome,
  cancel_escrow_outcome,
}
use sthrip.Escrow.MilestoneOutcomes.{
  deliver_milestone_outcome, deliver_milestone_unknown, delivered_parts, release_milestone_outcome,
  release_milestone_unknown, released_result, ends_with, with_parts,
}
use sthrip.Escrow.MilestoneRepo.{released}
use sthrip.Escrow.History.{Call, perform, perform_all}
use sthrip.Escrow.Machine.{view, Step, Move, Run, idle, write-Move, write-stay, transact-Move}

create_escrow-Move :
    (now id : ℕ) (hash : String) (r : Request) (db : Db)
    → Move (view db) (view (transact (create_escrow now id hash r) db).1)
create_escrow-Move now id hash r db = elim (create_escrow_outcome now id hash r db) [
  | inl (ready, done) ↦
      let opened : (created_deal now hash r).status ≡ EscrowStatus.created =
        elim (Option-cases r.milestones) [ inl e ↦ rw e refl | inr (ms, e) ↦ rw e refl ] in
      unfold transact find in
      (rw done
        (Move.step id (rw (==-refl id, opened, ready.5) Step.open_deal) (λ k other. rw other refl)))
  | inr (_, raised) ↦ rw (transact-Raised (create_escrow now id hash r) db raised) (idle db)
]

accept_escrow-Move :
    (now id seller : ℕ) (db : Db) → Move (view db) (view (accept_escrow now id seller db).1)
accept_escrow-Move now id seller db = elim (Option-cases (find id db.deals)) [
  | inl e ↦ unfold accept_escrow in (rw e (idle db))
  | inr (d, e) ↦ elim (accept_escrow_outcome now id seller d db e) [
    | inl (ready, done) ↦ rw done (
        write-Move id d (accepted_result now d) db.deals e EscrowStatus.created
          EscrowStatus.accepted (ready.0) (accepted_status now d) Step.accept)
    | inr (_, _, same) ↦ rw same (idle db)
  ]
]
  where
    accepted_status :
        (now : ℕ) (d : EscrowDeal) → (accepted_result now d).status ≡ EscrowStatus.accepted
    accepted_status now d = ground arith

deliver_escrow-Move :
    (now id seller : ℕ) (db : Db) → Move (view db) (view (deliver_escrow now id seller db).1)
deliver_escrow-Move now id seller db = elim (Option-cases (find id db.deals)) [
  | inl e ↦ unfold deliver_escrow in (rw e (idle db))
  | inr (d, e) ↦ elim (deliver_escrow_outcome now id seller d db e) [
    | inl (ready, done) ↦ rw done (
        write-Move id d (delivered_deal now d.review_timeout_hours d) db.deals e
          EscrowStatus.accepted EscrowStatus.delivered (ready.0) refl Step.deliver)
    | inr (_, _, same) ↦ rw same (idle db)
  ]
]

release_escrow-Move :
    (now id buyer : ℕ) (amount : ℤ) (db : Db)
    → Move (view db) (view (release_escrow now id buyer amount db).1)
release_escrow-Move now id buyer amount db = elim (Option-cases (find id db.deals)) [
  | inl e ↦ unfold release_escrow in (rw e (idle db))
  | inr (d, e) ↦ elim (release_escrow_outcome now id buyer amount d db e) [
    | inl (ready, done) ↦ rw done (
        write-Move id d (released_deal now amount (fee_of amount d.fee_percent) d) db.deals e
          EscrowStatus.delivered EscrowStatus.completed (ready.0) refl Step.release)
    | inr (_, _, same) ↦ rw same (idle db)
  ]
]

cancel_escrow-Move :
    (now id buyer : ℕ) (db : Db) → Move (view db) (view (cancel_escrow now id buyer db).1)
cancel_escrow-Move now id buyer db = elim (Option-cases (find id db.deals)) [
  | inl e ↦ unfold cancel_escrow in (rw e (idle db))
  | inr (d, e) ↦ elim (cancel_escrow_outcome now id buyer d db e) [
    | inl (ready, done) ↦ rw done (
        write-Move id d (cancelled_deal now d) db.deals e EscrowStatus.created
          EscrowStatus.cancelled (ready.0) refl Step.cancel)
    | inr (_, _, same) ↦ rw same (idle db)
  ]
]

deliver_milestone-Move :
    (now id seq seller : ℕ) (db : Db)
    → Move (view db) (view (deliver_milestone now id seq seller db).1)
deliver_milestone-Move now id seq seller db = elim (Option-cases (find id db.deals)) [
  | inl e ↦ unfold deliver_milestone in (rw e (idle db))
  | inr (d, e) ↦ elim (Option-cases (find seq d.milestones)) [
    | inl em ↦ rw ((deliver_milestone_unknown now id seq seller d db e em).1) (idle db)
    | inr (m, em) ↦ elim (deliver_milestone_outcome now id seq seller m d db e em) [
      | inl (_, done) ↦ rw done (write-stay id d (delivered_parts now seq m d) db.deals e refl)
      | inr (_, _, same) ↦ rw same (idle db)
    ]
  ]
]

release_milestone-Move :
    (now id seq buyer : ℕ) (amount : ℤ) (db : Db)
    → Move (view db) (view (release_milestone now id seq buyer amount db).1)
release_milestone-Move now id seq buyer amount db = elim (Option-cases (find id db.deals)) [
  | inl e ↦ unfold release_milestone in (rw e (idle db))
  | inr (d, e) ↦ elim (Option-cases (find seq d.milestones)) [
    | inl em ↦ rw ((release_milestone_unknown now id seq buyer amount d db e em).1) (idle db)
    | inr (m, em) ↦ elim (release_milestone_outcome now id seq buyer amount m d db e em) [
      | inl (ready, done) ↦
          let here : EscrowDeal =
            with_parts (set seq (released now amount (fee_of amount d.fee_percent) m) d.milestones)
              d in
          let d' = released_result now seq amount m d in
          elim (Bool-cases (ends_with seq here)) [
            | inl last ↦
                let ended : d'.status ≡ EscrowStatus.completed = rw last refl in
                rw (done, set-set id d' here db.deals)
                  (write-Move id d d' db.deals e EscrowStatus.accepted EscrowStatus.completed
                    (ready.0) ended Step.release_last_part)
            | inr more ↦
                let goes_on : d'.status ≡ d.status = rw more refl in
                rw (done, set-set id d' here db.deals) (write-stay id d d' db.deals e goes_on)
          ]
      | inr (_, _, same) ↦ rw same (idle db)
    ]
  ]
]

-- A call of the agents on the escrow service, refused ones included, leaves the status of every deal
-- as it was, or takes one deal one step along the lifecycle and leaves the others.
pub perform-Move : (c : Call) (db : Db) → Move (view db) (view (perform c db))
unfolding perform
perform-Move (Call.create now id hash r) db = create_escrow-Move now id hash r db
perform-Move (Call.accept now id seller) db =
    transact-Move (accept_escrow now id seller) db (accept_escrow-Move now id seller db)
perform-Move (Call.deliver now id seller) db =
    transact-Move (deliver_escrow now id seller) db (deliver_escrow-Move now id seller db)
perform-Move (Call.cancel now id buyer) db =
    transact-Move (cancel_escrow now id buyer) db (cancel_escrow-Move now id buyer db)
perform-Move (Call.release now id buyer amount) db =
    transact-Move (release_escrow now id buyer amount) db
      (release_escrow-Move now id buyer amount db)
perform-Move (Call.deliver_part now id seq seller) db =
    transact-Move (deliver_milestone now id seq seller) db
      (deliver_milestone-Move now id seq seller db)
perform-Move (Call.release_part now id seq buyer amount) db =
    transact-Move (release_milestone now id seq buyer amount) db
      (release_milestone-Move now id seq buyer amount db)

-- The statuses before and after any calls of the agents, refused ones included, are those of a run
-- of the machine.
perform_all-Run : (cs : List Call) (db : Db) → Run (view db) (view (perform_all cs db))
unfolding perform_all
perform_all-Run [] db = Run.finish (view db)
perform_all-Run (c ∷ cs) db =
    Run.next (view db) (view (perform c db)) (view (perform_all cs (perform c db)))
      (perform-Move c db) (perform_all-Run cs (perform c db))
