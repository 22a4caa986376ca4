-- ===== src/Escrow/Progress.antt =====
-- What is due is resolved: the deals that have expired before a sweep, after it.
use sthrip.Base.{
  ℕ, Bool, ◌∙◌, ◌≡◌, ◌+◌, some, List, [], ◌∷◌, refl, arith, true, false, inl, inr, Option-cases,
  Bool-cases, ◌==◌,
}
use sthrip.Base.Int.{ℤ}
use sthrip.Base.Table.{Table, find, set, find-set}
use sthrip.Base.Keys.{Distinct, keys_where, keys_where-AllDue, keys_where-NoneMissed}
use sthrip.Base.Sweep.{sweep, Handles, sweep-done}
use sthrip.Base.Action.{Result, ok, err, pure, ◌>>=◌}
use sthrip.Models.Escrow.{EscrowDeal}
use sthrip.Models.Database.{Db}
use sthrip.Escrow.Repo
use sthrip.Escrow.Repo.{awaits_expiry, released_deal}
use sthrip.Escrow.MilestoneRepo
use sthrip.Escrow.Trust.{fee_of}
use sthrip.Escrow.Expiry.{
  end_status, counted_result, attempt, resolve_single, resolve_milestone_expiry, resolve_deals,
  resolve_milestones, resolve_expired,
}
use sthrip.Escrow.Resolution.{HasEnded, resolve_single_outcome}
use sthrip.Escrow.AutoRelease.{
  with_released, resolve_milestone_expiry_outcome, resolve_milestone_expiry_unknown,
}
use sthrip.Escrow.MilestoneExpiry.{expired_deal}
use sthrip.Escrow.MilestoneOutcomes.{after_release}
use sthrip.Base.Counts.{then-Counts, after-Counts}
use sthrip.Escrow.Sweep.{resolve_deals-Counts, resolve_milestones-Counts}

-- No deal is due: none is open with its time behind it.
abbrev pub NoneDue : ℕ → Table EscrowDeal → Type 0
NoneDue now t = (k : ℕ) (d : EscrowDeal) → find k t ≡ some d → awaits_expiry now d ≡ false

abbrev pub NothingDue : ℕ → Db → Type 0
NothingDue now db = NoneDue now db.deals

abbrev after_single : ℕ → ℕ → Db → Db
after_single now id db = (resolve_single now id db).1

ended-awaits : (now : ℕ) (d : EscrowDeal) → HasEnded d.status → awaits_expiry now d ≡ false
ended-awaits now d h = ground arith

resolve_single-Handles :
    (now : ℕ)
    → Handles (λ (db : Db). db.deals) (awaits_expiry now) (after_single now) (λ _. Unit {0})
resolve_single-Handles now id d db e due _ = elim (resolve_single_outcome now id d db e) [
  | inl (_, done) ↦ (tt, (Repo.expired_deal now d, refl, rw (done, after_single)))
  | inr (inl (_, done)) ↦ (tt, (Repo.expired_deal now d, refl, rw (done, after_single)))
  | inr (inr (inl (_, done))) ↦ (
    tt,
    (released_deal now d.amount (fee_of d.amount d.fee_percent) d, refl, rw (done, after_single)),
  )
  | inr (inr (inr (over, _))) ↦ absurd (never (ended-awaits now d over) due)
]
  where
    never : {b : Bool} → b ≡ false → b ≡ true → ⊥
    never p q = cc

resolve_deals-sweep :
    (now : ℕ) (ids : List ℕ) (db : Db)
    → (resolve_deals now ids db).1
      ≡ sweep (λ (s : Db). s.deals) (awaits_expiry now) (after_single now) ids db
unfolding resolve_deals attempt sweep
resolve_deals-sweep now [] db = refl
resolve_deals-sweep now (id ∷ ids) db =
    let (r, db') = resolve_single now id db in
    state_of (λ n. counted_result r + n) (resolve_deals now ids db')
    ∙ resolve_deals-sweep now ids db'
  where
    state_of :
        (f : ℕ → ℕ) (x : Result ℕ × Db)
        → (elim x.0 as (λ y. Result ℕ × Db) [ ok n ↦ (ok (f n), x.1) | err e ↦ (err e, x.1) ]).1
          ≡ x.1
    state_of f (ok n, s) = refl
    state_of f (err e, s) = refl

-- The first pass leaves nothing that is due.
resolve_deals-NothingDue :
    (now : ℕ) (db : Db)
    → Distinct db.deals
    → NothingDue now (resolve_deals now (Repo.get_pending_expiry now db.deals) db).1
resolve_deals-NothingDue now db ds =
    let p = awaits_expiry now in
    rw (resolve_deals-sweep now (keys_where p db.deals) db) (
      sweep-done (λ (s : Db). s.deals) p (after_single now) (λ _. Unit {0})
        (resolve_single-Handles now) (keys_where p db.deals) db (keys_where-AllDue p db.deals ds)
        (keys_where-NoneMissed p db.deals) tt)

set-NoneDue :
    (now id : ℕ) (d : EscrowDeal) (t : Table EscrowDeal)
    → NoneDue now t
    → awaits_expiry now d ≡ false
    → NoneDue now (set id d t)
set-NoneDue now id d t h nd k o e = elim (Bool-cases (id == k)) [
  | inl same ↦ ground (arith, find-set k id d t, h k)
  | inr other ↦ ground (arith, find-set k id d t, h k o)
]

after_release-awaits :
    (now seq : ℕ) (amount fee : ℤ) (d : EscrowDeal)
    → awaits_expiry now d ≡ false
    → awaits_expiry now (after_release now seq amount fee d) ≡ false
after_release-awaits now seq amount fee d h = ground arith

expired_deal-awaits : (now seq : ℕ) (d : EscrowDeal) → HasEnded (end_status seq)
expired_deal-awaits now seq d = ground arith

-- The second pass makes nothing due.
resolve_milestone_expiry-NothingDue :
    (now id seq : ℕ) (db : Db)
    → NothingDue now db
    → NothingDue now (resolve_milestone_expiry now id seq db).1
resolve_milestone_expiry-NothingDue now id seq db h = elim (Option-cases (find id db.deals)) [
  | inl e ↦ unfold resolve_milestone_expiry in (rw e h)
  | inr (d, e) ↦ elim (Option-cases (find seq d.milestones)) [
    | inl em ↦ rw (resolve_milestone_expiry_unknown now id seq d db e em) h
    | inr (m, em) ↦ elim (resolve_milestone_expiry_outcome now id seq m d db e em) [
      | inl (_, _, done) ↦ rw done (
          set-NoneDue now id (expired_deal now seq m d) db.deals h
            (ended-awaits now (expired_deal now seq m d) (expired_deal-awaits now seq d)))
      | inr (inl (_, _, done)) ↦
          let fee = fee_of m.amount d.fee_percent in
          let d' = with_released now seq m d in
          let nd = h id d e in
          rw done (
            set-NoneDue now id (after_release now seq m.amount fee d') (set id d' db.deals)
              (set-NoneDue now id d' db.deals h nd)
              (after_release-awaits now seq m.amount fee d' nd))
      | inr (inr (_, done)) ↦ rw done h
    ]
  ]
]

-- Where no deal's key is given twice, no deal is due after a sweep: what was past its deadline has
-- ended, whatever became of the rest.
pub resolve_expired-NothingDue :
    (now : ℕ) (db : Db) → Distinct db.deals → NothingDue now (resolve_expired now db).1
unfolding resolve_expired
resolve_expired-NothingDue now db ds =
    let keys : Db → List (ℕ × ℕ) = λ s. MilestoneRepo.get_pending_milestone_expiry now s.deals in
    let due = Repo.get_pending_expiry now db.deals in
    let (counts, _) = resolve_deals-Counts (λ _. Unit {0}) now (λ id s _. tt) due db tt in
    (after-Counts (NothingDue now)
      (λ n s. (resolve_milestones now (keys s) >>= λ m. pure (n + m)) s) (resolve_deals now due db)
      (λ n s hs.
        then-Counts (NothingDue now) (λ m. n + m) (resolve_milestones now (keys s) s)
          (resolve_milestones-Counts (NothingDue now) now (resolve_milestone_expiry-NothingDue now)
            (keys s) s hs))
      (counts, resolve_deals-NothingDue now db ds)).1
