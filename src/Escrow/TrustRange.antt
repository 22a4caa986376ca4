-- ===== src/Escrow/TrustRange.antt =====
-- The range of the trust scores, and what each resolution of the sweep does to it.
use sthrip.Base.{
  ℕ, Bool, none, some, Option, inl, inr, arith, true, false, Option-cases, Bool-cases,
  if◌then◌else◌,
}
use sthrip.Base.Int.{ℤ, pos, negsuc, ◌+ℤ◌, ◌≤ℤ◌, ◌==ℤ◌, int_laws}
use sthrip.Base.Table.{Table, find, set, All, set-All}
use sthrip.Models.Parties.{AgentReputation}
use sthrip.Models.Database.{Db}
use sthrip.Escrow.Trust.{clamp, rescored, adjusted, completion_trust}
use sthrip.Escrow.Expiry.{resolve_single, resolve_milestone_expiry}
use sthrip.Escrow.Resolution.{resolve_single_outcome}
use sthrip.Escrow.AutoRelease.{
  resolve_milestone_expiry_outcome, resolve_milestone_expiry_unknown, with_released,
}
use sthrip.Escrow.MilestoneOutcomes.{ends_with}

abbrev pub InRange : AgentReputation → Type 0
InRange r = (pos 0 ≤ℤ r.trust_score) × (r.trust_score ≤ℤ pos 100)

clamp-bounds : (x : ℤ) → (pos 0 ≤ℤ clamp x) × (clamp x ≤ℤ pos 100)
unfolding clamp
clamp-bounds x = grind int_laws

adjusted-InRange :
    (now agent : ℕ) (delta : ℤ) (t : Table AgentReputation)
    → All InRange t
    → All InRange (adjusted now agent delta t)
unfolding adjusted
adjusted-InRange now agent delta t h = elim (Bool-cases (delta ==ℤ pos 0)) [
  | inl z ↦ rw z h
  | inr z ↦ rw z (updated (find agent t))
]
  where
    updated :
        (o : Option AgentReputation)
        → All InRange
            (elim o as (λ x. ℕ × Table AgentReputation) [
              | none ↦ (0, t)
              | some r ↦ (1, set agent (rescored now delta r) t)
            ]).1
    updated none = h
    updated (some r) =
        set-All InRange agent (rescored now delta r) t h (clamp-bounds (r.trust_score +ℤ delta))

pub completion_trust-InRange :
    (now buyer seller : ℕ) (x y : ℤ) (t : Table AgentReputation)
    → All InRange t
    → All InRange (completion_trust now buyer seller x y t)
unfolding completion_trust
completion_trust-InRange now buyer seller x y t h = ground (
  arith,
  adjusted-InRange now seller (pos 1) t h,
  adjusted-InRange now buyer (pos 1) (adjusted now seller (pos 1) t),
  adjusted-InRange now seller (negsuc 1) t h,
  adjusted-InRange now seller (negsuc 0) t h,
)

-- The trust scores of a session.
abbrev pub TrustInRange : Db → Type 0
TrustInRange db = All InRange db.reputations

pub resolve_single-TrustInRange :
    (now id : ℕ) (db : Db) → TrustInRange db → TrustInRange (resolve_single now id db).1
resolve_single-TrustInRange now id db h = elim (Option-cases (find id db.deals)) [
  | inl e ↦ unfold resolve_single in (rw e h)
  | inr (d, e) ↦ elim (resolve_single_outcome now id d db e) [
    | inl (_, done) ↦ rw done (adjusted-InRange now d.seller_id (pos 0) db.reputations h)
    | inr (inl (_, done)) ↦ rw done (adjusted-InRange now d.seller_id (negsuc 2) db.reputations h)
    | inr (inr (inl (_, done))) ↦
        rw done
          (completion_trust-InRange now d.buyer_id d.seller_id d.amount d.amount db.reputations h)
    | inr (inr (inr (_, done))) ↦ rw done h
  ]
]

-- What the step after a released milestone does to the trust scores.
ended_or_not-InRange :
    (now buyer seller : ℕ) (x y : ℤ) (ends : Bool) (t : Table AgentReputation)
    → All InRange t
    → All InRange (if ends then completion_trust now buyer seller x y t else t)
ended_or_not-InRange now buyer seller x y true t h =
    completion_trust-InRange now buyer seller x y t h
ended_or_not-InRange now buyer seller x y false t h = h

pub resolve_milestone_expiry-TrustInRange :
    (now id seq : ℕ) (db : Db)
    → TrustInRange db
    → TrustInRange (resolve_milestone_expiry now id seq db).1
resolve_milestone_expiry-TrustInRange now id seq db h = elim (Option-cases (find id db.deals)) [
  | inl e ↦ unfold resolve_milestone_expiry in (rw e h)
  | inr (d, e) ↦ elim (Option-cases (find seq d.milestones)) [
    | inl em ↦ rw (resolve_milestone_expiry_unknown now id seq d db e em) h
    | inr (m, em) ↦ elim (resolve_milestone_expiry_outcome now id seq m d db e em) [
      | inl (_, _, done) ↦ rw done (adjusted-InRange now d.seller_id (negsuc 2) db.reputations h)
      | inr (inl (_, _, done)) ↦ rw done (
          ended_or_not-InRange now d.buyer_id d.seller_id (d.total_released +ℤ m.amount) d.amount
            (ends_with seq (with_released now seq m d)) db.reputations h)
      | inr (inr (_, done)) ↦ rw done h
    ]
  ]
]
