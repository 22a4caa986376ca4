-- ===== src/Escrow/Reform.antt =====
-- The form of a deal whose status, times and milestone rows change.
use sthrip.Base.{
  ℕ, Bool, ◌≡◌, ◌≢◌, ◌+◌, some, inl, inr, arith, true, false, refl, if◌then◌else◌, Bool-cases,
  Option-cases, length,
}
use sthrip.Base.Int.{ℤ}
use sthrip.Base.Table.{Table, find, set, All, find-All, set-All}
use sthrip.Models.Milestone
use sthrip.Models.Milestone.{EscrowMilestone, MilestoneStatus}
use sthrip.Models.Escrow.{EscrowDeal, EscrowStatus}
use sthrip.Escrow.MilestoneRepo.{activated}
use sthrip.Escrow.Repo.{accepted_deal}
use sthrip.Escrow.Outcomes.{with_first_active, accepted_result}
use sthrip.Escrow.MilestoneOutcomes.{with_parts, started, ends_with, after_release}
use sthrip.Base.Keys.{Distinct, length-set, set-Distinct}
use sthrip.Escrow.WellFormed.{
  IsWellFormed, Positive, length-cancel_all, cancel_all-Distinct, cancel_all-Positive,
}

-- Rows that may stand in the place of others.
abbrev pub Replaces : Table EscrowMilestone → Table EscrowMilestone → Type 0
Replaces ms ms' = (length ms' ≡ length ms) × Distinct ms' × All Positive ms'

pub set-Replaces :
    (k : ℕ) (m m' : EscrowMilestone) (ms : Table EscrowMilestone)
    → find k ms ≡ some m
    → m'.amount ≡ m.amount
    → Distinct ms
    → All Positive ms
    → Replaces ms (set k m' ms)
set-Replaces k m m' ms e same ds ps = (
  length-set k m' ms,
  set-Distinct k m' ms ds,
  set-All Positive k m' ms ps (rw same (find-All Positive k m ms ps e)),
)

-- A deal that has left its first status, with the same terms.
pub moved-IsWellFormed :
    (d d' : EscrowDeal)
    → IsWellFormed d
    → (d'.fee_percent ≡ d.fee_percent)
      × (d'.amount ≡ d.amount)
      × (d'.is_multi_milestone ≡ d.is_multi_milestone)
      × (d'.milestone_count ≡ d.milestone_count)
    → Replaces d.milestones d'.milestones
    → d'.status ≢ EscrowStatus.created
    → IsWellFormed d'
moved-IsWellFormed d d' w (r, a, m, c) (l, ds, ps) st = record {
  rate_fits = ground (arith, w.rate_fits);
  amount_positive = ground (arith, w.amount_positive);
  parts_positive = ps;
  parts_distinct = ds;
  parts_counted = λ multi. ground (arith, w.parts_counted);
  parts_add_up = λ multi created. absurd (st created);
}

pub same-Replaces : (d : EscrowDeal) → IsWellFormed d → Replaces d.milestones d.milestones
same-Replaces d w = (refl, w.parts_distinct, w.parts_positive)

pub started-Replaces :
    (now n : ℕ) (ms : Table EscrowMilestone)
    → Distinct ms
    → All Positive ms
    → Replaces ms (started now n (find n ms) ms)
started-Replaces now n ms ds ps = elim (Option-cases (find n ms)) [
  | inl e ↦ rw e (refl, ds, ps)
  | inr (m, e) ↦ elim (Bool-cases (Milestone.is_pending m.status)) [
    | inl p ↦
        rw (e, p) (set-Replaces n m (activated now m.delivery_timeout_hours m) ms e refl ds ps)
    | inr p ↦ rw (e, p) (refl, ds, ps)
  ]
]

with_first_active-IsWellFormed :
    (now : ℕ) (d : EscrowDeal)
    → IsWellFormed d
    → d.status ≢ EscrowStatus.created
    → IsWellFormed (with_first_active now (find 1 d.milestones) d)
with_first_active-IsWellFormed now d w st = elim (Option-cases (find 1 d.milestones)) [
  | inl e ↦ rw e w
  | inr (m, e) ↦ elim (Bool-cases (Milestone.is_pending m.status)) [
    | inl p ↦
        let m' = activated now m.delivery_timeout_hours m in
        rw (e, p)
          (moved-IsWellFormed d (with_parts (set 1 m' d.milestones) d) w (refl, refl, refl, refl)
            (set-Replaces 1 m m' d.milestones e refl w.parts_distinct w.parts_positive) st)
    | inr p ↦ rw (e, p) w
  ]
]

either : {A : Type 0} (P : A → Type 0) (c : Bool) (x y : A) → P x → P y → P (if c then x else y)
either P true x y p q = p
either P false x y p q = q

pub accepted_result-IsWellFormed :
    (now : ℕ) (d : EscrowDeal) → IsWellFormed d → IsWellFormed (accepted_result now d)
accepted_result-IsWellFormed now d w =
    let d' = accepted_deal now d.delivery_timeout_hours d in
    let w' = moved-IsWellFormed d d' w (refl, refl, refl, refl) (same-Replaces d w) (λ c. cc) in
    either IsWellFormed d.is_multi_milestone (with_first_active now (find 1 d.milestones) d') d'
      (with_first_active-IsWellFormed now d' w' (λ c. cc)) w'

pub after_release-IsWellFormed :
    (now seq : ℕ) (amount fee : ℤ) (d : EscrowDeal)
    → IsWellFormed d
    → d.status ≡ EscrowStatus.accepted
    → IsWellFormed (after_release now seq amount fee d)
after_release-IsWellFormed now seq amount fee d w st = elim (Bool-cases (ends_with seq d)) [
  | inl last ↦ rw last (
      moved-IsWellFormed d _ w (refl, refl, refl, refl)
        (
          length-cancel_all now d.milestones,
          cancel_all-Distinct now d.milestones w.parts_distinct,
          cancel_all-Positive now d.milestones w.parts_positive,
        )
        (λ c. cc))
  | inr more ↦ rw more (
      moved-IsWellFormed d _ w (refl, refl, refl, refl)
        (started-Replaces now (seq + 1) d.milestones w.parts_distinct w.parts_positive) (λ c. cc))
]

-- A deal that only changes its status and times.
pub restatused-IsWellFormed :
    (d d' : EscrowDeal)
    → IsWellFormed d
    → (d'.fee_percent ≡ d.fee_percent)
      × (d'.amount ≡ d.amount)
      × (d'.is_multi_milestone ≡ d.is_multi_milestone)
      × (d'.milestone_count ≡ d.milestone_count)
    → d'.milestones ≡ d.milestones
    → d'.status ≢ EscrowStatus.created
    → IsWellFormed d'
restatused-IsWellFormed d d' w same ms st =
    moved-IsWellFormed d d' w same (rw ms (same-Replaces d w)) st

-- A deal in a later status with other rows in the place of its milestones.
pub with_parts-IsWellFormed :
    (ms : Table EscrowMilestone) (d : EscrowDeal)
    → IsWellFormed d
    → d.status ≡ EscrowStatus.accepted
    → Replaces d.milestones ms
    → IsWellFormed (with_parts ms d)
with_parts-IsWellFormed ms d w st r =
    moved-IsWellFormed d (with_parts ms d) w (refl, refl, refl, refl) r (λ c. cc)
