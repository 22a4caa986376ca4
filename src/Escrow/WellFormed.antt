-- ===== src/Escrow/WellFormed.antt =====
-- What holds of every deal between two calls.
use sthrip.Base.{ℕ, ◌≡◌, ◌≤◌, none, [], ◌∷◌, arith, true, refl, length}
use sthrip.Base.Int.{pos, ◌≤ℤ◌}
use sthrip.Base.Table.{Table, find, All}
use sthrip.Base.Keys.{Distinct}
use sthrip.Models.Milestone.{EscrowMilestone}
use sthrip.Models.Escrow.{EscrowDeal, EscrowStatus}
use sthrip.Accounting.{open_amount}
use sthrip.Escrow.MilestoneRepo.{cancel_all}

abbrev pub Positive : EscrowMilestone → Type 0
Positive m = pos 0 ≤ℤ m.amount

pub record IsWellFormed (d : EscrowDeal) : Type 0 where
  pub rate_fits : d.fee_percent ≤ 10000
  pub amount_positive : pos 0 ≤ℤ d.amount
  pub parts_positive : All Positive d.milestones
  pub parts_distinct : Distinct d.milestones
  pub parts_counted : d.is_multi_milestone ≡ true → d.milestone_count ≡ length d.milestones
  pub parts_add_up :
      d.is_multi_milestone ≡ true
      → d.status ≡ EscrowStatus.created
      → open_amount d.milestones ≡ d.amount

pub length-cancel_all :
    (now : ℕ) (ms : Table EscrowMilestone) → length (cancel_all now ms) ≡ length ms
unfolding cancel_all
length-cancel_all now [] = refl
length-cancel_all now ((n, m) ∷ ms) = ground (arith, length-cancel_all now ms)

find-cancel_all :
    (k now : ℕ) (ms : Table EscrowMilestone) → find k ms ≡ none → find k (cancel_all now ms) ≡ none
unfolding find cancel_all
find-cancel_all k now [] h = refl
find-cancel_all k now ((n, m) ∷ ms) h = ground (arith, find-cancel_all k now ms)

pub cancel_all-Distinct :
    (now : ℕ) (ms : Table EscrowMilestone) → Distinct ms → Distinct (cancel_all now ms)
unfolding cancel_all
cancel_all-Distinct now [] h = tt
cancel_all-Distinct now ((n, m) ∷ ms) (h, hs) =
    (find-cancel_all n now ms h, cancel_all-Distinct now ms hs)

pub cancel_all-Positive :
    (now : ℕ) (ms : Table EscrowMilestone) → All Positive ms → All Positive (cancel_all now ms)
unfolding cancel_all
cancel_all-Positive now [] h = tt
cancel_all-Positive now ((n, m) ∷ ms) (h, hs) = ground (arith, cancel_all-Positive now ms hs)
