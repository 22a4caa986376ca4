-- ===== src/Escrow/Creation.antt =====
-- How a deal is created: when it is, and what it holds.
use sthrip.Base.{
  ◌∙◌, ℕ, ◌≡◌, ◌≢◌, ◌⊎◌, ◌+◌, none, some, Option, List, [], inl, inr, ◌∷◌, arith, true, false, refl,
  Bool, Option-cases, ==-refl, String, length, ◌<◌, sym,
}
use sthrip.Base.Int.{pos_part, neg_part, ℤ, pos, ◌-ℤ◌, ◌≤ℤ◌, ◌<ℤ◌, int_laws, parts}
use sthrip.Base.Table.{find, set, sum, All}
use sthrip.Base.Action.{ok, Raised, transact, transact-Raised}
use sthrip.Models.Parties.{xmr, audit}
use sthrip.Models.Escrow.{EscrowDeal}
use sthrip.Models.Database.{Db}
use sthrip.Ledger.Held.{counted_zero, counted-sub, held-amend}
use sthrip.Ledger.Rows.{amend, take_available, get_for_update, find_row}
use sthrip.Ledger.Balance.{available_of}
use sthrip.Accounting.{in_escrow, assets, open_amount}
use sthrip.Escrow.Repo.{new_deal}
use sthrip.Escrow.MilestoneRepo.{MilestoneTerms, milestones_from, breaks_constraint}
use sthrip.Escrow.Deals.{
  Request, terms_of, total_amount, breaks_total, multi_milestone, create_escrow,
}
use sthrip.Base.Keys.{Distinct}
use sthrip.Escrow.WellFormed.{IsWellFormed, Positive}

abbrev pub constraint_broken : Option (List MilestoneTerms) → Bool
constraint_broken none = false
constraint_broken (some ms) = breaks_constraint 1 ms

abbrev pub is_active_agent : ℕ → Db → Bool
is_active_agent agent db = elim (find agent db.agents) [ none ↦ false | some a ↦ a.is_active ]

-- What creating a deal asks of the request and the database.
abbrev pub Creatable : ℕ → Request → Db → Type 0
Creatable id r db =
    (r.buyer_id ≢ r.seller_id)
    × (pos 0 <ℤ r.amount)
    × (breaks_total r.milestones r.amount ≡ false)
    × (is_active_agent r.seller_id db ≡ true)
    × (r.amount ≤ℤ available_of r.buyer_id xmr db)
    × (find id db.deals ≡ none)
    × (constraint_broken r.milestones ≡ false)

abbrev pub with_milestones : Option (List MilestoneTerms) → EscrowDeal → EscrowDeal
with_milestones none d = d
with_milestones (some ms) d = record (multi_milestone ms d) { milestones = milestones_from 1 ms }

abbrev pub created_deal : ℕ → String → Request → EscrowDeal
created_deal now hash r = with_milestones r.milestones (new_deal now hash (terms_of r))

abbrev pub created_state : ℕ → ℕ → String → Request → Db → Db
created_state now id hash r db = record db {
  balances = amend now r.buyer_id xmr (take_available now r.amount) db.balances;
  deals = (id, created_deal now hash r) ∷ db.deals;
  journal = audit "escrow.created" (some r.buyer_id) (some id) ∷ db.journal;
}

-- Either all of `Creatable` holds, and the call returns the new deal in `created_state`, where the
-- amount is taken from the buyer's balance, or it does not, and the call raises.
pub create_escrow_outcome :
    (now id : ℕ) (hash : String) (r : Request) (db : Db)
    → (Creatable id r db
        × (create_escrow now id hash r db
            ≡ (ok (created_deal now hash r), created_state now id hash r db)))
      ⊎ ((¬ Creatable id r db) × Raised (create_escrow now id hash r db).0)
unfolding create_escrow available_of get_for_update find_row set
create_escrow_outcome now id hash r db = elim (Option-cases r.milestones) [
  | inl e ↦ ground (arith, ==-refl id)
  | inr (ms, e) ↦ ground (arith, ==-refl id)
]

open_from :
    (n : ℕ) (ms : List MilestoneTerms) → open_amount (milestones_from n ms) ≡ total_amount ms
unfolding sum milestones_from total_amount
open_from n [] = refl
open_from n (m ∷ ms) = rw (open_from (n + 1) ms)

adds_up :
    (ms : List MilestoneTerms) (x : ℤ) → breaks_total (some ms) x ≡ false → total_amount ms ≡ x
adds_up ms x h = omega (int_laws, even ms x h)
  where
    even :
        (ms : List MilestoneTerms) (x : ℤ)
        → breaks_total (some ms) x ≡ false
        → pos_part (total_amount ms) + neg_part x ≡ pos_part x + neg_part (total_amount ms)
    even ms x h = ground arith

-- The amount of a new deal leaves the buyer's balance and is in escrow.
created_state-assets :
    (u now id : ℕ) (hash : String) (r : Request) (db : Db)
    → assets u (created_state now id hash r db) ≡ assets u db
unfolding assets in_escrow sum
created_state-assets u now id hash r db =
    let taken =
      held-amend u now r.buyer_id xmr (take_available now r.amount) (pos 0 -ℤ r.amount) db.balances
        (λ b. omega int_laws) in
    elim (Option-cases r.milestones) [
      | inl e ↦ rw e (
          omega (
            int_laws,
            parts taken,
            parts (counted-sub u xmr (pos 0) r.amount),
            parts (counted_zero u xmr),
          ))
      | inr (ms, e) ↦ rw e (
          omega (
            int_laws,
            parts taken,
            parts (counted-sub u xmr (pos 0) r.amount),
            parts (counted_zero u xmr),
          ))
    ]

-- Creating a deal, in a transaction, keeps the books, also where it is refused.
pub create_escrow-assets :
    (u now id : ℕ) (hash : String) (r : Request) (db : Db)
    → assets u (transact (create_escrow now id hash r) db).1 ≡ assets u db
create_escrow-assets u now id hash r db = elim (create_escrow_outcome now id hash r db) [
  | inl (_, done) ↦ unfold transact in (rw done (created_state-assets u now id hash r db))
  | inr (_, raised) ↦ rw (transact-Raised (create_escrow now id hash r) db raised)
]

milestones_from-absent :
    (k n : ℕ) (ms : List MilestoneTerms) → k < n → find k (milestones_from n ms) ≡ none
unfolding find milestones_from
milestones_from-absent k n [] h = refl
milestones_from-absent k n (m ∷ ms) h = ground (arith, milestones_from-absent k (n + 1) ms)

milestones_from-Distinct : (n : ℕ) (ms : List MilestoneTerms) → Distinct (milestones_from n ms)
unfolding milestones_from
milestones_from-Distinct n [] = tt
milestones_from-Distinct n (m ∷ ms) =
    (milestones_from-absent n (n + 1) ms (omega arith), milestones_from-Distinct (n + 1) ms)

milestones_from-Positive :
    (n : ℕ) (ms : List MilestoneTerms)
    → breaks_constraint n ms ≡ false
    → All Positive (milestones_from n ms)
unfolding milestones_from breaks_constraint
milestones_from-Positive n [] h = tt
milestones_from-Positive n (m ∷ ms) h = ground (arith, milestones_from-Positive (n + 1) ms)

length-milestones_from :
    (n : ℕ) (ms : List MilestoneTerms) → length (milestones_from n ms) ≡ length ms
unfolding milestones_from
length-milestones_from n [] = refl
length-milestones_from n (m ∷ ms) = ground (arith, length-milestones_from (n + 1) ms)

pub created_deal-IsWellFormed :
    (now id : ℕ) (hash : String) (r : Request) (db : Db)
    → Creatable id r db
    → IsWellFormed (created_deal now hash r)
unfolding sum
created_deal-IsWellFormed now id hash r db (_, positive, adds, _, _, _, fits) =
    elim (Option-cases r.milestones) [
      | inl e ↦ rw e (record {
        rate_fits = omega arith;
        amount_positive = omega arith;
        parts_positive = tt;
        parts_distinct = tt;
        parts_counted = λ m. cc;
        parts_add_up = λ m st. cc;
      })
      | inr (ms, e) ↦ rw e (record {
        rate_fits = omega arith;
        amount_positive = omega arith;
        parts_positive = milestones_from-Positive 1 ms (rw e at fits);
        parts_distinct = milestones_from-Distinct 1 ms;
        parts_counted = λ m. sym (length-milestones_from 1 ms);
        parts_add_up = λ m st. open_from 1 ms ∙ adds_up ms r.amount (rw e at adds);
      })
    ]
