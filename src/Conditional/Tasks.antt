-- ===== src/Conditional/Tasks.antt =====
-- The expiry task on conditional payments.
use sthrip.Base.{ℕ, ◌≡◌, ◌∙◌, some, arith, refl, true, false, Bool, ◌&&◌, leb, length}
use sthrip.Base.Int.{ℤ}
use sthrip.Base.Table.{find}
use sthrip.Base.Keys.{Distinct}
use sthrip.Base.Counts.{Processes, count_each-Processes}
use sthrip.Base.Action.{ok}
use sthrip.Models.Payments.{ConditionalPayment, ConditionalPaymentState, is_pending}
use sthrip.Models.Database.{Db}
use sthrip.Ledger.Held.{counted_zero}
use sthrip.Accounting.{assets, in_lock}
use sthrip.Conditional.Repo
use sthrip.Conditional.Repo.{Terms, has_expired, expired_payment, cancelled_payment}
use sthrip.Conditional.Service.{expire_one, expire_stale}
use sthrip.Conditional.Outcomes.{expired_state, expire_one-stale}
use sthrip.Conditional.Books.{settled-assets}

expire_one-Processes :
    (u now : ℕ) (a : ℤ)
    → Processes
        (λ (db : Db). db.conditionals)
        (has_expired now)
        (expire_one now)
        (λ db. assets u db ≡ a)
unfolding in_lock
expire_one-Processes u now a id p db e due h = rw (expire_one-stale now id p db e due) (
  refl,
  settled-assets u now id p.from_agent_id p (expired_payment p) db (expired_state now id p db) e
        (stale_state p.state (leb p.expires_at now) due) (counted_zero u p.currency)
      ∙ h,
  (expired_payment p, refl, refl),
)
  where
    stale_state :
        (s : ConditionalPaymentState) (b : Bool)
        → is_pending s && b ≡ true
        → s ≡ ConditionalPaymentState.pending
    stale_state s b h = ground arith

-- Where no payment's key is given twice, the expiry task returns as many as were pending past
-- their time, leaves the books of every token as they were, and leaves no pending payment whose time has
-- passed.
pub expire_conditionals-assets :
    (u now : ℕ) (db : Db)
    → Distinct db.conditionals
    → ((expire_stale now db).0 ≡ ok (length (Repo.get_pending_expired now db.conditionals)))
      × (assets u (expire_stale now db).1 ≡ assets u db)
      × ((id : ℕ) (p : ConditionalPayment)
          → find id (expire_stale now db).1.conditionals ≡ some p
          → has_expired now p ≡ false)
unfolding expire_stale
expire_conditionals-assets u now db ds =
    let (counts, kept, none_left) =
      count_each-Processes (λ (s : Db). s.conditionals) (has_expired now) (expire_one now)
        (λ s. assets u s ≡ assets u db) (expire_one-Processes u now (assets u db)) db ds refl in
    (counts, kept, none_left)
