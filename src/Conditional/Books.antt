-- ===== src/Conditional/Books.antt =====
-- The books over the calls on conditional payments.
use sthrip.Base.{ℕ, ◌≡◌, String, some, inl, inr, refl, Option-cases}
use sthrip.Base.Int.{pos, ◌-ℤ◌, int_laws, parts}
use sthrip.Base.Table.{find, set, sum, sum-set}
use sthrip.Base.Action.{transact, transact-Raised}
use sthrip.Models.Payments.{ConditionalPayment, ConditionalPaymentState}
use sthrip.Models.Database.{Db}
use sthrip.Ledger.Held.{counted, counted_zero, counted-sub, held-amend}
use sthrip.Ledger.Rows.{amend, add_available, take_available}
use sthrip.Accounting.{assets, in_lock}
use sthrip.Conditional.Repo.{Terms, cancelled_payment}
use sthrip.Conditional.Service.{create_conditional, trigger_webhook, cancel}
use sthrip.Conditional.Outcomes.{
  created_state, create_conditional_outcome, executed_state, paid_payment, trigger_webhook_outcome,
  cancelled_state, cancel_outcome,
}

-- Paying out what a pending payment keeps, to whomever, when it then keeps nothing.
pub settled-assets :
    (u now id a : ℕ) (p p' : ConditionalPayment) (db db' : Db)
    → find id db.conditionals ≡ some p
    → p.state ≡ ConditionalPaymentState.pending
    → in_lock u p' ≡ pos 0
    → assets u (record db {
      balances = amend now a p.currency (add_available now p.locked_amount) db.balances;
      conditionals = set id p' db.conditionals;
      journal = db'.journal;
    })
      ≡ assets u db
unfolding assets in_lock
settled-assets u now id a p p' db db' e st none_left =
    let kept : in_lock u p ≡ counted u p.currency p.locked_amount = rw st in
    omega (
      int_laws,
      parts kept,
      parts none_left,
      parts (
          held-amend u now a p.currency (add_available now p.locked_amount) p.locked_amount
            db.balances (λ r. refl)),
      parts (sum-set (in_lock u) id p' p db.conditionals e),
    )

created_state-assets :
    (u now id : ℕ) (hash : String) (r : Terms) (db : Db)
    → assets u (created_state now id hash r db) ≡ assets u db
unfolding assets in_lock sum
created_state-assets u now id hash r db =
    let taken =
      held-amend u now r.from_agent_id r.currency (take_available now r.amount) (pos 0 -ℤ r.amount)
        db.balances (λ b. omega int_laws) in
    omega (
      int_laws,
      parts taken,
      parts (counted-sub u r.currency (pos 0) r.amount),
      parts (counted_zero u r.currency),
    )

pub create_conditional-assets :
    (u now id : ℕ) (hash : String) (r : Terms) (db : Db)
    → assets u (transact (create_conditional now id hash r) db).1 ≡ assets u db
create_conditional-assets u now id hash r db = elim (create_conditional_outcome now id hash r db) [
  | inl (_, done) ↦ unfold transact in (rw done (created_state-assets u now id hash r db))
  | inr (_, raised) ↦ rw (transact-Raised (create_conditional now id hash r) db raised)
]

pub trigger_webhook-assets :
    (u now id agent : ℕ) (db : Db) → assets u (trigger_webhook now id agent db).1 ≡ assets u db
unfolding in_lock
trigger_webhook-assets u now id agent db = elim (Option-cases (find id db.conditionals)) [
  | inl e ↦ unfold trigger_webhook in (rw e refl)
  | inr (p, e) ↦ elim (trigger_webhook_outcome now id agent p db e) [
    | inl ((_, st), done) ↦ rw done (
        settled-assets u now id p.to_agent_id p (paid_payment now p) db (executed_state now id p db)
          e st (counted_zero u p.currency))
    | inr (_, _, same) ↦ rw same
  ]
]

pub cancel-assets :
    (u now agent id : ℕ) (db : Db) → assets u (cancel now agent id db).1 ≡ assets u db
unfolding in_lock
cancel-assets u now agent id db = elim (Option-cases (find id db.conditionals)) [
  | inl e ↦ unfold cancel in (rw e refl)
  | inr (p, e) ↦ elim (cancel_outcome now agent id p db e) [
    | inl ((_, st), done) ↦ rw done (
        settled-assets u now id p.from_agent_id p (cancelled_payment p) db
          (cancelled_state now id p db) e st (counted_zero u p.currency))
    | inr (_, _, same) ↦ rw same
  ]
]
