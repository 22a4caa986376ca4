-- ===== src/Transfer/Charges.antt =====
-- What a transfer with commission does to the books, and that a repeat of it charges nothing.
use text.Mathlib.TextPositions.{eq_refl}
use sthrip.Base.{ℕ, ◌≡◌, String, some, inl, inr, arith, refl}
use sthrip.Base.Int.{ℤ, pos, negsuc, ◌-ℤ◌, int_laws, parts}
use sthrip.Base.Action.{ok, Raised, transact, transact-Raised}
use sthrip.Models.Transfers.{Transaction}
use sthrip.Models.Database.{Db}
use sthrip.Ledger.Held.{held-amend, counted-add, counted-sub, counted_zero}
use sthrip.Ledger.Rows.{amend, add_available, take_available}
use sthrip.Accounting.{assets}
use sthrip.Fees.{fee_sum}
use sthrip.Transfer.Tiers.{TierCache}
use sthrip.Transfer.Repo.{Transfer, replayed, piconero, create_with_commission, find_by_hash}
use sthrip.Transfer.Outcomes.{
  paid_transaction, paid_state, total_of, tier_of, create_with_commission_outcome,
}
use sthrip.Transfer.Commission.{fee_for}

module _ (cache : TierCache) (now month id : ℕ) (t : Transfer) (db : Db) where
  paid_state-assets : (u n : ℕ) → assets u (paid_state cache now month id t db n) ≡ assets u db
  unfolding assets fee_sum
  paid_state-assets u n =
      let total = total_of cache now month id t db n in
      let fee = piconero (pos (fee_for n (tier_of cache now month id t db))) in
      let taken = amend now t.from_agent_id t.token (take_available now total) db.balances in
      omega (
        int_laws,
        parts (
            held-amend u now t.from_agent_id t.token (take_available now total) (pos 0 -ℤ total)
              db.balances (λ b. omega int_laws)),
        parts (
            held-amend u now t.to_agent_id t.token (add_available now (piconero (pos n)))
              (piconero (pos n)) taken (λ b. refl)),
        parts (counted-sub u t.token (pos 0) total),
        parts (counted-add u t.token (piconero (pos n)) fee),
        parts (counted_zero u t.token),
      )

  -- A transfer with commission, whatever the request and however it ends, keeps the books of every
  -- token: what the sender pays is what the recipient gets and the fee on record.
  pub create_with_commission-assets :
      (u : ℕ) → assets u (transact (create_with_commission cache now month id t) db).1 ≡ assets u db
  create_with_commission-assets u = signed t.amount_piconero refl
    where
      signed :
          (x : ℤ)
          → t.amount_piconero ≡ x
          → assets u (transact (create_with_commission cache now month id t) db).1 ≡ assets u db
      signed (pos n) e = elim (create_with_commission_outcome cache now month id t db n e) [
        | inl (tx, _, done) ↦ unfold transact in (rw done refl)
        | inr (_, inl (_, done)) ↦ unfold transact in (rw done (paid_state-assets u n))
        | inr (_, inr (_, raised)) ↦
            rw (transact-Raised (create_with_commission cache now month id t) db raised)
      ]
      signed (negsuc n) e = unfold transact create_with_commission in ground arith

-- Once a transfer with an idempotency key has been made, the same request charges nothing: however
-- often it is made, at whatever time and with whatever cache, it returns the first one's transaction
-- and leaves the database as it was.
pub repeat_charges_nothing :
    (cache later : TierCache) (now month id now' month' id' : ℕ) (t : Transfer) (k : String)
    (tx : Transaction) (cache' : TierCache) (db db' : Db)
    → t.idempotency_key ≡ some k
    → create_with_commission cache now month id t db ≡ (ok (tx, cache'), db')
    → create_with_commission later now' month' id' t db' ≡ (ok (tx, later), db')
repeat_charges_nothing cache later now month id now' month' id' t k tx cache' db db' key done =
    signed t.amount_piconero refl
  where
    again :
        (n : ℕ)
        → t.amount_piconero ≡ pos n
        → replayed t db' ≡ some tx
        → create_with_commission later now' month' id' t db' ≡ (ok (tx, later), db')
    again n e found = unfold create_with_commission in ground arith

    signed :
        (x : ℤ)
        → t.amount_piconero ≡ x
        → create_with_commission later now' month' id' t db' ≡ (ok (tx, later), db')
    signed (pos n) e = elim (create_with_commission_outcome cache now month id t db n e) [
      | inl (tx', found, same) ↦
          let same_db : db' ≡ db = cc in
          let same_tx : tx ≡ tx' = cc in again n e (rw (same_db, same_tx) found)
      | inr (_, inl (_, paid)) ↦
          let same_db : db' ≡ paid_state cache now month id t db n = cc in
          let same_tx : tx ≡ paid_transaction cache now month id t db n = cc in
          again n e (rw (same_db, same_tx, key) (unfold find_by_hash in rw (eq_refl t.tx_hash)))
      | inr (_, inr (_, raised)) ↦ absurd (rw done at raised)
    ]
    signed (negsuc n) e = absurd (rw done at raises)
      where
        raises : Raised (create_with_commission cache now month id t db).0
        raises = unfold create_with_commission in ground arith
