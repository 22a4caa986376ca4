-- ===== src/Transfer/Outcomes.antt =====
-- How a transfer with commission ends.
use sthrip.Base.{ℕ, ◌≡◌, ◌⊎◌, none, some, ◌∷◌, inl, inr, arith, refl, false, Option-cases}
use sthrip.Base.Int.{ℤ, pos, ◌+ℤ◌, ◌≤ℤ◌, ltb_ℤ}
use sthrip.Base.Table.{find}
use sthrip.Base.Action.{Action, ok, pure, bind-ok, bind-Raised, Raised}
use sthrip.Models.Parties.{AgentTier}
use sthrip.Models.Transfers.{Transaction}
use sthrip.Models.Database.{Db}
use sthrip.Ledger.Rows.{amend, add_available, take_available, get_for_update, find_row}
use sthrip.Ledger.Balance.{available_of}
use sthrip.Transfer.Commission.{fee_for}
use sthrip.Transfer.Tiers.{TierCache, get_tier}
use sthrip.Transfer.Stats.{counted_once}
use sthrip.Transfer.Repo.{
  Transfer, terms_of, new_transaction, find_by_hash, fee_row, piconero, replayed, transfer,
  create_with_commission,
}

module _ (cache : TierCache) (now month id : ℕ) (t : Transfer) (db : Db) where
  abbrev pub tier_of : AgentTier
  tier_of = (get_tier cache t.from_agent_id db).0

  -- What the sender pays on an amount of `n` piconero.
  abbrev pub total_of : ℕ → ℤ
  total_of n = piconero (pos n) +ℤ piconero (pos (fee_for n tier_of))

  abbrev pub Payable : ℕ → Type 0
  Payable n =
      (total_of n ≤ℤ available_of t.from_agent_id t.token db)
      × (find id db.transactions ≡ none)
      × (find_by_hash t.tx_hash db.transactions ≡ none)

  abbrev pub paid_transaction : ℕ → Transaction
  paid_transaction n = new_transaction now (terms_of (fee_for n tier_of) t)

  abbrev pub paid_state : ℕ → Db
  paid_state n = record db {
    balances =
        amend now t.to_agent_id t.token (add_available now (piconero (pos n)))
          (amend now t.from_agent_id t.token (take_available now (total_of n)) db.balances);
    transactions = (id, paid_transaction n) ∷ db.transactions;
    fees = fee_row now id (fee_for n tier_of) tier_of t ∷ db.fees;
    monthly_stats = counted_once now month t.from_agent_id db.monthly_stats;
  }

  transfer_outcome :
      (n : ℕ)
      → t.amount_piconero ≡ pos n
      → (Payable n × (transfer now month id tier_of t db ≡ (ok (paid_transaction n), paid_state n)))
        ⊎ ((¬ Payable n) × Raised (transfer now month id tier_of t db).0)
  unfolding transfer available_of get_for_update find_row
  transfer_outcome n e = rw e (ground arith)

  -- A transfer of an amount that is not negative, under one of three heads. The request is a repeat:
  -- it has an idempotency key, and a transaction with its hash is there. Then that transaction is
  -- returned and nothing changes. Or it is not a repeat, the sender has the amount and the fee, and
  -- neither key nor hash is taken: then the call ends in `paid_state`, where the sender has paid
  -- both, the recipient has the whole amount, and the fee is on record. Or else the call raises.
  pub create_with_commission_outcome :
      (n : ℕ)
      → t.amount_piconero ≡ pos n
      → let call = create_with_commission cache now month id t db in
        ((tx : Transaction) × (replayed t db ≡ some tx) × (call ≡ (ok (tx, cache), db)))
        ⊎ ((replayed t db ≡ none)
            × ((Payable n
                  × (call ≡ (
                    ok (paid_transaction n, (get_tier cache t.from_agent_id db).1),
                    paid_state n,
                  )))
                ⊎ ((¬ Payable n) × Raised call.0)))
  unfolding create_with_commission
  create_with_commission_outcome n e = elim (Option-cases (replayed t db)) [
    | inr (tx, r) ↦ inl (tx, r, rw (not_negative, r) refl)
    | inl r ↦ elim (transfer_outcome n e) [
      | inl (ready, done) ↦
          inr (r, inl (ready, rw (not_negative, r) (bind-ok attempt answer db _ _ done)))
      | inr (refused, raised) ↦
          inr (r, inr (refused, rw (not_negative, r) (bind-Raised attempt answer db raised)))
    ]
  ]
    where
      not_negative : ltb_ℤ t.amount_piconero (pos 0) ≡ false
      not_negative = ground arith

      attempt : Action Db Transaction
      attempt = transfer now month id tier_of t

      answer : Transaction → Action Db (Transaction × TierCache)
      answer tx = pure (tx, (get_tier cache t.from_agent_id db).1)
