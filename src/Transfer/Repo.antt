-- ===== src/Transfer/Repo.antt =====
-- `TransactionRepository` (sthrip/db/transaction_repo.py).
use text.Mathlib.Text.{◌==◌ as str_eq}
use sthrip.Base.{ℕ, suc, ◌*◌, String, Option, none, some, [], ◌∷◌, ◌||◌, if◌then◌else◌, is_some}
use sthrip.Base.Int.{ℤ, pos, negsuc, neg_ℕ, ◌+ℤ◌, ltb_ℤ}
use sthrip.Base.Table.{Table, find}
use sthrip.Base.Action.{
  Action, Result, ok, err, pure, modify, ◌>>=◌, ◌>>◌, value_error, integrity_error,
}
use sthrip.Models.Parties.{FeeSource, FeeCollection, FeeCollectionStatus, AgentTier}
use sthrip.Models.Transfers.{Transaction, PaymentType, TransactionStatus}
use sthrip.Models.Database.{Db}
use sthrip.Ledger.Rows.{credit, get_for_update, amend, take_available}
use sthrip.Transfer.Commission.{compute_fee, rate_bps_for_tier}
use sthrip.Transfer.Tiers.{TierCache, get_tier}
use sthrip.Transfer.Stats.{record_transaction}

-- `query.filter(tx_hash == hash).first()`
unfoldable pub find_by_hash : String → Table Transaction → Option Transaction
find_by_hash hash [] = none
find_by_hash hash ((_, t) ∷ rows) = if str_eq t.tx_hash hash then some t else find_by_hash hash rows

abbrev pub get_by_hash : String → Db → Option Transaction
get_by_hash hash db = find_by_hash hash db.transactions

-- What the callers give `create`.
pub record Terms : Type 0 where
  pub tx_hash : String
  pub network : String
  pub from_agent_id : Option ℕ
  pub to_agent_id : Option ℕ
  pub amount : ℤ
  pub token : ℕ
  pub payment_type : PaymentType
  pub status : TransactionStatus
  pub fee : ℤ
  pub fee_collected : ℤ
  pub memo : Option String

abbrev pub new_transaction : ℕ → Terms → Transaction
new_transaction now t = record {
  tx_hash = t.tx_hash;
  network = t.network;
  token = t.token;
  from_agent_id = t.from_agent_id;
  to_agent_id = t.to_agent_id;
  amount = t.amount;
  fee = t.fee;
  fee_collected = t.fee_collected;
  payment_type = t.payment_type;
  status = t.status;
  block_number = none;
  confirmations = 0;
  memo = t.memo;
  confirmed_at = none;
  created_at = now;
}

-- The new row with the flush that follows: a key or a hash that is there is refused.
unfoldable pub create : ℕ → ℕ → Terms → Action Db Transaction
unfolding find_by_hash
create now id t db =
    let tx = new_transaction now t in
    if is_some (find id db.transactions) || is_some (find_by_hash t.tx_hash db.transactions)
    then (err integrity_error, db)
    else (ok tx, record db { transactions = (id, tx) ∷ db.transactions })

-- One piconero is 10^4 units.
abbrev pub piconero : ℤ → ℤ
piconero (pos n) = pos (10000 * n)
piconero (negsuc n) = neg_ℕ (10000 * suc n)

-- The arguments of `create_with_commission`.
pub record Transfer : Type 0 where
  pub tx_hash : String
  pub network : String
  pub from_agent_id : ℕ
  pub to_agent_id : ℕ
  pub amount_piconero : ℤ
  pub token : ℕ
  pub payment_type : PaymentType
  pub status : TransactionStatus
  pub memo : Option String
  pub idempotency_key : Option String

abbrev pub returned : {A : Type 0} → Result A → Action Db A
returned r db = (r, db)

abbrev pub fee_row : ℕ → ℕ → ℕ → AgentTier → Transfer → FeeCollection
fee_row now id fee tier t = record {
  source_type = FeeSource.fee_collection;
  source_id = id;
  amount = piconero (pos fee);
  token = t.token;
  status = FeeCollectionStatus.pending;
  payer_agent_id = some t.from_agent_id;
  amount_piconero = some fee;
  rate_applied_bps = some (rate_bps_for_tier tier);
  transaction_ref = some t.tx_hash;
  collected_at = some now;
}

abbrev pub terms_of : ℕ → Transfer → Terms
terms_of fee t = record {
  tx_hash = t.tx_hash;
  network = t.network;
  from_agent_id = some t.from_agent_id;
  to_agent_id = some t.to_agent_id;
  amount = piconero t.amount_piconero;
  token = t.token;
  payment_type = t.payment_type;
  status = t.status;
  fee = piconero (pos fee);
  fee_collected = piconero (pos fee);
  memo = t.memo;
}

-- `available` is compared with the amount and the fee, and the row is written.
unfoldable pub take_total : ℕ → ℕ → ℤ → ℕ → Action Db (Unit {0})
unfolding get_for_update
take_total now agent total token db =
    let (r, rows) = get_for_update now agent token db.balances in
    if ltb_ℤ r.available total then (err value_error, record db { balances = rows }) else (
      ok tt,
      record db { balances = amend now agent token (take_available now total) db.balances },
    )

-- The steps after the replay check.
unfoldable pub transfer : ℕ → ℕ → ℕ → AgentTier → Transfer → Action Db Transaction
unfolding compute_fee take_total credit create record_transaction
transfer now month id tier t = do
  fee ← returned (compute_fee t.amount_piconero tier)
  take_total now t.from_agent_id (piconero t.amount_piconero +ℤ piconero (pos fee)) t.token
  credit now t.to_agent_id (piconero t.amount_piconero) t.token
  tx ← create now id (terms_of fee t)
  modify (λ db. record db { fees = fee_row now id fee tier t ∷ db.fees })
  record_transaction now month t.from_agent_id
  pure tx

-- The transaction that a request with an idempotency key finds.
abbrev pub replayed : Transfer → Db → Option Transaction
replayed t db = elim t.idempotency_key [ none ↦ none | some _ ↦ get_by_hash t.tx_hash db ]

unfoldable pub create_with_commission :
    TierCache → ℕ → ℕ → ℕ → Transfer → Action Db (Transaction × TierCache)
unfolding transfer get_tier
create_with_commission cache now month id t db =
    if ltb_ℤ t.amount_piconero (pos 0) then (err value_error, db) else elim (replayed t db) [
      | some tx ↦ (ok (tx, cache), db)
      | none ↦
          let (tier, cache') = get_tier cache t.from_agent_id db in
          (transfer now month id tier t >>= λ tx. pure (tx, cache')) db
    ]

-- `confirm_transaction`
abbrev pub confirmed : ℕ → ℕ → ℕ → Transaction → Transaction
confirmed now block n t = record t {
  status = TransactionStatus.confirmed;
  block_number = some block;
  confirmations = n;
  confirmed_at = some now;
}

unfoldable pub write_by_hash :
    String → (Transaction → Transaction) → Table Transaction → Table Transaction
write_by_hash hash f [] = []
write_by_hash hash f ((k, t) ∷ rows) =
    (k, if str_eq t.tx_hash hash then f t else t) ∷ write_by_hash hash f rows

unfoldable pub confirm_transaction : ℕ → String → ℕ → ℕ → Action Db (Unit {0})
unfolding write_by_hash
confirm_transaction now hash block n =
    modify (λ db. record db {
      transactions = write_by_hash hash (confirmed now block n) db.transactions;
    })
