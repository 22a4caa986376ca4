-- ===== src/Transfer/Split.antt =====
-- `SplitPaymentService` (sthrip/services/split_payment_service.py).
use text.Mathlib.Text.{◌==◌ as str_eq}
use sthrip.Base.{
  ℕ, String, Option, none, some, List, [], ◌∷◌, Bool, true, false, ◌==◌, if◌then◌else◌,
}
use sthrip.Base.Int.{ℤ, pos, ◌+ℤ◌}
use sthrip.Base.Table.{Table}
use sthrip.Base.Action.{
  Action, pure, gets, or_raise, raise_if, ◌>>=◌, ◌>>◌, value_error, lookup_error,
}
use sthrip.Models.Parties.{Agent}
use sthrip.Models.Transfers.{Transaction, PaymentType, TransactionStatus}
use sthrip.Models.Database.{Db, audit_log}
use sthrip.Ledger.Rows.{credit, deduct}
use sthrip.Transfer.Repo.{Terms, create}

-- `AgentRepository.get_by_name`: the agent's key and row.
unfoldable pub get_by_name : String → Table Agent → Option (ℕ × Agent)
get_by_name name [] = none
get_by_name name ((id, a) ∷ t) =
    if str_eq a.agent_name name then some (id, a) else get_by_name name t

-- An entry of `recipients`, with the key and the random hash of the row that is made for it.
pub record Share : Type 0 where
  pub agent_name : String
  pub amount : ℤ
  pub tx_id : ℕ
  pub tx_hash : String

-- An entry of `resolved`.
pub record Payee : Type 0 where
  pub agent_id : ℕ
  pub share : Share

-- One round of phase 1.
unfoldable pub resolve_one : ℕ → Share → Action Db Payee
unfolding get_by_name
resolve_one sender s = do
  found ← or_raise (← gets (λ (db : Db). get_by_name s.agent_name db.agents)) lookup_error
  raise_if (found.0 == sender) value_error
  pure (record { agent_id = found.0; share = s })

unfoldable pub resolve : ℕ → List Share → Action Db (List Payee)
unfolding resolve_one
resolve sender [] = pure []
resolve sender (s ∷ ss) = do
  payee ← resolve_one sender s
  payees ← resolve sender ss
  pure (payee ∷ payees)

unfoldable pub total_of : List Payee → ℤ
total_of [] = pos 0
total_of (p ∷ ps) = p.share.amount +ℤ total_of ps

abbrev pub terms_for : ℕ → ℕ → Option String → Payee → Terms
terms_for sender currency memo p = record {
  tx_hash = p.share.tx_hash;
  network = "hub";
  from_agent_id = some sender;
  to_agent_id = some p.agent_id;
  amount = p.share.amount;
  token = currency;
  payment_type = PaymentType.hub_routing;
  status = TransactionStatus.confirmed;
  fee = pos 0;
  fee_collected = pos 0;
  memo = memo;
}

-- One round of phase 3: a receipt is read off its transaction.
unfoldable pub pay_one : ℕ → ℕ → ℕ → Option String → Payee → Action Db Transaction
unfolding credit create
pay_one now sender currency memo p = do
  credit now p.agent_id p.share.amount currency
  create now p.share.tx_id (terms_for sender currency memo p)

unfoldable pub pay_each : ℕ → ℕ → ℕ → Option String → List Payee → Action Db (List Transaction)
unfolding pay_one
pay_each now sender currency memo [] = pure []
pay_each now sender currency memo (p ∷ ps) = do
  tx ← pay_one now sender currency memo p
  receipts ← pay_each now sender currency memo ps
  pure (tx ∷ receipts)

-- Phases 2 and 3, and the audit row.
unfoldable pub pay_resolved : ℕ → ℕ → ℕ → Option String → List Payee → Action Db (List Transaction)
unfolding deduct total_of pay_each
pay_resolved now sender currency memo payees = do
  deduct now sender (total_of payees) currency
  receipts ← pay_each now sender currency memo payees
  audit_log "split_payment.executed" (some sender) none
  pure receipts

abbrev pub is_empty : List Share → Bool
is_empty [] = true
is_empty (_ ∷ _) = false

unfoldable pub pay_split : ℕ → ℕ → List Share → ℕ → Option String → Action Db (List Transaction)
unfolding resolve pay_resolved
pay_split now sender shares currency memo = do
  raise_if (is_empty shares) value_error
  payees ← resolve sender shares
  pay_resolved now sender currency memo payees
