-- ===== src/Swaps/Polling.antt =====
-- `poll_external_orders` of `SwapService` (sthrip/services/swap_service.py). It raises nothing, so what
-- its commits have saved is what its session holds at the end.
use text.Mathlib.Text.{◌==◌ as str_eq}
use sthrip.Base.{ℕ, ◌+◌, String, Option, none, some, List, [], ◌∷◌, Bool, ◌==◌, ◌||◌, if◌then◌else◌}
use sthrip.Base.Int.{ℤ}
use sthrip.Base.Table.{find}
use sthrip.Base.Action.{
  Action, Result, ok, err, pure, raise, ◌>>=◌, ◌>>◌, value_error, runtime_error,
}
use sthrip.Models.Parties.{xmr}
use sthrip.Models.Swaps.{SwapOrder}
use sthrip.Models.Database.{Db}
use sthrip.Ledger.Rows.{credit}
use sthrip.Channel.Service.{is_empty}
use sthrip.Swaps.Providers.{
  Exchanges, ExchangeStatus, Figure, Report, Answer, changenow_order_status, sideshift_order_status,
}
use sthrip.Swaps.Orders

-- The counts of a round of polling.
pub record Tally : Type 0 where
  pub completed : ℕ
  pub expired : ℕ
  pub errors : ℕ
  pub skipped : ℕ

abbrev pub nothing_yet : Tally
nothing_yet = record { completed = 0; expired = 0; errors = 0; skipped = 0 }

abbrev pub one_completed : Tally
one_completed = record nothing_yet { completed = 1 }

abbrev pub one_expired : Tally
one_expired = record nothing_yet { expired = 1 }

abbrev pub one_error : Tally
one_error = record nothing_yet { errors = 1 }

abbrev pub one_skipped : Tally
one_skipped = record nothing_yet { skipped = 1 }

abbrev pub add_tally : Tally → Tally → Tally
add_tally a b = record {
  completed = a.completed + b.completed;
  expired = a.expired + b.expired;
  errors = a.errors + b.errors;
  skipped = a.skipped + b.skipped;
}

-- `Decimal(to_amount_raw) if to_amount_raw else order.to_amount`
abbrev pub amount_to_credit : Option Figure → ℤ → Action Db ℤ
amount_to_credit none old = pure old
amount_to_credit (some (Figure.amount x)) old = pure x
amount_to_credit (some Figure.empty) old = pure old
amount_to_credit (some Figure.unreadable) old = raise value_error

-- The credit, if the UPDATE has found the order.
abbrev pub credit_order : ℕ → ℕ → ℤ → Bool → Action Db Tally
credit_order now agent amount found =
    if found then (credit now agent amount xmr >> pure one_completed) else pure one_skipped

-- The `try` of the loop: an exception is one error more, and what was written before it stays.
abbrev pub counted_error : Result Tally × Db → Tally × Db
counted_error (ok t, db) = (t, db)
counted_error (err _, db) = (one_error, db)

unfoldable pub expire_order : ℕ → Action Db Tally
unfolding Orders.expire
expire_order id = do rows ← Orders.expire id; pure (if rows == 1 then one_expired else one_skipped)

-- `column` is the rounding of the orders' column for amounts, which is the database's.
module _ (column : ℤ → ℤ) where
  -- What a finished exchange brings.
  unfoldable pub finish_order : ℕ → ℕ → SwapOrder → Option Figure → Action Db Tally
  unfolding Orders.complete_from_external credit
  finish_order now id order figure = do
    amount ← amount_to_credit figure order.to_amount
    rows ← Orders.complete_from_external column id amount none
    credit_order now order.from_agent_id amount (rows == 1)

  abbrev pub on_status : ℕ → ℕ → SwapOrder → Option Figure → ExchangeStatus → Action Db Tally
  on_status now id order figure ExchangeStatus.finished = finish_order now id order figure
  on_status now id order figure ExchangeStatus.failed = expire_order id
  on_status now id order figure ExchangeStatus.expired = expire_order id
  on_status now id order figure _ = pure one_skipped

  abbrev pub act_on : ℕ → ℕ → SwapOrder → Answer Report → Action Db Tally
  act_on now id order (Answer.answer r) = on_status now id order r.to_amount r.status
  act_on now id order Answer.provider_error = raise runtime_error
  act_on now id order Answer.value_error = raise value_error

  -- A provider that is not one of the two is an error.
  unfoldable pub poll_provider : Exchanges → ℕ → ℕ → SwapOrder → String → String → Db → Tally × Db
  unfolding changenow_order_status sideshift_order_status finish_order expire_order
  poll_provider world now id order provider external db =
      if str_eq provider "changenow"
      then counted_error (act_on now id order (changenow_order_status world external) db)
      else if str_eq provider "sideshift"
      then counted_error (act_on now id order (sideshift_order_status world external) db)
      else (one_error, db)

  abbrev pub poll_named :
      Exchanges → ℕ → ℕ → SwapOrder → Option String → Option String → Db → Tally × Db
  poll_named world now id order (some provider) (some external) db =
      if is_empty provider || is_empty external
      then (one_skipped, db)
      else poll_provider world now id order provider external db
  poll_named world now id order none _ db = (one_skipped, db)
  poll_named world now id order (some _) none db = (one_skipped, db)

  abbrev pub poll_found : Exchanges → ℕ → ℕ → Option SwapOrder → Db → Tally × Db
  poll_found world now id none db = (one_skipped, db)
  poll_found world now id (some order) db =
      poll_named world now id order order.provider_name order.external_order_id db

  -- One iteration.
  unfoldable pub poll_one : Exchanges → ℕ → ℕ → Db → Tally × Db
  unfolding poll_provider
  poll_one world now id db = poll_found world now id (find id db.swaps) db

  unfoldable pub poll_each : Exchanges → ℕ → List ℕ → Db → Tally × Db
  unfolding poll_one
  poll_each world now [] db = (nothing_yet, db)
  poll_each world now (id ∷ ids) db =
      let (t, db') = poll_one world now id db in
      let (rest, db'') = poll_each world now ids db' in (add_tally t rest, db'')

  unfoldable pub poll_external_orders : Exchanges → ℕ → Action Db Tally
  unfolding poll_each
  poll_external_orders world now db =
      let (t, db') = poll_each world now (Orders.get_pending_external db.swaps) db in (ok t, db')
