-- ===== src/Scenarios/Payments.antt =====
-- Runs of the conditional and group payments.
use sthrip.Base.{ℕ, ◌≡◌, none, some, [], ◌∷◌, true, false, refl, length}
use sthrip.Base.Int.{ℤ, pos, ◌+ℤ◌}
use sthrip.Base.Table.{find, set, sum}
use sthrip.Base.Keys.{keys_where}
use sthrip.Base.Action.{ok, ◌>>◌}
use sthrip.Models.Payments.{
  ConditionalPayment, ConditionalPaymentState, ConditionType, ConditionConfig, MultiPartyPayment,
  MultiPartyPaymentState, MultiPartyRecipient, PaymentStream, StreamStatus, ParsedId,
}
use sthrip.Models.Database.{Db}
use sthrip.Accounting.{assets}
use sthrip.Conditional.Repo as Conditionals
use sthrip.Conditional.Service.{evaluate_conditions}
use sthrip.MultiParty.Repo.{Request, has_expired, get_pending_expired}
use sthrip.MultiParty.Service.{accept, reject, expire_stale}
use sthrip.MultiParty.Calls.{Keeps, answer-Keeps}
use sthrip.MultiParty.Expiry.{refunded_twice, expire_group_payments-assets}
use sthrip.Stream.Service.{pause_stream, resume_stream, stop_stream}
use sthrip.Stream.Runs.{stopped_after, with_stream, paused_time_counts}
use sthrip.Scenarios.World.{world}
use sthrip.Conditional.Evaluation.{evaluate_conditions-assets}

abbrev config : ConditionConfig
config = record {
  fields = "release_at" ∷ [];
  release_at = some 80;
  escrow_id = ParsedId.malformed;
  required_status = none;
  agent_id = ParsedId.malformed;
  threshold = none;
}

abbrev promised : ConditionalPayment
promised = record {
  payment_hash = "hash";
  from_agent_id = 1;
  to_agent_id = 2;
  amount = pos 700;
  currency = 0;
  memo = none;
  condition_type = ConditionType.time_lock;
  condition_config = config;
  locked_amount = pos 700;
  state = ConditionalPaymentState.pending;
  expires_at = 90;
  created_at = 0;
  triggered_at = none;
  executed_at = none;
}

abbrev promise : Conditionals.Terms
promise = record {
  from_agent_id = 1;
  to_agent_id = 2;
  amount = pos 700;
  currency = 0;
  condition_type = ConditionType.time_lock;
  condition_config = config;
  expires_hours = pos 24;
  memo = none;
}

abbrev waiting : ℤ → MultiPartyRecipient
waiting x = record { amount = x; accepted = none; accepted_at = none }

-- One of two recipients has rejected.
abbrev shared : MultiPartyPayment
shared = record {
  payment_hash = "hash";
  sender_id = 1;
  total_amount = pos 500;
  currency = 0;
  require_all_accept = false;
  state = MultiPartyPaymentState.pending;
  accept_deadline = 90;
  created_at = 0;
  completed_at = none;
  recipients =
      (2, waiting (pos 300))
      ∷ (3, record { amount = pos 200; accepted = some false; accepted_at = some 50 })
      ∷ [];
}

abbrev request : Request
request = record {
  sender_id = 1;
  shares = (2, pos 300) ∷ [];
  currency = 0;
  require_all_accept = true;
  accept_hours = 2;
}

abbrev paying : Db
paying = record world { conditionals = (21, promised) ∷ []; group_payments = (31, shared) ∷ [] }

finds_promised : find 21 paying.conditionals ≡ some promised
unfolding find
finds_promised = refl

evaluate_conditions-assets_example : assets 0 (evaluate_conditions 85 paying).1 ≡ assets 0 paying
evaluate_conditions-assets_example = evaluate_conditions-assets 0 85 paying

-- The time lock of the payment has passed, so the task executes it.
evaluates_one : (evaluate_conditions 85 paying).0 ≡ ok 1
unfolding evaluate_conditions find keys_where set
evaluates_one = refl

answer-Keeps_example :
    Keeps 0 paying (accept 60 2 31 paying).1 × Keeps 0 paying (reject 60 2 31 paying).1
unfolding sum ◌+ℤ◌
answer-Keeps_example = answer-Keeps 0 60 2 31 paying (refl, tt)

expire_group_payments-assets_example :
    ((expire_stale 95 paying).0 ≡ ok (length (get_pending_expired 95 paying.group_payments)))
    × (assets 0 (expire_stale 95 paying).1
        ≡ assets 0 paying +ℤ sum (refunded_twice 0 95) paying.group_payments)
    × ((id : ℕ) (p : MultiPartyPayment)
        → find id (expire_stale 95 paying).1.group_payments ≡ some p
        → has_expired 95 p ≡ false)
unfolding find
expire_group_payments-assets_example = expire_group_payments-assets 0 95 paying (refl, tt)

-- The 200 that were given back at the rejection are given back again.
refunds_twice : sum (refunded_twice 0 95) paying.group_payments ≡ pos 200
unfolding sum refunded_twice sthrip.Ledger.Held.counted ◌+ℤ◌
refunds_twice = refl

abbrev streaming : PaymentStream
streaming = record {
  channel_id = 61;
  from_agent_id = 1;
  to_agent_id = 2;
  rate_per_second = pos 5;
  started_at = some 10;
  paused_at = none;
  stopped_at = none;
  total_streamed = pos 0;
  state = StreamStatus.active;
}

abbrev streamed : Db
streamed = record world { streams = (71, streaming) ∷ [] }

finds_streaming : find 71 streamed.streams ≡ some streaming
unfolding find
finds_streaming = refl

-- Paused at 20, resumed, and stopped at 100: 90 seconds are paid for.
paused_time_counts_example :
    (pause_stream 20 71 1 >> resume_stream 71 1 >> stop_stream 100 71 1) streamed ≡ (
      ok (stopped_after 10 100 streaming),
      with_stream 71 (stopped_after 10 100 streaming) streamed,
    )
paused_time_counts_example =
    paused_time_counts 20 100 71 1 10 streaming streamed finds_streaming refl refl refl
