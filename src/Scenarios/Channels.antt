-- ===== src/Scenarios/Channels.antt =====
-- Runs of the methods on payment channels.
use sthrip.Base.{◌≡◌, ◌⊎◌, none, some, [], ◌∷◌, refl, arith, inr}
use sthrip.Base.Int.{pos, ◌+ℤ◌}
use sthrip.Base.Table.{find}
use sthrip.Base.Action.{ok, Raised, transact}
use sthrip.Models.Channel.{PaymentChannel, ChannelStatus}
use sthrip.Models.Database.{Db}
use sthrip.Ledger.Held.{counted}
use sthrip.Accounting.{assets}
use sthrip.Channel.Repo.{Signed}
use sthrip.Channel.Service.{open_channel, settle, dispute, close}
use sthrip.Channel.Commit.{channel_calls_never_commit}
use sthrip.Channel.Closing.{Closable, closed_result, closed_state, close_outcome, close-assets}
use sthrip.Scenarios.World.{world}

abbrev signed : Signed
signed = record { nonce = pos 1; balance_a = pos 60; balance_b = pos 40; sig_a = "a"; sig_b = "b" }

abbrev ready : PaymentChannel
ready = record {
  channel_hash = "hash";
  agent_a_id = 1;
  agent_b_id = 2;
  capacity = pos 100;
  status = ChannelStatus.closing;
  deposit_a = pos 70;
  deposit_b = pos 30;
  balance_a = pos 60;
  balance_b = pos 50;
  nonce = pos 0;
  last_update_sig_a = none;
  last_update_sig_b = none;
  settlement_period = 24;
  settled_at = none;
  closes_at = some 40;
  closed_at = none;
  created_at = 0;
}

abbrev with_channel : Db
with_channel = record world { channels = (30, ready) ∷ [] }

finds_ready : find 30 with_channel.channels ≡ some ready
unfolding find
finds_ready = refl

channel_calls_never_commit_example :
    ((transact (open_channel 50 30 "hash" 1 2 (pos 60) (pos 40) 24) world).1 ≡ world)
    × ((transact (settle 50 30 1 signed) world).1 ≡ world)
    × ((transact (dispute 30 1 signed) world).1 ≡ world)
channel_calls_never_commit_example =
    channel_calls_never_commit 50 30 "hash" 1 2 (pos 60) (pos 40) 24 1 signed world

close_outcome_example :
    (Closable 50 1 ready
      × (close 50 30 1 with_channel
          ≡ (ok (closed_result 50 ready), closed_state 50 30 1 ready with_channel)))
    ⊎ ((¬ Closable 50 1 ready)
        × Raised (close 50 30 1 with_channel).0
        × ((close 50 30 1 with_channel).1 ≡ with_channel))
close_outcome_example = close_outcome 50 30 1 ready with_channel finds_ready

-- The balances are 110, the deposits 100.
close-assets_example :
    assets 0 (close 50 30 1 with_channel).1 +ℤ counted 0 0 (pos 100)
    ≡ assets 0 with_channel +ℤ counted 0 0 (pos 110)
unfolding ◌+ℤ◌
close-assets_example =
    close-assets 0 50 30 1 ready with_channel finds_ready (refl, inr (refl, refl)) (omega arith)
      (omega arith)
