-- ===== src/Scenarios/Orders.antt =====
-- Runs of the service for orders with exchanges.
use sthrip.Base.{◌/◌, ◌*◌, ℕ, ◌≡◌, some, none, List, [], ◌∷◌, true, refl}
use sthrip.Base.Int.{ℤ, pos, negsuc, ◌+ℤ◌}
use sthrip.Base.Table.{find, set}
use sthrip.Base.Keys.{keys_where}
use sthrip.Base.Action.{Raised, transact}
use sthrip.Models.Parties.{xmr}
use sthrip.Models.Swaps.{SwapOrder}
use sthrip.Models.Database.{Db}
use sthrip.Ledger.Balance.{available_of}
use sthrip.Ledger.Rows.{find_row, credit}
use sthrip.Swaps.Rates.{btc, usd}
use sthrip.Swaps.Providers.{Exchanges, Figure, Reply}
use sthrip.Swaps.Orders.{new_order, delivered_order}
use sthrip.Swaps.Service.{Sources, Wanted, create_swap, claim_swap, expire_stale}
use sthrip.Swaps.Polling.{poll_external_orders}
use sthrip.Swaps.Trace.{Call, perform_calls}
use sthrip.Swaps.Books.{Payment, Explains, perform_calls-Explains}
use sthrip.Swaps.Ends.{NoneLocked, perform_calls-Ended, no_order_is_claimed}
use sthrip.Scenarios.World.{world}

-- ChangeNOW takes every order and reports it finished; SideShift is down.
abbrev exchanges : Exchanges
exchanges = record {
  configured = true;
  changenow_create = λ r. Reply.replied 200 (
      some (record {
        id = some "order-1";
        transaction_id = none;
        address = some "deposit";
        other_address = none;
      }));
  changenow_status = λ id. Reply.replied 200 (
      some (record {
        status = "finished";
        amount = some (Figure.amount (pos 14800000012340000));
        other_amount = none;
      }));
  sideshift_create = λ r. Reply.unreachable;
  sideshift_status = λ id. Reply.unreachable;
}

abbrev sources : Sources
sources = record {
  exchanges = exchanges;
  hub_address = "hub";
  get_rate = λ a b. record { digits = 1500; places = 1 };
  htlc_secret = "secret";
  htlc_hash = "hash";
}

-- A column of eight places, as it cuts an amount.
abbrev eight_places : ℤ → ℤ
eight_places (pos n) = pos (n / 100000000 * 100000000)
eight_places (negsuc n) = negsuc n

-- A hundredth of a bitcoin, for XMR and for dollars.
abbrev wanted : ℕ → Wanted
wanted to = record {
  from_agent_id = 1;
  from_currency = btc;
  from_amount = pos 100000000000000;
  to_currency = to;
}

-- The last pair is not supported, and no claim has a chance.
abbrev course : List Call
course =
    Call.create sources 60 71 (wanted xmr)
    ∷ Call.claim (λ s. some "hash") 65 71 1 "secret"
    ∷ Call.poll exchanges 70
    ∷ Call.poll exchanges 80
    ∷ Call.create sources 90 72 (wanted usd)
    ∷ Call.expire 10000
    ∷ []

perform_calls-Explains_example :
    (ps : List Payment) × Explains eight_places world (perform_calls eight_places course world) ps
perform_calls-Explains_example = perform_calls-Explains eight_places course world

-- The exchange's amount has been credited, once, with the digits that the order does not keep.
is_credited : available_of 1 xmr (perform_calls eight_places course world) ≡ pos 14800000012345000
unfolding perform_calls available_of find find_row set keys_where transact create_swap claim_swap
    credit poll_external_orders expire_stale sthrip.Ledger.Rows.amend sthrip.Ledger.Rows.write_row
    ◌+ℤ◌
is_credited = refl

abbrev finished : SwapOrder
finished = delivered_order (pos 14800000000000000) none (
    new_order 60 (record {
      from_agent_id = 1;
      from_currency = btc;
      from_amount = pos 100000000000000;
      to_currency = xmr;
      to_amount = pos 14850000000000000;
      exchange_rate = record { digits = 1500; places = 1 };
      fee_amount = pos 1000000000000;
      htlc_hash = "hash";
      lock_expiry = 1860;
      htlc_secret = none;
    }))

abbrev settled : Db
settled = record world { swaps = (71, finished) ∷ [] }

perform_calls-Ended_example :
    find 71 (perform_calls eight_places course settled).swaps ≡ some finished
perform_calls-Ended_example =
    perform_calls-Ended eight_places course 71 finished settled (unfold find in refl) refl

no_orders : NoneLocked world
unfolding find
no_orders k o e = cc

no_order_is_claimed_example :
    NoneLocked (perform_calls eight_places course world)
    × Raised
        (claim_swap (λ s. some "hash") 99 71 1 "secret" (perform_calls eight_places course world)).0
    × ((transact
          (claim_swap (λ s. some "hash") 99 71 1 "secret")
          (perform_calls eight_places course world)).1
        ≡ perform_calls eight_places course world)
no_order_is_claimed_example =
    no_order_is_claimed eight_places course (λ s. some "hash") 99 71 1 "secret" world no_orders
