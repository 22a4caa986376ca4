-- ===== src/Swaps/Orders.antt =====
-- `SwapRepository` (sthrip/db/swap_repo.py).
use sthrip.Base.{
  ℕ, suc, String, Option, none, some, List, [], ◌∷◌, Bool, ◌&&◌, ◌||◌, leb, if◌then◌else◌, is_some,
}
use sthrip.Base.Int.{ℤ}
use sthrip.Base.Table.{Table, find, update_where}
use sthrip.Base.Keys.{keys_where}
use sthrip.Base.Action.{Action, ok, err, gets, integrity_error}
use sthrip.Models.Swaps.{SwapOrder, SwapStatus, Rate, is_created, is_locked}
use sthrip.Models.Database.{Db}

-- The arguments of `create`.
pub record Terms : Type 0 where
  pub from_agent_id : ℕ
  pub from_currency : ℕ
  pub from_amount : ℤ
  pub to_currency : ℕ
  pub to_amount : ℤ
  pub exchange_rate : Rate
  pub fee_amount : ℤ
  pub htlc_hash : String
  pub lock_expiry : ℕ
  pub htlc_secret : Option String

abbrev pub new_order : ℕ → Terms → SwapOrder
new_order now r = record {
  from_agent_id = r.from_agent_id;
  from_currency = r.from_currency;
  from_amount = r.from_amount;
  to_currency = r.to_currency;
  to_amount = r.to_amount;
  exchange_rate = r.exchange_rate;
  fee_amount = r.fee_amount;
  state = SwapStatus.created;
  htlc_hash = r.htlc_hash;
  htlc_secret = r.htlc_secret;
  btc_tx_hash = none;
  xmr_tx_hash = none;
  lock_expiry = r.lock_expiry;
  created_at = now;
  external_order_id = none;
  deposit_address = none;
  provider_name = none;
}

unfoldable pub create : ℕ → ℕ → Terms → Action Db SwapOrder
create now id r db =
    let order = new_order now r in
    if is_some (find id db.swaps)
    then (err integrity_error, db)
    else (ok order, record db { swaps = (id, order) ∷ db.swaps })

abbrev pub get_by_id : ℕ → Action Db (Option SwapOrder)
get_by_id id = gets (λ db. find id db.swaps)

abbrev pub update_order : ℕ → (SwapOrder → Bool) → (SwapOrder → SwapOrder) → Action Db ℕ
update_order id p f db =
    let (rows, swaps) = update_where id p f db.swaps in (ok rows, record db { swaps = swaps })

abbrev pub locked_order : String → SwapOrder → SwapOrder
locked_order hash o = record o { state = SwapStatus.locked; btc_tx_hash = some hash }

unfoldable pub lock : ℕ → String → Action Db ℕ
lock id hash = update_order id (λ o. is_created o.state) (locked_order hash)

-- A column that is written only if there is a value for it.
abbrev pub or_keep : Option String → Option String → Option String
or_keep none old = old
or_keep (some new) old = some new

abbrev pub claimed_order : String → Option String → SwapOrder → SwapOrder
claimed_order secret hash o = record o {
  state = SwapStatus.completed;
  htlc_secret = some secret;
  xmr_tx_hash = or_keep hash o.xmr_tx_hash;
}

unfoldable pub complete : ℕ → String → Option String → Action Db ℕ
complete id secret hash = update_order id (λ o. is_locked o.state) (claimed_order secret hash)

abbrev pub refunded_order : SwapOrder → SwapOrder
refunded_order o = record o { state = SwapStatus.refunded }

unfoldable pub refund : ℕ → Action Db ℕ
refund id = update_order id (λ o. is_locked o.state) refunded_order

abbrev pub expired_order : SwapOrder → SwapOrder
expired_order o = record o { state = SwapStatus.expired }

abbrev pub is_open : SwapStatus → Bool
is_open s = is_created s || is_locked s

unfoldable pub expire : ℕ → Action Db ℕ
expire id = update_order id (λ o. is_open o.state) expired_order

abbrev pub is_stale : ℕ → SwapOrder → Bool
is_stale now o = is_open o.state && leb o.lock_expiry now

-- The keys of the orders that the method returns.
abbrev pub get_expired : ℕ → Table SwapOrder → List ℕ
get_expired now = keys_where (is_stale now)

-- The UPDATE of every stale row: how many there were, and the table.
unfoldable pub expire_rows : ℕ → Table SwapOrder → ℕ × Table SwapOrder
expire_rows now [] = (0, [])
expire_rows now ((id, o) ∷ t) =
    let (n, rest) = expire_rows now t in
    if is_stale now o then (suc n, (id, expired_order o) ∷ rest) else (n, (id, o) ∷ rest)

unfoldable pub bulk_expire_stale : ℕ → Action Db ℕ
unfolding expire_rows
bulk_expire_stale now db =
    let (n, swaps) = expire_rows now db.swaps in (ok n, record db { swaps = swaps })

abbrev pub delivered_order : ℤ → Option String → SwapOrder → SwapOrder
delivered_order amount hash o = record o {
  state = SwapStatus.completed;
  to_amount = amount;
  xmr_tx_hash = or_keep hash o.xmr_tx_hash;
}

-- `column` is what the column `to_amount`, of eight places, keeps of an amount.
unfoldable pub complete_from_external : (ℤ → ℤ) → ℕ → ℤ → Option String → Action Db ℕ
complete_from_external column id amount hash =
    update_order id (λ o. is_created o.state) (delivered_order (column amount) hash)

abbrev pub placed_order : String → String → String → SwapOrder → SwapOrder
placed_order external address provider o = record o {
  external_order_id = some external;
  deposit_address = some address;
  provider_name = some provider;
}

unfoldable pub set_external_order : ℕ → String → String → String → Action Db ℕ
set_external_order id external address provider =
    update_order id (λ o. is_created o.state) (placed_order external address provider)

abbrev pub is_pending_external : SwapOrder → Bool
is_pending_external o = is_created o.state && is_some o.external_order_id

-- The keys of the orders that the method returns.
abbrev pub get_pending_external : Table SwapOrder → List ℕ
get_pending_external = keys_where is_pending_external
