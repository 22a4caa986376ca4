-- ===== src/Swaps/Service.antt =====
-- The methods of `SwapService` (sthrip/services/swap_service.py) but for its polling. The rate, the
-- secret that is drawn, SHA-256 and the exchanges are parameters.
use text.Mathlib.Text.{◌==◌ as str_eq}
use Prim.Native.Char.{code}
use sthrip.Base.{
  ℕ, ◌+◌, String, Option, none, some, List, [], ◌∷◌, Bool, true, not, ◌==◌, ◌&&◌, ◌||◌, leb, length,
  if◌then◌else◌,
}
use sthrip.Base.Int.{ℤ}
use sthrip.Base.Table.{find}
use sthrip.Base.Action.{
  Action, pure, raise, or_raise, raise_if, ◌>>=◌, ◌>>◌, value_error, lookup_error, permission_error,
  runtime_error,
}
use sthrip.Models.Parties.{xmr}
use sthrip.Models.Swaps.{SwapOrder, Rate}
use sthrip.Models.Database.{Db}
use sthrip.Ledger.Rows.{credit}
use sthrip.Channel.Service.{is_empty}
use sthrip.Swaps.Rates.{Quote, get_quote}
use sthrip.Swaps.Providers.{Exchanges, OrderRequest, Placed, Answer, create_order_with_fallback}
use sthrip.Swaps.Orders
use sthrip.Swaps.Orders.{Terms, get_by_id}

-- What a caller asks for.
pub record Wanted : Type 0 where
  pub from_agent_id : ℕ
  pub from_currency : ℕ
  pub from_amount : ℤ
  pub to_currency : ℕ

-- What `create_swap` takes from elsewhere: the exchanges, XMR_HUB_ADDRESS, the rates, and the secret
-- that it draws, with its hash.
pub record Sources : Type 0 where
  pub exchanges : Exchanges
  pub hub_address : String
  pub get_rate : ℕ → ℕ → Rate
  pub htlc_secret : String
  pub htlc_hash : String

abbrev pub codes : String → List ℕ
codes String.[] = []
codes (String.◌∷◌ c s) = code c ∷ codes s

-- `$` also matches before a last line feed.
abbrev pub without_line_feed : List ℕ → List ℕ
without_line_feed [] = []
without_line_feed (c ∷ []) = if c == 10 then [] else c ∷ []
without_line_feed (c ∷ d ∷ ds) = c ∷ without_line_feed (d ∷ ds)

abbrev pub is_id_character : ℕ → Bool
is_id_character c =
    (leb b'a' c && leb c b'z')
    || (leb b'A' c && leb c b'Z')
    || (leb b'0' c && leb c b'9')
    || c == b'_'
    || c == b'-'

abbrev pub all_id_characters : List ℕ → Bool
all_id_characters [] = true
all_id_characters (c ∷ cs) = is_id_character c && all_id_characters cs

-- `_EXTERNAL_ORDER_ID_RE.match`
unfoldable pub is_external_id : String → Bool
is_external_id s =
    let cs = without_line_feed (codes s) in
    all_id_characters cs && leb 1 (length cs) && leb (length cs) 128

-- An exchange's order, or none if no hub address is set or both exchanges fail.
unfoldable pub place_order : Sources → OrderRequest → Action Db (Option Placed)
unfolding create_order_with_fallback
place_order src r =
    if is_empty src.hub_address
    then pure none
    else elim (create_order_with_fallback src.exchanges r) [
      | Answer.answer p ↦ pure (some p)
      | Answer.provider_error ↦ pure none
      | Answer.value_error ↦ raise value_error
    ]

abbrev pub stored_secret : String → Option Placed → Option String
stored_secret secret none = some secret
stored_secret secret (some _) = none

abbrev pub terms_of : ℕ → Sources → Wanted → Quote → Option Placed → Terms
terms_of now src w quote placed = record {
  from_agent_id = w.from_agent_id;
  from_currency = w.from_currency;
  from_amount = w.from_amount;
  to_currency = w.to_currency;
  to_amount = quote.to_amount;
  exchange_rate = quote.rate;
  fee_amount = quote.fee;
  htlc_hash = src.htlc_hash;
  lock_expiry = now + 1800;
  htlc_secret = stored_secret src.htlc_secret placed;
}

abbrev pub refetch : ℕ → Action Db SwapOrder
refetch id db = or_raise (find id db.swaps) runtime_error db

-- What is written of the exchange's order.
abbrev pub place_external : ℕ → Option Placed → Action Db ℕ
place_external id none = pure 0
place_external id (some p) = do
  raise_if (not (is_external_id p.external_order_id)) value_error
  Orders.set_external_order id p.external_order_id p.deposit_address p.provider

abbrev pub order_request : Sources → Wanted → OrderRequest
order_request src w = record {
  from_currency = w.from_currency;
  from_amount = w.from_amount;
  to_currency = w.to_currency;
  to_address = src.hub_address;
}

-- The order's row, with the exchange's order if there is one.
unfoldable pub record_order : ℕ → ℕ → Terms → Option Placed → Action Db SwapOrder
unfolding is_external_id Orders.create Orders.set_external_order
record_order now id r placed = do Orders.create now id r; place_external id placed; refetch id

unfoldable pub create_swap : Sources → ℕ → ℕ → Wanted → Action Db SwapOrder
unfolding get_quote place_order record_order
create_swap src now id w = do
  quote ← get_quote src.get_rate w.from_currency w.from_amount w.to_currency
  placed ← place_order src (order_request src w)
  record_order now id (terms_of now src w quote placed) placed

-- `digest` of a text is the SHA-256 of the bytes that it is in hexadecimal, if it is so.
unfoldable pub claim_swap : (String → Option String) → ℕ → ℕ → ℕ → String → Action Db SwapOrder
unfolding Orders.complete credit
claim_swap digest now id agent secret = do
  order ← or_raise (← get_by_id id) lookup_error
  raise_if (not (order.from_agent_id == agent)) permission_error
  computed_hash ← or_raise (digest secret) value_error
  raise_if (not (str_eq computed_hash order.htlc_hash)) value_error
  rows ← Orders.complete id secret none
  raise_if (rows == 0) value_error
  credit now agent order.to_amount xmr
  refetch id

unfoldable pub get_swap : ℕ → ℕ → Action Db SwapOrder
get_swap id agent = do
  order ← or_raise (← get_by_id id) lookup_error
  raise_if (not (order.from_agent_id == agent)) permission_error
  pure order

unfoldable pub expire_stale : ℕ → Action Db ℕ
unfolding Orders.bulk_expire_stale
expire_stale now = Orders.bulk_expire_stale now
