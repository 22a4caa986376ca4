-- ===== src/Swaps/Trace.antt =====
-- Runs of calls of the service, as runs of events.
use sthrip.Base.{ℕ, String, Option, List, [], ◌∷◌, inl, inr, refl}
use sthrip.Base.Int.{ℤ}
use sthrip.Base.Action.{transact}
use sthrip.Models.Database.{Db}
use sthrip.Swaps.Providers.{Exchanges}
use sthrip.Swaps.Orders
use sthrip.Swaps.Service.{Sources, Wanted, create_swap, claim_swap, expire_stale}
use sthrip.Swaps.Polling.{poll_one, poll_each, poll_external_orders}
use sthrip.Swaps.Events.{Event, AtMostOne, claim_swap-Leaves, create_swap-Leaves}
use sthrip.Swaps.Polls.{poll_one-Round}

-- One event after the other.
pub data Trace (column : ℤ → ℤ) (db : Db) : Db → Type 0 where
  done : Trace column db db
  then : (db' db'' : Db) → Trace column db db' → Event column db' db'' → Trace column db db''

go_on :
    (column : ℤ → ℤ) (db db' db'' : Db)
    → Trace column db db'
    → AtMostOne column db' db''
    → Trace column db db''
go_on column db db' db'' t (inl same) = rw same t
go_on column db db' db'' t (inr event) = Trace.then db' db'' t event

poll_each-Trace :
    (column : ℤ → ℤ) (world : Exchanges) (now : ℕ) (ids : List ℕ) (db db' : Db)
    → Trace column db db'
    → Trace column db (poll_each column world now ids db').1
unfolding poll_each
poll_each-Trace column world now [] db db' t = t
poll_each-Trace column world now (id ∷ ids) db db' t =
    poll_each-Trace column world now ids db (poll_one column world now id db').1 (
      go_on column db db' (poll_one column world now id db').1 t
        (poll_one-Round column world now id db').1)

-- A call of the service.
pub data Call : Type 0 where
  create : Sources → ℕ → ℕ → Wanted → Call
  claim : (String → Option String) → ℕ → ℕ → ℕ → String → Call
  poll : Exchanges → ℕ → Call
  expire : ℕ → Call

unfoldable pub perform_call : (ℤ → ℤ) → Call → Db → Db
perform_call column (Call.create src now id w) db = (transact (create_swap src now id w) db).1
perform_call column (Call.claim digest now id agent secret) db =
    (transact (claim_swap digest now id agent secret) db).1
perform_call column (Call.poll world now) db =
    (transact (poll_external_orders column world now) db).1
perform_call column (Call.expire now) db = (transact (expire_stale now) db).1

unfoldable pub perform_calls : (ℤ → ℤ) → List Call → Db → Db
unfolding perform_call
perform_calls column [] db = db
perform_calls column (c ∷ cs) db = perform_calls column cs (perform_call column c db)

call-Trace :
    (column : ℤ → ℤ) (c : Call) (db db' : Db)
    → Trace column db db'
    → Trace column db (perform_call column c db')
unfolding perform_call
call-Trace column (Call.create src now id w) db db' t =
    go_on column db db' (transact (create_swap src now id w) db').1 t
      (create_swap-Leaves column src now id w db')
call-Trace column (Call.claim digest now id agent secret) db db' t =
    go_on column db db' (transact (claim_swap digest now id agent secret) db').1 t
      (claim_swap-Leaves column digest now id agent secret db')
call-Trace column (Call.poll world now) db db' t =
    unfold transact poll_external_orders in
    (poll_each-Trace column world now (Orders.get_pending_external db'.swaps) db db' t)
call-Trace column (Call.expire now) db db' t =
    unfold transact expire_stale in
    (Trace.then db' (record db' { swaps = (Orders.expire_rows now db'.swaps).1 }) t
      (Event.sweep now refl))

-- Any calls of the service, refused ones and rounds of polling and of expiry included, are a run of
-- events: new orders, ends of open ones, and payments of an order by its agent's balance.
pub perform_calls-Trace :
    (column : ℤ → ℤ) (cs : List Call) (db db' : Db)
    → Trace column db db'
    → Trace column db (perform_calls column cs db')
unfolding perform_calls
perform_calls-Trace column [] db db' t = t
perform_calls-Trace column (c ∷ cs) db db' t =
    perform_calls-Trace column cs db (perform_call column c db') (call-Trace column c db db' t)
