-- ===== src/Escrow/Repo.antt =====
-- `EscrowRepository` (sthrip/db/escrow_repo.py). A transition is an UPDATE whose WHERE clause
-- holds the state that it starts from; its value is the number of rows that it changed.
use sthrip.Base.{
  ℕ, ◌+◌, ◌*◌, String, Option, none, some, List, [], ◌∷◌, Bool, false, ◌||◌, ◌&&◌, leb,
  if◌then◌else◌, is_some,
}
use sthrip.Base.Int.{ℤ, pos}
use sthrip.Base.Table.{Table, find, update_where}
use sthrip.Base.Action.{Action, ok, err, integrity_error, runtime_error, gets, or_raise}
use sthrip.Base.Keys.{keys_where}
use sthrip.Models.Parties.{xmr}
use sthrip.Models.Escrow.{EscrowStatus, EscrowDeal, is_created, is_accepted, is_delivered}
use sthrip.Models.Database.{Db}

-- `timedelta(hours=h)`, in seconds.
abbrev pub hours : ℕ → ℕ
hours h = 3600 * h

-- The arguments of `create`.
pub record Terms : Type 0 where
  pub buyer_id : ℕ
  pub seller_id : ℕ
  pub amount : ℤ
  pub description : String
  pub accept_timeout_hours : ℕ
  pub delivery_timeout_hours : ℕ
  pub review_timeout_hours : ℕ
  pub fee_percent : ℕ

abbrev pub new_deal : ℕ → String → Terms → EscrowDeal
new_deal now hash t = record {
  deal_hash = hash;
  buyer_id = t.buyer_id;
  seller_id = t.seller_id;
  amount = t.amount;
  token = some xmr;
  description = t.description;
  fee_percent = t.fee_percent;
  fee_amount = pos 0;
  accept_timeout_hours = t.accept_timeout_hours;
  delivery_timeout_hours = t.delivery_timeout_hours;
  review_timeout_hours = t.review_timeout_hours;
  accept_deadline = some (now + hours t.accept_timeout_hours);
  delivery_deadline = none;
  review_deadline = none;
  release_amount = none;
  is_multi_milestone = false;
  milestone_count = 1;
  current_milestone = 1;
  total_released = pos 0;
  total_fees = pos 0;
  status = EscrowStatus.created;
  created_at = now;
  accepted_at = none;
  delivered_at = none;
  completed_at = none;
  cancelled_at = none;
  expires_at = some (now + hours t.accept_timeout_hours);
  milestones = [];
}

-- `id` is the row's new UUID, and `hash` the deal's hash; the database refuses a primary key that it
-- has.
unfoldable pub create : ℕ → ℕ → String → Terms → Action Db EscrowDeal
create now id hash terms db =
    let deal = new_deal now hash terms in
    if is_some (find id db.deals)
    then (err integrity_error, db)
    else (ok deal, record db { deals = (id, deal) ∷ db.deals })

abbrev pub get_by_id : ℕ → Action Db (Option EscrowDeal)
get_by_id id = gets (λ db. find id db.deals)

-- The row lock keeps other sessions out; in one session it reads the row.
abbrev pub get_by_id_for_update : ℕ → Action Db (Option EscrowDeal)
get_by_id_for_update id = get_by_id id

abbrev pub update_deal : ℕ → (EscrowDeal → Bool) → (EscrowDeal → EscrowDeal) → Action Db ℕ
update_deal id p f db =
    let (rows, deals) = update_where id p f db.deals in (ok rows, record db { deals = deals })

abbrev pub accepted_deal : ℕ → ℕ → EscrowDeal → EscrowDeal
accepted_deal now h d = record d {
  status = EscrowStatus.accepted;
  accepted_at = some now;
  delivery_deadline = some (now + hours h);
  expires_at = some (now + hours h);
}

unfoldable pub accept : ℕ → ℕ → ℕ → Action Db ℕ
accept now id h = update_deal id (λ d. is_created d.status) (accepted_deal now h)

abbrev pub delivered_deal : ℕ → ℕ → EscrowDeal → EscrowDeal
delivered_deal now h d = record d {
  status = EscrowStatus.delivered;
  delivered_at = some now;
  review_deadline = some (now + hours h);
  expires_at = some (now + hours h);
}

unfoldable pub deliver : ℕ → ℕ → ℕ → Action Db ℕ
deliver now id h = update_deal id (λ d. is_accepted d.status) (delivered_deal now h)

abbrev pub released_deal : ℕ → ℤ → ℤ → EscrowDeal → EscrowDeal
released_deal now release fee d = record d {
  status = EscrowStatus.completed;
  release_amount = some release;
  fee_amount = fee;
  completed_at = some now;
}

unfoldable pub release : ℕ → ℕ → ℤ → ℤ → Action Db ℕ
release now id amount fee =
    update_deal id (λ d. is_delivered d.status) (released_deal now amount fee)

abbrev pub cancelled_deal : ℕ → EscrowDeal → EscrowDeal
cancelled_deal now d = record d { status = EscrowStatus.cancelled; cancelled_at = some now }

unfoldable pub cancel : ℕ → ℕ → Action Db ℕ
cancel now id = update_deal id (λ d. is_created d.status) (cancelled_deal now)

abbrev pub expired_deal : ℕ → EscrowDeal → EscrowDeal
expired_deal now d = record d { status = EscrowStatus.expired; completed_at = some now }

unfoldable pub expire : ℕ → ℕ → Action Db ℕ
expire now id = update_deal id (λ d. is_created d.status || is_accepted d.status) (expired_deal now)

-- `expires_at <= now`, false for NULL.
abbrev pub is_due : ℕ → Option ℕ → Bool
is_due now none = false
is_due now (some at) = leb at now

abbrev pub awaits_expiry : ℕ → EscrowDeal → Bool
awaits_expiry now d =
    (is_created d.status || is_accepted d.status || is_delivered d.status)
    && is_due now d.expires_at

-- The keys of the rows that the query of `get_pending_expiry` finds.
abbrev pub get_pending_expiry : ℕ → Table EscrowDeal → List ℕ
get_pending_expiry now = keys_where (awaits_expiry now)

-- `_refetch_as_dict` of the service: the row after a change.
abbrev pub refetch : ℕ → Action Db EscrowDeal
refetch id db = or_raise (find id db.deals) runtime_error db
