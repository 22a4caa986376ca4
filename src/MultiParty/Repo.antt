-- ===== src/MultiParty/Repo.antt =====
-- `MultiPartyRepository` (sthrip/db/multi_party_repo.py). A payment's rows of
-- `multi_party_recipients` stand in its `recipients`, by agent.
use sthrip.Base.{
  ℕ, String, Option, none, some, [], ◌∷◌, Bool, true, false, ◌&&◌, ◌||◌, leb, if◌then◌else◌,
  is_some, List,
}
use sthrip.Base.Int.{ℤ}
use sthrip.Base.Table.{Table, find, set, update_where}
use sthrip.Base.Keys.{keys_where}
use sthrip.Base.Action.{Action, ok, err, integrity_error, gets}
use sthrip.Models.Payments.{MultiPartyPayment, MultiPartyPaymentState, MultiPartyRecipient, is_open}
use sthrip.Models.Database.{Db}

-- What a new payment is given: `shares` is the amount of each recipient.
pub record Request : Type 0 where
  pub sender_id : ℕ
  pub shares : Table ℤ
  pub currency : ℕ
  pub require_all_accept : Bool
  pub accept_hours : ℕ

abbrev pub new_recipient : ℤ → MultiPartyRecipient
new_recipient x = record { amount = x; accepted = none; accepted_at = none }

unfoldable pub new_recipients : Table ℤ → Table MultiPartyRecipient
new_recipients [] = []
new_recipients ((a, x) ∷ shares) = (a, new_recipient x) ∷ new_recipients shares

-- A recipient is named twice, which `uq_multi_party_recipient` refuses.
unfoldable pub has_duplicates : Table ℤ → Bool
has_duplicates [] = false
has_duplicates ((a, _) ∷ shares) = is_some (find a shares) || has_duplicates shares

abbrev pub new_payment : ℕ → String → ℤ → ℕ → Request → MultiPartyPayment
new_payment now hash total accept_deadline r = record {
  payment_hash = hash;
  sender_id = r.sender_id;
  total_amount = total;
  currency = r.currency;
  require_all_accept = r.require_all_accept;
  state = MultiPartyPaymentState.pending;
  accept_deadline = accept_deadline;
  created_at = now;
  completed_at = none;
  recipients = new_recipients r.shares;
}

unfoldable pub create : ℕ → ℕ → String → ℤ → ℕ → Request → Action Db MultiPartyPayment
create now id hash total accept_deadline r db =
    let payment = new_payment now hash total accept_deadline r in
    if is_some (find id db.group_payments) || has_duplicates r.shares
    then (err integrity_error, db)
    else (ok payment, record db { group_payments = (id, payment) ∷ db.group_payments })

-- `get_by_id`, and `get_by_id_for_update`, which locks the row too.
abbrev pub get_by_id : ℕ → Action Db (Option MultiPartyPayment)
get_by_id id = gets (λ db. find id db.group_payments)

-- `accepted.is_(None)`
abbrev pub has_not_answered : MultiPartyRecipient → Bool
has_not_answered r = elim r.accepted [ none ↦ true | some _ ↦ false ]

abbrev pub answered : Bool → ℕ → MultiPartyRecipient → MultiPartyRecipient
answered answer now r = record r { accepted = some answer; accepted_at = some now }

-- The update that `accept_recipient` and `reject_recipient` make, with True and False.
abbrev pub answer_recipient : Bool → ℕ → ℕ → ℕ → Action Db ℕ
answer_recipient answer now id agent db = elim (find id db.group_payments) [
  | none ↦ (ok 0, db)
  | some p ↦ elim (find agent p.recipients) [
    | none ↦ (ok 0, db)
    | some r ↦
        let p' = record p { recipients = set agent (answered answer now r) p.recipients } in
        if has_not_answered r
        then (ok 1, record db { group_payments = set id p' db.group_payments })
        else (ok 0, db)
  ]
]

unfoldable pub accept_recipient : ℕ → ℕ → ℕ → Action Db ℕ
accept_recipient now id agent = answer_recipient true now id agent

unfoldable pub reject_recipient : ℕ → ℕ → ℕ → Action Db ℕ
reject_recipient now id agent = answer_recipient false now id agent

abbrev pub ended_payment : MultiPartyPaymentState → ℕ → MultiPartyPayment → MultiPartyPayment
ended_payment state now p = record p { state = state; completed_at = some now }

-- The update from PENDING that `complete`, `reject` and `expire` make.
abbrev pub end_payment : MultiPartyPaymentState → ℕ → ℕ → Action Db ℕ
end_payment state now id db =
    let (rows, group_payments) =
      update_where id (λ (p : MultiPartyPayment). is_open p.state) (ended_payment state now)
        db.group_payments in
    (ok rows, record db { group_payments = group_payments })

unfoldable pub complete : ℕ → ℕ → Action Db ℕ
complete now id = end_payment MultiPartyPaymentState.completed now id

unfoldable pub reject : ℕ → ℕ → Action Db ℕ
reject now id = end_payment MultiPartyPaymentState.rejected now id

unfoldable pub expire : ℕ → ℕ → Action Db ℕ
expire now id = end_payment MultiPartyPaymentState.expired now id

abbrev pub get_recipients : ℕ → Action Db (Table MultiPartyRecipient)
get_recipients id =
    gets (λ (db : Db). elim (find id db.group_payments) [ none ↦ [] | some p ↦ p.recipients ])

abbrev pub has_expired : ℕ → MultiPartyPayment → Bool
has_expired now p = is_open p.state && leb p.accept_deadline now

-- The keys of the rows that the query of `get_pending_expired` finds.
abbrev pub get_pending_expired : ℕ → Table MultiPartyPayment → List ℕ
get_pending_expired now = keys_where (has_expired now)
