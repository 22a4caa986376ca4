-- ===== src/MultiParty/Service.antt =====
-- The methods of `MultiPartyService` (sthrip/services/multi_party_service.py). Agent names are
-- unique, so an agent's name is its key.
use sthrip.Base.{
  ℕ, ◌+◌, String, Option, none, some, [], ◌∷◌, Bool, true, false, not, ◌&&◌, ◌||◌, ◌==◌,
  if◌then◌else◌, is_some, List,
}
use sthrip.Base.Int.{ℤ, pos, leb_ℤ}
use sthrip.Base.Table.{Table, find, sum}
use sthrip.Base.Counts.{count_each}
use sthrip.Base.Action.{
  Action, Result, ok, err, pure, gets, modify, or_raise, raise_if, ◌>>=◌, ◌>>◌, value_error,
  lookup_error, permission_error,
}
use sthrip.Models.Parties.{Agent, Entry, webhook}
use sthrip.Models.Payments.{MultiPartyPayment, MultiPartyPaymentState, MultiPartyRecipient, is_open}
use sthrip.Models.Database.{Db, Balances, audit_log}
use sthrip.Ledger.Rows.{amend, add_available, credit, deduct}
use sthrip.Escrow.Repo.{hours}
use sthrip.MultiParty.Repo
use sthrip.MultiParty.Repo.{Request, get_by_id, get_recipients, has_duplicates}

abbrev pub is_empty : Table ℤ → Bool
is_empty [] = true
is_empty (_ ∷ _) = false

-- Some amount is not positive.
unfoldable pub has_nonpositive : Table ℤ → Bool
has_nonpositive [] = false
has_nonpositive ((_, x) ∷ shares) = leb_ℤ x (pos 0) || has_nonpositive shares

abbrev pub usable_agent : Option Agent → Result (Unit {0})
usable_agent none = err lookup_error
usable_agent (some agent) = if agent.is_active then ok tt else err value_error

-- The loop that resolves names: it ends at the first one that is unknown or not active.
unfoldable pub resolve : Table Agent → Table ℤ → Result (Unit {0})
resolve agents [] = ok tt
resolve agents ((a, _) ∷ shares) =
    let rest = resolve agents shares in
    elim (usable_agent (find a agents)) [ ok _ ↦ rest | err e ↦ err e ]

abbrev pub total_of : Table ℤ → ℤ
total_of = sum (λ x. x)

-- The queued event of each recipient.
unfoldable pub events : Table ℤ → List Entry → List Entry
events [] journal = journal
events ((a, _) ∷ shares) journal = events shares (webhook a "multi_party.created" ∷ journal)

unfoldable pub create_multi_party : ℕ → ℕ → String → Request → Action Db MultiPartyPayment
unfolding deduct Repo.create
create_multi_party now id hash r = do
  raise_if (is_empty r.shares) value_error
  raise_if (has_duplicates r.shares) value_error
  raise_if (has_nonpositive r.shares) value_error
  _ ← λ db. (resolve db.agents r.shares, db)
  raise_if (is_some (find r.sender_id r.shares)) value_error
  deduct now r.sender_id (total_of r.shares) r.currency
  payment ← Repo.create now id hash (total_of r.shares) (now + hours r.accept_hours) r
  audit_log "multi_party.created" (some r.sender_id) (some id)
  modify (λ db. record db { journal = events r.shares db.journal })
  pure payment

pub data RecipientState : Type 0 where
  already_accepted accepted rejected : RecipientState

-- The two states of the answer's dictionary.
pub record Answer : Type 0 where
  pub state : MultiPartyPaymentState
  pub recipient_state : RecipientState

abbrev pub has_accepted : MultiPartyRecipient → Bool
has_accepted r = elim r.accepted [ none ↦ false | some answer ↦ answer ]

abbrev pub has_answered : MultiPartyRecipient → Bool
has_answered r = is_some r.accepted

-- `all(p(r) for r in recipients)`
unfoldable pub all : (MultiPartyRecipient → Bool) → Table MultiPartyRecipient → Bool
all p [] = true
all p ((_, r) ∷ rows) = p r && all p rows

-- The balances after each recipient was credited.
unfoldable pub credited_each : ℕ → ℕ → Table MultiPartyRecipient → Balances → Balances
credited_each now currency [] rows = rows
credited_each now currency ((a, r) ∷ recipients) rows =
    credited_each now currency recipients (amend now a currency (add_available now r.amount) rows)

abbrev pub credit_each : ℕ → ℕ → Table MultiPartyRecipient → Action Db (Unit {0})
credit_each now currency recipients =
    modify (λ db. record db { balances = credited_each now currency recipients db.balances })

-- The state that the answer names.
abbrev pub state_after : Bool → MultiPartyPaymentState
state_after all_responded =
    if all_responded then MultiPartyPaymentState.completed else MultiPartyPaymentState.pending

-- The end of `accept` where all must accept.
unfoldable pub accept_together : ℕ → ℕ → ℕ → MultiPartyPayment → Action Db Answer
unfolding Repo.complete
accept_together now agent id payment = do
  recipients ← get_recipients id
  if all has_accepted recipients
      then (do
        credit_each now payment.currency recipients
        Repo.complete now id
        audit_log "multi_party.completed" (some agent) (some id)
        pure (record {
          state = MultiPartyPaymentState.completed;
          recipient_state = RecipientState.accepted;
        }))
      else pure (record {
        state = MultiPartyPaymentState.pending;
        recipient_state = RecipientState.accepted;
      })

-- `if all_responded: repo.complete(payment_id)`
abbrev complete_if : Bool → ℕ → ℕ → Action Db ℕ
complete_if true now id = Repo.complete now id
complete_if false now id = pure 0

-- The common end of `accept` and `reject` where each answers alone: whom to credit, and the event.
unfoldable pub answer_alone : ℕ → ℕ → ℕ → ℕ → ℤ → ℕ → String → RecipientState → Action Db Answer
unfolding credit Repo.complete
answer_alone now agent id whom amount currency event recipient_state = do
  credit now whom amount currency
  audit_log event (some agent) (some id)
  recipients ← get_recipients id
  complete_if (all has_answered recipients) now id
  pure (record {
    state = state_after (all has_answered recipients);
    recipient_state = recipient_state;
  })

-- The rest of `accept`, where the recipient has not accepted yet.
abbrev pub accept_new : ℕ → ℕ → ℕ → MultiPartyPayment → MultiPartyRecipient → ℕ → Action Db Answer
accept_new now agent id payment row rows_affected =
    if rows_affected == 0
    then pure (record { state = payment.state; recipient_state = RecipientState.already_accepted })
    else if payment.require_all_accept
    then accept_together now agent id payment
    else answer_alone now agent id agent row.amount payment.currency
        "multi_party.recipient_accepted" RecipientState.accepted

unfoldable pub accept : ℕ → ℕ → ℕ → Action Db Answer
unfolding Repo.accept_recipient accept_together answer_alone
accept now agent id = do
  payment ← or_raise (← get_by_id id) lookup_error
  raise_if (not (is_open payment.state)) value_error
  row ← or_raise (find agent payment.recipients) permission_error
  if has_accepted row
      then pure
          (record { state = payment.state; recipient_state = RecipientState.already_accepted })
      else (do
        rows_affected ← Repo.accept_recipient now id agent
        accept_new now agent id payment row rows_affected)

-- The end of `reject` where all must accept.
unfoldable pub reject_together : ℕ → ℕ → ℕ → MultiPartyPayment → Action Db Answer
unfolding credit Repo.reject
reject_together now agent id payment = do
  credit now payment.sender_id payment.total_amount payment.currency
  Repo.reject now id
  audit_log "multi_party.rejected" (some agent) (some id)
  pure (record {
    state = MultiPartyPaymentState.rejected;
    recipient_state = RecipientState.rejected;
  })

unfoldable pub reject : ℕ → ℕ → ℕ → Action Db Answer
unfolding Repo.reject_recipient reject_together answer_alone
reject now agent id = do
  payment ← or_raise (← get_by_id id) lookup_error
  raise_if (not (is_open payment.state)) value_error
  row ← or_raise (find agent payment.recipients) permission_error
  rows_affected ← Repo.reject_recipient now id agent
  raise_if (rows_affected == 0) value_error
  if payment.require_all_accept
      then reject_together now agent id payment
      else answer_alone now agent id payment.sender_id row.amount payment.currency
          "multi_party.recipient_rejected" RecipientState.rejected

-- The balances after the sender was given back each amount that was not accepted.
unfoldable pub refunded_each : ℕ → ℕ → ℕ → Table MultiPartyRecipient → Balances → Balances
refunded_each now sender currency [] rows = rows
refunded_each now sender currency ((_, r) ∷ recipients) rows =
    refunded_each now sender currency recipients
      (if has_accepted r then rows else amend now sender currency (add_available now r.amount) rows)

-- What an expired payment pays back.
abbrev pub refunded : ℕ → MultiPartyPayment → Balances → Balances
refunded now p rows =
    if p.require_all_accept
    then amend now p.sender_id p.currency (add_available now p.total_amount) rows
    else refunded_each now p.sender_id p.currency p.recipients rows

abbrev pub refund_and_expire : ℕ → ℕ → Option MultiPartyPayment → Action Db ℕ
refund_and_expire now id none = pure 0
refund_and_expire now id (some p) = do
  modify (λ db. record db { balances = refunded now p db.balances })
  Repo.expire now id
  audit_log "multi_party.expired" (some p.sender_id) (some id)
  pure 1

-- One iteration of `expire_stale`.
unfoldable pub expire_one : ℕ → ℕ → Action Db ℕ
unfolding Repo.expire
expire_one now id = do payment ← get_by_id id; refund_and_expire now id payment

unfoldable pub expire_stale : ℕ → Action Db ℕ
unfolding expire_one count_each
expire_stale now = do
  expired ← gets (λ (db : Db). Repo.get_pending_expired now db.group_payments)
  count_each (expire_one now) expired
