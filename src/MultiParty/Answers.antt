-- ===== src/MultiParty/Answers.antt =====
-- How an answer to a group payment ends.
use sthrip.Base.{
  ℕ, ◌≡◌, String, none, some, inl, inr, ◌∷◌, arith, true, false, Bool, if◌then◌else◌, Bool-cases,
  refl, ◌∙◌, Option-cases,
}
use sthrip.Base.Int.{ℤ}
use sthrip.Base.Table.{find, set, find-set_self, set-set}
use sthrip.Base.Action.{ok, err, Raised, value_error}
use sthrip.Models.Parties.{audit}
use sthrip.Models.Payments.{MultiPartyPayment, MultiPartyPaymentState, MultiPartyRecipient, is_open}
use sthrip.Models.Database.{Db}
use sthrip.Ledger.Rows.{amend, add_available, credit}
use sthrip.MultiParty.Repo
use sthrip.MultiParty.Repo.{
  Request, answered, ended_payment, has_duplicates, new_payment, has_expired,
}
use sthrip.MultiParty.Service.{
  Answer, RecipientState, has_accepted, has_answered, all, credited_each, state_after,
  accept_together, answer_alone, accept, reject_together, reject,
}

-- The payment after a recipient has answered.
abbrev pub with_answer : Bool → ℕ → ℕ → MultiPartyRecipient → MultiPartyPayment → MultiPartyPayment
with_answer answer now agent r p = record p {
  recipients = set agent (answered answer now r) p.recipients;
}

-- The payment is complete once all have answered.
abbrev pub closed_if : Bool → ℕ → MultiPartyPayment → MultiPartyPayment
closed_if all_responded now p =
    if all_responded then ended_payment MultiPartyPaymentState.completed now p else p

-- The session after a row of the payment was written.
abbrev pub with_payment : ℕ → MultiPartyPayment → Db → Db
with_payment id p db = record db { group_payments = set id p db.group_payments }

-- The rest of an answer given alone: `whom` has the amount, and `p` is the payment with the answer.
abbrev pub alone_state : ℕ → ℕ → ℕ → ℕ → ℤ → ℕ → String → MultiPartyPayment → Db → Db
alone_state now agent id whom amount currency event p db = record db {
  balances = amend now whom currency (add_available now amount) db.balances;
  group_payments = set id (closed_if (all has_answered p.recipients) now p) db.group_payments;
  journal = audit event (some agent) (some id) ∷ db.journal;
}

abbrev pub alone_answer : RecipientState → MultiPartyPayment → Answer
alone_answer recipient_state p = record {
  state = state_after (all has_answered p.recipients);
  recipient_state = recipient_state;
}

answer_alone-after :
    (now agent id whom : ℕ) (amount : ℤ) (currency : ℕ) (event : String) (rs : RecipientState)
    (p p' : MultiPartyPayment) (db : Db)
    → find id db.group_payments ≡ some p
    → is_open p'.state ≡ true
    → answer_alone now agent id whom amount currency event rs (with_payment id p' db)
      ≡ (ok (alone_answer rs p'), alone_state now agent id whom amount currency event p' db)
unfolding answer_alone credit Repo.complete
answer_alone-after now agent id whom amount currency event rs p p' db e op =
    let stored = find-set_self id p' p db.group_payments e in
    elim (Bool-cases (all has_answered p'.recipients)) [
      | inl done ↦
          let closed =
            set-set id (ended_payment MultiPartyPaymentState.completed now p') p'
              db.group_payments in
          rw (stored, done) (ground (arith, stored, closed))
      | inr more ↦ rw (stored, more) refl
    ]

abbrev pub together_state : ℕ → ℕ → ℕ → MultiPartyPayment → Db → Db
together_state now agent id p db = record db {
  balances = credited_each now p.currency p.recipients db.balances;
  group_payments = set id (ended_payment MultiPartyPaymentState.completed now p) db.group_payments;
  journal = audit "multi_party.completed" (some agent) (some id) ∷ db.journal;
}

abbrev pub accepted_answer : MultiPartyPaymentState → Answer
accepted_answer state = record { state = state; recipient_state = RecipientState.accepted }

pub accept_together-last :
    (now agent id : ℕ) (p p' : MultiPartyPayment) (db : Db)
    → find id db.group_payments ≡ some p
    → is_open p'.state ≡ true
    → all has_accepted p'.recipients ≡ true
    → accept_together now agent id p' (with_payment id p' db)
      ≡ (ok (accepted_answer MultiPartyPaymentState.completed), together_state now agent id p' db)
unfolding accept_together Repo.complete
accept_together-last now agent id p p' db e op done = ground (
  arith,
  find-set_self id p' p db.group_payments e,
  set-set id (ended_payment MultiPartyPaymentState.completed now p') p' db.group_payments,
)

pub accept_together-more :
    (now agent id : ℕ) (p p' : MultiPartyPayment) (db : Db)
    → find id db.group_payments ≡ some p
    → all has_accepted p'.recipients ≡ false
    → accept_together now agent id p' (with_payment id p' db)
      ≡ (ok (accepted_answer MultiPartyPaymentState.pending), with_payment id p' db)
unfolding accept_together
accept_together-more now agent id p p' db e more =
    ground (arith, find-set_self id p' p db.group_payments e)

-- The recipient has answered before, or an answer of this kind has been given.
abbrev pub Participates : ℕ → MultiPartyRecipient → MultiPartyPayment → Type 0
Participates agent r p =
    (p.state ≡ MultiPartyPaymentState.pending) × (find agent p.recipients ≡ some r)

-- An open payment's recipient who has answered before gets that answer back, and nothing is
-- written: it says "already accepted" to one who has rejected as well.
pub accept-answered :
    (now agent id : ℕ) (answer : Bool) (r : MultiPartyRecipient) (p : MultiPartyPayment) (db : Db)
    → find id db.group_payments ≡ some p
    → Participates agent r p
    → r.accepted ≡ some answer
    → accept now agent id db ≡ (
      ok (record {
        state = MultiPartyPaymentState.pending;
        recipient_state = RecipientState.already_accepted;
      }),
      db,
    )
unfolding accept Repo.accept_recipient
accept-answered now agent id answer r p db e (st, er) a = ground arith

pub accept-alone :
    (now agent id : ℕ) (r : MultiPartyRecipient) (p : MultiPartyPayment) (db : Db)
    → find id db.group_payments ≡ some p
    → Participates agent r p
    → r.accepted ≡ none
    → p.require_all_accept ≡ false
    → let p' = with_answer true now agent r p in
      accept now agent id db ≡ (
        ok (alone_answer RecipientState.accepted p'),
        alone_state now agent id agent r.amount p.currency "multi_party.recipient_accepted" p' db,
      )
unfolding accept Repo.accept_recipient
accept-alone now agent id r p db e (st, er) a alone =
    let p' = with_answer true now agent r p in
    let begun : accept now agent id db
        ≡ answer_alone now agent id agent r.amount p.currency "multi_party.recipient_accepted"
            RecipientState.accepted (with_payment id p' db) =
      ground arith in
    begun
    ∙ answer_alone-after now agent id agent r.amount p.currency "multi_party.recipient_accepted"
        RecipientState.accepted p p' db e (ground arith)

pub accept-together :
    (now agent id : ℕ) (r : MultiPartyRecipient) (p : MultiPartyPayment) (db : Db)
    → find id db.group_payments ≡ some p
    → Participates agent r p
    → r.accepted ≡ none
    → p.require_all_accept ≡ true
    → let p' = with_answer true now agent r p in
      accept now agent id db ≡ accept_together now agent id p' (with_payment id p' db)
unfolding accept Repo.accept_recipient accept_together
accept-together now agent id r p db e (st, er) a together = ground arith

pub reject-alone :
    (now agent id : ℕ) (r : MultiPartyRecipient) (p : MultiPartyPayment) (db : Db)
    → find id db.group_payments ≡ some p
    → Participates agent r p
    → r.accepted ≡ none
    → p.require_all_accept ≡ false
    → let p' = with_answer false now agent r p in
      reject now agent id db ≡ (
        ok (alone_answer RecipientState.rejected p'),
        alone_state now agent id p.sender_id r.amount p.currency "multi_party.recipient_rejected" p'
            db,
      )
unfolding reject Repo.reject_recipient
reject-alone now agent id r p db e (st, er) a alone =
    let p' = with_answer false now agent r p in
    let begun : reject now agent id db
        ≡ answer_alone now agent id p.sender_id r.amount p.currency "multi_party.recipient_rejected"
            RecipientState.rejected (with_payment id p' db) =
      ground arith in
    begun
    ∙ answer_alone-after now agent id p.sender_id r.amount p.currency
        "multi_party.recipient_rejected" RecipientState.rejected p p' db e (ground arith)

abbrev pub rejected_state : ℕ → ℕ → ℕ → MultiPartyPayment → Db → Db
rejected_state now agent id p db = record db {
  balances = amend now p.sender_id p.currency (add_available now p.total_amount) db.balances;
  group_payments = set id (ended_payment MultiPartyPaymentState.rejected now p) db.group_payments;
  journal = audit "multi_party.rejected" (some agent) (some id) ∷ db.journal;
}

pub reject-together :
    (now agent id : ℕ) (r : MultiPartyRecipient) (p : MultiPartyPayment) (db : Db)
    → find id db.group_payments ≡ some p
    → Participates agent r p
    → r.accepted ≡ none
    → p.require_all_accept ≡ true
    → reject now agent id db ≡ (
      ok (record {
        state = MultiPartyPaymentState.rejected;
        recipient_state = RecipientState.rejected;
      }),
      rejected_state now agent id (with_answer false now agent r p) db,
    )
unfolding reject Repo.reject_recipient reject_together
reject-together now agent id r p db e (st, er) a together =
    let p' = with_answer false now agent r p in
    ground (
      arith,
      find-set_self id p' p db.group_payments e,
      set-set id (ended_payment MultiPartyPaymentState.rejected now p') p' db.group_payments,
    )

pub reject-answered :
    (now agent id : ℕ) (answer : Bool) (r : MultiPartyRecipient) (p : MultiPartyPayment) (db : Db)
    → find id db.group_payments ≡ some p
    → Participates agent r p
    → r.accepted ≡ some answer
    → reject now agent id db ≡ (err value_error, db)
unfolding reject Repo.reject_recipient
reject-answered now agent id answer r p db e (st, er) a = ground arith

-- An answer to a payment that is not pending, or from an agent that is no recipient, raises, and
-- nothing is written.
pub answer-refused :
    (now agent id : ℕ) (p : MultiPartyPayment) (db : Db)
    → find id db.group_payments ≡ some p
    → ((r : MultiPartyRecipient) → ¬ Participates agent r p)
    → (Raised (accept now agent id db).0 × ((accept now agent id db).1 ≡ db))
      × (Raised (reject now agent id db).0 × ((reject now agent id db).1 ≡ db))
unfolding accept reject
answer-refused now agent id p db e none_of = elim (Option-cases (find agent p.recipients)) [
  | inl er ↦ ground arith
  | inr (r, er) ↦
      let other : is_open p.state ≡ false = closed p.state (λ st. none_of r (st, er)) in
      ((rw (e, other) tt, rw (e, other) refl), (rw (e, other) tt, rw (e, other) refl))
]
  where
    closed :
        (s : MultiPartyPaymentState) → ¬ (s ≡ MultiPartyPaymentState.pending) → is_open s ≡ false
    closed s h = ground arith
