-- ===== src/MultiParty/Calls.antt =====
-- Whole calls on group payments: the books and the amounts.
use sthrip.Base.{
  ℕ, ◌≡◌, ◌⊎◌, sym, String, some, [], ◌∷◌, inl, inr, arith, refl, true, false, Bool, Option-cases,
  Bool-cases,
}
use sthrip.Base.Int.{ℤ, pos, ◌-ℤ◌, int_laws, parts}
use sthrip.Base.Table.{Table, find, set, sum, All, find-All, set-All}
use sthrip.Base.Action.{transact, transact-Raised}
use sthrip.Models.Payments.{MultiPartyPayment, MultiPartyPaymentState, MultiPartyRecipient, is_open}
use sthrip.Models.Database.{Db}
use sthrip.Ledger.Held.{counted, counted-sub, counted_zero, held-amend}
use sthrip.Ledger.Rows.{take_available}
use sthrip.Accounting.{assets, in_group, unanswered}
use sthrip.MultiParty.Repo.{Request, new_recipients, ended_payment}
use sthrip.MultiParty.Service.{
  has_accepted, has_answered, all, accept, reject, create_multi_party, total_of,
}
use sthrip.MultiParty.Answers.{
  with_answer, closed_if, Participates, accept_together-last, accept_together-more, accept-answered,
  accept-alone, accept-together, reject-alone, reject-together, reject-answered, answer-refused,
}
use sthrip.MultiParty.Outcomes.{created_state, created_payment, create_multi_party_outcome}
use sthrip.MultiParty.Books.{
  Matches, AllMatch, amount_of, with_answer-Matches, alone-assets, together-assets, answered-assets,
  rejected-assets,
}

-- A session with the books of `u` as in `db`, and payments that match their recipients.
abbrev pub Keeps : ℕ → Db → Db → Type 0
Keeps u db s = (assets u s ≡ assets u db) × AllMatch s

closed_if-Matches :
    (answer : Bool) (now agent : ℕ) (r : MultiPartyRecipient) (p : MultiPartyPayment)
    → find agent p.recipients ≡ some r
    → Matches p
    → let p' = with_answer answer now agent r p in
      Matches (closed_if (all has_answered p'.recipients) now p')
closed_if-Matches answer now agent r p er m =
    let p' = with_answer answer now agent r p in
    let m' = with_answer-Matches answer now agent r p er m in
    elim (Bool-cases (all has_answered p'.recipients)) [
      | inl done ↦ rw done m'
      | inr more ↦ rw more m'
    ]

module _ (u now agent id : ℕ) (db : Db) (matching : AllMatch db) where
  module _ (r : MultiPartyRecipient) (p : MultiPartyPayment)
      (e : find id db.group_payments ≡ some p) (here : Participates agent r p) where
    matches : Matches p
    matches = find-All Matches id p db.group_payments matching e

    written : (p' : MultiPartyPayment) → Matches p' → All Matches (set id p' db.group_payments)
    written p' m = set-All Matches id p' db.group_payments matching m

    open_still : Participates agent r p → is_open p.state ≡ true
    open_still (st, _) = rw st refl

    accept_recipient-Keeps : Keeps u db (accept now agent id db).1
    accept_recipient-Keeps = elim (Option-cases r.accepted) [
      | inr (answer, a) ↦ rw (accept-answered now agent id answer r p db e here a) (refl, matching)
      | inl a ↦
          let p' = with_answer true now agent r p in
          let m' = with_answer-Matches true now agent r p here.1 matches in
          elim (Bool-cases p.require_all_accept) [
            | inr alone ↦ rw (accept-alone now agent id r p db e here a alone) (
              alone-assets u now agent id agent true "multi_party.recipient_accepted" r p db e here
                  a alone,
              written (closed_if (all has_answered p'.recipients) now p')
                  (closed_if-Matches true now agent r p here.1 matches),
            )
            | inl all_of ↦
                rw (accept-together now agent id r p db e here a all_of)
                  elim (Bool-cases (all has_accepted p'.recipients)) [
                    | inl done ↦
                        rw (accept_together-last now agent id p p' db e (open_still here) done) (
                          together-assets u now agent id r p db e here all_of matches,
                          written (ended_payment MultiPartyPaymentState.completed now p') m',
                        )
                    | inr more ↦
                        rw (accept_together-more now agent id p p' db e more)
                          (answered-assets u now agent id true r p db e here all_of, written p' m')
                  ]
          ]
    ]

    reject_recipient-Keeps : Keeps u db (reject now agent id db).1
    reject_recipient-Keeps = elim (Option-cases r.accepted) [
      | inr (answer, a) ↦ rw (reject-answered now agent id answer r p db e here a) (refl, matching)
      | inl a ↦
          let p' = with_answer false now agent r p in
          let m' = with_answer-Matches false now agent r p here.1 matches in
          elim (Bool-cases p.require_all_accept) [
            | inr alone ↦ rw (reject-alone now agent id r p db e here a alone) (
              alone-assets u now agent id p.sender_id false "multi_party.recipient_rejected" r p db
                  e here a alone,
              written (closed_if (all has_answered p'.recipients) now p')
                  (closed_if-Matches false now agent r p here.1 matches),
            )
            | inl all_of ↦ rw (reject-together now agent id r p db e here a all_of) (
              rejected-assets u now agent id r p db e here all_of,
              written (ended_payment MultiPartyPaymentState.rejected now p') m',
            )
          ]
    ]

participation :
    (agent : ℕ) (p : MultiPartyPayment)
    → ((r : MultiPartyRecipient) × Participates agent r p)
      ⊎ ((r : MultiPartyRecipient) → ¬ Participates agent r p)
participation agent p = elim (Option-cases (find agent p.recipients)) [
  | inl er ↦ inr (λ r here. ground arith)
  | inr (r, er) ↦ elim (Bool-cases (is_open p.state)) [
    | inl op ↦ inl (r, (pending_state p.state op, er))
    | inr cl ↦ inr (λ r' here. ground arith)
  ]
]
  where
    pending_state :
        (s : MultiPartyPaymentState) → is_open s ≡ true → s ≡ MultiPartyPaymentState.pending
    pending_state s h = ground arith

-- Where each payment's whole amount is that of its recipients, accepting or rejecting a payment,
-- known or not, leaves the books of every token as they were, and that is so of each payment
-- afterwards.
pub answer-Keeps :
    (u now agent id : ℕ) (db : Db)
    → AllMatch db
    → Keeps u db (accept now agent id db).1 × Keeps u db (reject now agent id db).1
answer-Keeps u now agent id db matching = elim (Option-cases (find id db.group_payments)) [
  | inl e ↦ (unfold accept in (rw e (refl, matching)), unfold reject in (rw e (refl, matching)))
  | inr (p, e) ↦ elim (participation agent p) [
    | inl (r, here) ↦ (
      accept_recipient-Keeps u now agent id db matching r p e here,
      reject_recipient-Keeps u now agent id db matching r p e here,
    )
    | inr none_of ↦
        let ((_, kept), (_, kept')) = answer-refused now agent id p db e none_of in
        (rw kept (refl, matching), rw kept' (refl, matching))
  ]
]

new-sums :
    (shares : Table ℤ)
    → (sum amount_of (new_recipients shares) ≡ total_of shares)
      × (sum unanswered (new_recipients shares) ≡ total_of shares)
unfolding sum new_recipients
new-sums [] = (refl, refl)
new-sums ((a, x) ∷ shares) =
    let (all_of, open_of) = new-sums shares in (rw all_of refl, rw open_of refl)

created_state-Keeps :
    (u now id : ℕ) (hash : String) (r : Request) (db : Db)
    → AllMatch db
    → Keeps u db (created_state now id hash r db)
unfolding assets in_group sum
created_state-Keeps u now id hash r db matching =
    let total = total_of r.shares in
    let (all_of, open_of) = new-sums r.shares in
    let taken =
      held-amend u now r.sender_id r.currency (take_available now total) (pos 0 -ℤ total)
        db.balances (λ b. omega int_laws) in
    let kept : in_group u (created_payment now hash r) ≡ counted u r.currency total =
      elim (Bool-cases r.require_all_accept) [ inl y ↦ rw y refl | inr n ↦ rw (n, open_of) refl ] in
    (
      omega (
        int_laws,
        parts taken,
        parts kept,
        parts (counted-sub u r.currency (pos 0) total),
        parts (counted_zero u r.currency),
      ),
      (sym all_of, matching),
    )

-- Where each payment's whole amount is that of its recipients, creating a payment, or failing to and
-- rolling back, leaves the books of every token as they were, and that is so of each payment
-- afterwards.
pub create_multi_party-Keeps :
    (u now id : ℕ) (hash : String) (r : Request) (db : Db)
    → AllMatch db
    → Keeps u db (transact (create_multi_party now id hash r) db).1
create_multi_party-Keeps u now id hash r db matching =
    elim (create_multi_party_outcome now id hash r db) [
      | inl (_, done) ↦
          unfold transact in (rw done (created_state-Keeps u now id hash r db matching))
      | inr (_, raised) ↦
          rw (transact-Raised (create_multi_party now id hash r) db raised) (refl, matching)
    ]
