-- ===== src/MultiParty/Books.antt =====
-- The books over the calls on group payments.
use sthrip.Base.{
  ℕ, ◌≡◌, String, none, some, List, [], ◌∷◌, inl, inr, arith, refl, true, false, Bool, Bool-cases,
  ap,
}
use sthrip.Base.Int.{ℤ, pos, ◌+ℤ◌, int_laws, parts}
use sthrip.Base.Table.{Table, find, set, sum, sum-set, All}
use sthrip.Models.Parties.{Entry}
use sthrip.Models.Payments.{MultiPartyPayment, MultiPartyPaymentState, MultiPartyRecipient}
use sthrip.Models.Database.{Db, Balances}
use sthrip.Ledger.Held.{held, counted, counted-add, counted_zero, held-amend}
use sthrip.Ledger.Rows.{amend, add_available}
use sthrip.Accounting.{assets, in_group, unanswered}
use sthrip.MultiParty.Repo.{answered, ended_payment}
use sthrip.MultiParty.Service.{has_answered, all, credited_each}
use sthrip.MultiParty.Answers.{
  with_answer, closed_if, with_payment, alone_state, together_state, rejected_state, Participates,
}

abbrev pub amount_of : MultiPartyRecipient → ℤ
amount_of r = r.amount

-- The whole amount is that of the recipients.
abbrev pub Matches : MultiPartyPayment → Type 0
Matches p = p.total_amount ≡ sum amount_of p.recipients

abbrev pub AllMatch : Db → Type 0
AllMatch db = All Matches db.group_payments

-- Writing a payment's row and the balances, where the two change by opposite amounts but for `x`.
pub group-assets :
    (u id : ℕ) (x : ℤ) (p p' : MultiPartyPayment) (b : Balances) (j : List Entry) (db : Db)
    → find id db.group_payments ≡ some p
    → held u b +ℤ in_group u p' ≡ held u db.balances +ℤ in_group u p +ℤ x
    → assets u
        (record db { balances = b; group_payments = set id p' db.group_payments; journal = j })
      ≡ assets u db +ℤ x
unfolding assets
group-assets u id x p p' b j db e moved =
    omega (int_laws, parts moved, parts (sum-set (in_group u) id p' p db.group_payments e))

-- The same where nothing is left over.
pub group-assets_same :
    (u id : ℕ) (p p' : MultiPartyPayment) (b : Balances) (j : List Entry) (db : Db)
    → find id db.group_payments ≡ some p
    → held u b +ℤ in_group u p' ≡ held u db.balances +ℤ in_group u p
    → assets u
        (record db { balances = b; group_payments = set id p' db.group_payments; journal = j })
      ≡ assets u db
unfolding assets
group-assets_same u id p p' b j db e moved =
    omega (int_laws, parts moved, parts (sum-set (in_group u) id p' p db.group_payments e))

held-credited_each :
    (u now currency : ℕ) (rs : Table MultiPartyRecipient) (rows : Balances)
    → held u (credited_each now currency rs rows)
      ≡ held u rows +ℤ counted u currency (sum amount_of rs)
unfolding credited_each sum
held-credited_each u now currency [] rows = omega (int_laws, parts (counted_zero u currency))
held-credited_each u now currency ((a, r) ∷ rs) rows =
    let rows' = amend now a currency (add_available now r.amount) rows in
    omega (
      int_laws,
      parts (held-credited_each u now currency rs rows'),
      parts (held-amend u now a currency (add_available now r.amount) r.amount rows (λ _. refl)),
      parts (counted-add u currency r.amount (sum amount_of rs)),
    )

-- Once all have answered, nothing is kept for anyone.
all_answered-sum :
    (rs : Table MultiPartyRecipient) → all has_answered rs ≡ true → sum unanswered rs ≡ pos 0
unfolding all sum
all_answered-sum [] h = refl
all_answered-sum ((a, r) ∷ rs) h = grind (int_laws, all_answered-sum rs)

-- The answer of one who had not answered.
unanswered-set :
    (agent now : ℕ) (answer : Bool) (r : MultiPartyRecipient) (rs : Table MultiPartyRecipient)
    → find agent rs ≡ some r
    → r.accepted ≡ none
    → sum unanswered (set agent (answered answer now r) rs) +ℤ r.amount ≡ sum unanswered rs
unanswered-set agent now answer r rs e a =
    grind (int_laws, sum-set unanswered agent (answered answer now r) r rs e)

amount-set :
    (agent now : ℕ) (answer : Bool) (r : MultiPartyRecipient) (rs : Table MultiPartyRecipient)
    → find agent rs ≡ some r
    → sum amount_of (set agent (answered answer now r) rs) ≡ sum amount_of rs
amount-set agent now answer r rs e =
    omega (int_laws, parts (sum-set amount_of agent (answered answer now r) r rs e))

pub with_answer-Matches :
    (answer : Bool) (now agent : ℕ) (r : MultiPartyRecipient) (p : MultiPartyPayment)
    → find agent p.recipients ≡ some r
    → Matches p
    → Matches (with_answer answer now agent r p)
with_answer-Matches answer now agent r p e m =
    ground (arith, m, amount-set agent now answer r p.recipients e)

-- An answer given alone takes its amount out of what the payment keeps.
alone-in_group :
    (u now agent : ℕ) (answer : Bool) (r : MultiPartyRecipient) (p : MultiPartyPayment)
    → Participates agent r p
    → r.accepted ≡ none
    → p.require_all_accept ≡ false
    → let p' = with_answer answer now agent r p in
      in_group u (closed_if (all has_answered p'.recipients) now p')
        +ℤ counted u p.currency r.amount
      ≡ in_group u p
unfolding in_group
alone-in_group u now agent answer r p (st, er) a alone =
    let p' = with_answer answer now agent r p in
    let left = unanswered-set agent now answer r p.recipients er a in
    let kept = ap (counted u p.currency) left in
    let split = counted-add u p.currency (sum unanswered p'.recipients) r.amount in
    rw (st, alone)
      elim (Bool-cases (all has_answered p'.recipients)) [
        | inl done ↦
            let none_left = ap (counted u p.currency) (all_answered-sum p'.recipients done) in
            rw done (omega (int_laws, parts kept, parts split, parts none_left))
        | inr more ↦ rw more (omega (int_laws, parts kept, parts split))
      ]

pub alone-assets :
    (u now agent id whom : ℕ) (answer : Bool) (event : String) (r : MultiPartyRecipient)
    (p : MultiPartyPayment) (db : Db)
    → find id db.group_payments ≡ some p
    → Participates agent r p
    → r.accepted ≡ none
    → p.require_all_accept ≡ false
    → assets u (
        alone_state now agent id whom r.amount p.currency event
          (with_answer answer now agent r p)
          db)
      ≡ assets u db
alone-assets u now agent id whom answer event r p db e here a alone =
    let p' = with_answer answer now agent r p in
    let s = alone_state now agent id whom r.amount p.currency event p' db in
    group-assets_same u id p (closed_if (all has_answered p'.recipients) now p') s.balances
      s.journal db e
      (omega (
        int_laws,
        parts (alone-in_group u now agent answer r p here a alone),
        parts (
            held-amend u now whom p.currency (add_available now r.amount) r.amount db.balances
              (λ _. refl)),
      ))

-- Everyone has accepted: each is paid, and nothing is kept.
pub together-assets :
    (u now agent id : ℕ) (r : MultiPartyRecipient) (p : MultiPartyPayment) (db : Db)
    → find id db.group_payments ≡ some p
    → Participates agent r p
    → p.require_all_accept ≡ true
    → Matches p
    → assets u (together_state now agent id (with_answer true now agent r p) db) ≡ assets u db
unfolding in_group
together-assets u now agent id r p db e (st, er) all_of m =
    let p' = with_answer true now agent r p in
    let s = together_state now agent id p' db in
    let kept : in_group u p ≡ counted u p.currency p.total_amount = rw (st, all_of) refl in
    group-assets_same u id p (ended_payment MultiPartyPaymentState.completed now p') s.balances
      s.journal db e
      (omega (
        int_laws,
        parts kept,
        parts (ap (counted u p.currency) (with_answer-Matches true now agent r p er m)),
        parts (counted_zero u p.currency),
        parts (held-credited_each u now p.currency p'.recipients db.balances),
      ))

pub answered-assets :
    (u now agent id : ℕ) (answer : Bool) (r : MultiPartyRecipient) (p : MultiPartyPayment) (db : Db)
    → find id db.group_payments ≡ some p
    → Participates agent r p
    → p.require_all_accept ≡ true
    → assets u (with_payment id (with_answer answer now agent r p) db) ≡ assets u db
unfolding in_group
answered-assets u now agent id answer r p db e (st, er) all_of =
    let p' = with_answer answer now agent r p in
    let same : in_group u p' ≡ in_group u p = rw (st, all_of) refl in
    group-assets_same u id p p' db.balances db.journal db e (omega (int_laws, parts same))

pub rejected-assets :
    (u now agent id : ℕ) (r : MultiPartyRecipient) (p : MultiPartyPayment) (db : Db)
    → find id db.group_payments ≡ some p
    → Participates agent r p
    → p.require_all_accept ≡ true
    → assets u (rejected_state now agent id (with_answer false now agent r p) db) ≡ assets u db
unfolding in_group
rejected-assets u now agent id r p db e (st, er) all_of =
    let p' = with_answer false now agent r p in
    let s = rejected_state now agent id p' db in
    let kept : in_group u p ≡ counted u p.currency p.total_amount = rw (st, all_of) refl in
    group-assets_same u id p (ended_payment MultiPartyPaymentState.rejected now p') s.balances
      s.journal db e
      (omega (
        int_laws,
        parts kept,
        parts (counted_zero u p.currency),
        parts (
            held-amend u now p.sender_id p.currency (add_available now p.total_amount)
              p.total_amount db.balances (λ _. refl)),
      ))
