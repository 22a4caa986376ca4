-- ===== src/Recurring/Charges.antt =====
-- What the task that pays schedules does to the database and the books.
use sthrip.Base.{
  ℕ, suc, zero, ◌≡◌, ◌⊎◌, some, inl, inr, arith, refl, true, false, Option-cases, Bool-cases, ◌∙◌,
  if◌then◌else◌,
}
use sthrip.Base.Int.{ℤ, pos, ◌+ℤ◌, ◌-ℤ◌, ◌≤ℤ◌, int_laws, parts}
use sthrip.Base.Table.{find, set, sum, sum-set, find-set_self, set-set}
use sthrip.Base.Counts.{Adds, count_each-Adds}
use sthrip.Base.Action.{ok}
use sthrip.Models.Parties.{xmr}
use sthrip.Models.Transfers.{RecurringPayment}
use sthrip.Models.Database.{Db}
use sthrip.Ledger.Held.{counted, counted-sub, counted_zero, held-amend, held-get_for_update}
use sthrip.Ledger.Rows.{amend, add_available, take_available, get_for_update, find_row}
use sthrip.Ledger.Balance.{available_of}
use sthrip.Accounting.{assets}
use sthrip.Recurring.Repo
use sthrip.Recurring.Repo.{Terms, recorded_payment, cancelled_payment, is_due}
use sthrip.Recurring.Service.{
  execute_one, execute_due_payments, fee_of, is_complete, calculate_next_payment,
}

-- The row after a payment.
abbrev pub paid_payment : ℕ → RecurringPayment → RecurringPayment
paid_payment now p =
    let recorded = recorded_payment now (calculate_next_payment p.interval now) p in
    if is_complete recorded then cancelled_payment now recorded else recorded

abbrev pub paid_state : ℕ → ℕ → RecurringPayment → Db → Db
paid_state now id p db = record db {
  balances = amend now p.to_agent_id xmr (add_available now (p.amount -ℤ fee_of p.amount)) (
      amend now p.from_agent_id xmr (take_available now p.amount)
        (get_for_update now p.from_agent_id xmr db.balances).1);
  recurring = set id (paid_payment now p) db.recurring;
}

-- The session in which the sender's balance row is locked.
abbrev pub locked : ℕ → RecurringPayment → Db → Db
locked now p db = record db { balances = (get_for_update now p.from_agent_id xmr db.balances).1 }

-- A round on an active payment, in two cases. If the sender has the amount, the round counts one and
-- leaves `paid_state`: the amount is taken, the receiver has it less one percent, and the row counts
-- one payment more and is inactive if that and one more are as many as it is for. If the sender has
-- not, the round counts none and writes nothing.
pub execute_one_outcome :
    (now id : ℕ) (p : RecurringPayment) (db : Db)
    → find id db.recurring ≡ some p
    → p.is_active ≡ true
    → (p.amount ≤ℤ available_of p.from_agent_id xmr db
        × (execute_one now id db ≡ (ok 1, paid_state now id p db)))
      ⊎ ((¬ (p.amount ≤ℤ available_of p.from_agent_id xmr db))
          × (execute_one now id db ≡ (ok 0, locked now p db)))
unfolding execute_one available_of get_for_update find_row
execute_one_outcome now id p db e active =
    let recorded = recorded_payment now (calculate_next_payment p.interval now) p in
    ground (
      arith,
      find-set_self id recorded p db.recurring e,
      set-set id (cancelled_payment now recorded) recorded db.recurring,
    )

abbrev pub times : ℕ → ℤ → ℤ
times zero x = pos 0
times (suc n) x = x +ℤ times n x

-- The fees of the payments that a schedule has made.
unfoldable pub fees_paid : ℕ → RecurringPayment → ℤ
fees_paid u p = times p.payments_made (counted u xmr (fee_of p.amount))

paid-fees_paid :
    (u now : ℕ) (p : RecurringPayment)
    → fees_paid u (paid_payment now p) ≡ counted u xmr (fee_of p.amount) +ℤ fees_paid u p
unfolding fees_paid
paid-fees_paid u now p =
    let recorded = recorded_payment now (calculate_next_payment p.interval now) p in
    elim (Bool-cases (is_complete recorded)) [ inl e ↦ rw e refl | inr e ↦ rw e refl ]

-- What the books and the fees of the schedules come to together.
unfoldable pub accounted : ℕ → Db → ℤ
accounted u db = assets u db +ℤ sum (fees_paid u) db.recurring

paid_state-accounted :
    (u now id : ℕ) (p : RecurringPayment) (db : Db)
    → find id db.recurring ≡ some p
    → accounted u (paid_state now id p db) ≡ accounted u db
unfolding accounted assets
paid_state-accounted u now id p db e =
    let locked_rows = (get_for_update now p.from_agent_id xmr db.balances).1 in
    let taken = amend now p.from_agent_id xmr (take_available now p.amount) locked_rows in
    let net = p.amount -ℤ fee_of p.amount in
    omega (
      int_laws,
      parts (held-get_for_update u now p.from_agent_id xmr db.balances),
      parts (
          held-amend u now p.from_agent_id xmr (take_available now p.amount) (pos 0 -ℤ p.amount)
            locked_rows (λ b. omega int_laws)),
      parts (held-amend u now p.to_agent_id xmr (add_available now net) net taken (λ b. refl)),
      parts (counted-sub u xmr (pos 0) p.amount),
      parts (counted-sub u xmr p.amount (fee_of p.amount)),
      parts (counted_zero u xmr),
      parts (paid-fees_paid u now p),
      parts (sum-set (fees_paid u) id (paid_payment now p) p db.recurring e),
    )

locked-accounted :
    (u now : ℕ) (p : RecurringPayment) (db : Db) → accounted u (locked now p db) ≡ accounted u db
unfolding accounted assets
locked-accounted u now p db =
    omega (int_laws, parts (held-get_for_update u now p.from_agent_id xmr db.balances))

-- How many payments the schedules have made.
unfoldable pub payments_made : Db → ℤ
payments_made db = sum (λ (p : RecurringPayment). pos p.payments_made) db.recurring

paid-payments_made :
    (now : ℕ) (p : RecurringPayment) → (paid_payment now p).payments_made ≡ suc p.payments_made
paid-payments_made now p =
    let recorded = recorded_payment now (calculate_next_payment p.interval now) p in
    elim (Bool-cases (is_complete recorded)) [ inl e ↦ rw e refl | inr e ↦ rw e refl ]

paid_state-payments_made :
    (now id : ℕ) (p : RecurringPayment) (db : Db)
    → find id db.recurring ≡ some p
    → payments_made (paid_state now id p db) ≡ payments_made db +ℤ pos 1
unfolding payments_made
paid_state-payments_made now id p db e =
    let f = λ (p : RecurringPayment). pos p.payments_made in
    omega (
      int_laws,
      parts (sum-set f id (paid_payment now p) p db.recurring e),
      paid-payments_made now p,
    )

execute_one-Adds :
    (u now id : ℕ) (a : ℤ) (db : Db)
    → accounted u db ≡ a
    → Adds payments_made (λ s. accounted u s ≡ a) db (execute_one now id db)
execute_one-Adds u now id a db h = elim (Option-cases (find id db.recurring)) [
  | inl e ↦ (0, db, unfold execute_one in (rw e refl), omega int_laws, h)
  | inr (p, e) ↦ elim (Bool-cases p.is_active) [
    | inr off ↦ (0, db, unfold execute_one in (rw (e, off) refl), omega int_laws, h)
    | inl on_ ↦ elim (execute_one_outcome now id p db e on_) [
      | inl (_, done) ↦ (
        1,
        paid_state now id p db,
        done,
        paid_state-payments_made now id p db e,
        paid_state-accounted u now id p db e ∙ h,
      )
      | inr (_, done) ↦ (
        0,
        locked now p db,
        done,
        unfold payments_made in omega int_laws,
        locked-accounted u now p db ∙ h,
      )
    ]
  ]
]

-- The task never raises: it returns how many payments it made, which is by how much the count of
-- payments on the schedules grows. What the books of a token lose is the fees of those payments: the
-- books, with one percent for each payment that each schedule has made, are as before, so the fees
-- are credited to nobody.
pub execute_due_payments-accounted :
    (u now : ℕ) (db : Db)
    → let db' = (execute_due_payments now db).1 in
      ((n : ℕ) × ((execute_due_payments now db).0 ≡ ok n)
        × (payments_made db' ≡ payments_made db +ℤ pos n))
      × (accounted u db' ≡ accounted u db)
unfolding execute_due_payments
execute_due_payments-accounted u now db =
    let (n, _, done, more, kept) =
      count_each-Adds payments_made (λ s. accounted u s ≡ accounted u db) (execute_one now)
        (λ id s h. execute_one-Adds u now id (accounted u db) s h)
        (Repo.get_due_payments now db.recurring) db refl in
    rw done ((n, refl, more), kept)

-- An active schedule for two payments or more ends one early: when it has made all payments but two,
-- and the sender has the amount, the round makes the last but one and leaves the schedule inactive.
pub schedule_ends_early :
    (now id : ℕ) (p : RecurringPayment) (db : Db)
    → find id db.recurring ≡ some p
    → p.is_active ≡ true
    → p.max_payments ≡ some (suc (suc p.payments_made))
    → p.amount ≤ℤ available_of p.from_agent_id xmr db
    → (p' : RecurringPayment) × (find id (execute_one now id db).1.recurring ≡ some p')
      × (p'.payments_made ≡ suc p.payments_made)
      × (p'.is_active ≡ false)
schedule_ends_early now id p db e on_ last enough = elim (execute_one_outcome now id p db e on_) [
  | inl (_, done) ↦
      let recorded = recorded_payment now (calculate_next_payment p.interval now) p in
      let over : is_complete recorded ≡ true = ground arith in
      let same : paid_payment now p ≡ cancelled_payment now recorded = rw over refl in
      (
        cancelled_payment now recorded,
        rw (done, same) (find-set_self id (cancelled_payment now recorded) p db.recurring e),
        refl,
        refl,
      )
  | inr (short, _) ↦ absurd (short enough)
]
