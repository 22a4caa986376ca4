-- ===== src/Recurring/Repo.antt =====
-- `RecurringPaymentRepository` (sthrip/db/recurring_repo.py).
use sthrip.Base.{
  ℕ, suc, Option, none, some, List, ◌∷◌, Bool, true, false, ◌&&◌, ◌||◌, leb, if◌then◌else◌, is_some,
  or_default,
}
use sthrip.Base.Int.{ℤ, pos, ◌+ℤ◌, leb_ℤ}
use sthrip.Base.Table.{Table, find, update_where}
use sthrip.Base.Keys.{keys_where}
use sthrip.Base.Action.{Action, ok, err, gets, integrity_error}
use sthrip.Models.Transfers.{RecurringPayment, RecurringInterval}
use sthrip.Models.Database.{Db}

-- The arguments of `create`.
pub record Terms : Type 0 where
  pub from_agent_id : ℕ
  pub to_agent_id : ℕ
  pub amount : ℤ
  pub interval : RecurringInterval
  pub max_payments : Option ℕ

abbrev pub new_payment : ℕ → ℕ → Terms → RecurringPayment
new_payment now next_at r = record {
  from_agent_id = r.from_agent_id;
  to_agent_id = r.to_agent_id;
  amount = r.amount;
  interval = r.interval;
  next_payment_at = next_at;
  last_payment_at = none;
  total_paid = pos 0;
  max_payments = r.max_payments;
  payments_made = 0;
  is_active = true;
  created_at = now;
  cancelled_at = none;
}

-- The database also refuses an amount that is not positive (`ck_recurring_amount_positive`).
unfoldable pub create : ℕ → ℕ → ℕ → Terms → Action Db RecurringPayment
create now id next_at r db =
    let payment = new_payment now next_at r in
    if leb_ℤ r.amount (pos 0)
    then (err integrity_error, db)
    else if is_some (find id db.recurring)
    then (err integrity_error, db)
    else (ok payment, record db { recurring = (id, payment) ∷ db.recurring })

abbrev pub get_by_id : ℕ → Action Db (Option RecurringPayment)
get_by_id id = gets (λ db. find id db.recurring)

-- An UPDATE that asks for the key alone.
abbrev pub update_payment : ℕ → (RecurringPayment → RecurringPayment) → Action Db ℕ
update_payment id f db =
    let (rows, recurring) = update_where id (λ _. true) f db.recurring in
    (ok rows, record db { recurring = recurring })

abbrev pub is_due : ℕ → RecurringPayment → Bool
is_due now p = p.is_active && leb p.next_payment_at now

-- The keys of the rows that `get_due_payments` finds, and `get_due_payments_for_update`, which
-- locks them too.
abbrev pub get_due_payments : ℕ → Table RecurringPayment → List ℕ
get_due_payments now = keys_where (is_due now)

abbrev pub recorded_payment : ℕ → ℕ → RecurringPayment → RecurringPayment
recorded_payment now next_at p = record p {
  payments_made = suc p.payments_made;
  total_paid = p.total_paid +ℤ p.amount;
  last_payment_at = some now;
  next_payment_at = next_at;
}

unfoldable pub record_payment : ℕ → ℕ → ℕ → Action Db ℕ
record_payment now id next_at = update_payment id (recorded_payment now next_at)

abbrev pub cancelled_payment : ℕ → RecurringPayment → RecurringPayment
cancelled_payment now p = record p { is_active = false; cancelled_at = some now }

unfoldable pub cancel : ℕ → ℕ → Action Db ℕ
cancel now id = update_payment id (cancelled_payment now)

abbrev pub updated_payment :
    Option ℤ → Option RecurringInterval → RecurringPayment → RecurringPayment
updated_payment amount interval p = record p {
  amount = or_default amount p.amount;
  interval = or_default interval p.interval;
}

-- Without a change there is no UPDATE. The database refuses an amount that is not positive.
unfoldable pub update : ℕ → Option ℤ → Option RecurringInterval → Action Db ℕ
update id amount interval db =
    if is_some amount || is_some interval
    then (if is_some (find id db.recurring) && leb_ℤ (or_default amount (pos 1)) (pos 0)
        then (err integrity_error, db)
        else update_payment id (updated_payment amount interval) db)
    else (ok 0, db)
