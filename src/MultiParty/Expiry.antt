-- ===== src/MultiParty/Expiry.antt =====
-- The expiry task on group payments.
use sthrip.Base.{
  ℕ, ◌≡◌, none, some, [], ◌∷◌, inl, inr, arith, refl, true, false, Bool, if◌then◌else◌,
  Option-cases, Bool-cases, leb, length, ◌&&◌, not, ◌==◌, ==-refl, ==→eq,
}
use sthrip.Base.Int.{ℤ, pos, ◌+ℤ◌, int_laws, parts}
use sthrip.Base.Table.{Table, find, sum, sum-set}
use sthrip.Base.Keys.{Distinct, set-Distinct}
use sthrip.Base.Counts.{Processes, count_each-Processes}
use sthrip.Base.Action.{ok}
use sthrip.Models.Payments.{MultiPartyPayment, MultiPartyPaymentState, MultiPartyRecipient, is_open}
use sthrip.Models.Database.{Db, Balances}
use sthrip.Ledger.Held.{held, counted, counted-add, counted_zero, held-amend}
use sthrip.Ledger.Rows.{amend, add_available}
use sthrip.Accounting.{assets, in_group, unanswered}
use sthrip.MultiParty.Repo.{get_pending_expired, has_expired, ended_payment}
use sthrip.MultiParty.Service.{has_accepted, refunded_each, expire_one, expire_stale}
use sthrip.MultiParty.Outcomes.{expired_state, expire_one-stale}
use sthrip.MultiParty.Books.{group-assets}

-- The amount of a recipient that has rejected, which the sender was given back then.
abbrev pub rejected_amount : MultiPartyRecipient → ℤ
rejected_amount r = elim r.accepted [
  | none ↦ pos 0
  | some answer ↦ if answer then pos 0 else r.amount
]

-- What the expiry of a payment gives the sender a second time.
unfoldable pub refunded_twice : ℕ → ℕ → MultiPartyPayment → ℤ
refunded_twice u now p = counted u p.currency (
    if has_expired now p && not p.require_all_accept
    then sum rejected_amount p.recipients
    else pos 0)

-- The refund of one recipient's amount.
abbrev refunded_to : ℕ → ℕ → ℕ → MultiPartyRecipient → Balances → Balances
refunded_to now sender currency r rows =
    if has_accepted r then rows else amend now sender currency (add_available now r.amount) rows

held-refunded_to :
    (u now sender currency : ℕ) (r : MultiPartyRecipient) (rows : Balances)
    → held u (refunded_to now sender currency r rows)
      ≡ held u rows +ℤ counted u currency (unanswered r) +ℤ counted u currency (rejected_amount r)
held-refunded_to u now sender currency r rows =
    let nothing = counted_zero u currency in
    let added =
      held-amend u now sender currency (add_available now r.amount) r.amount rows (λ _. refl) in
    elim (Option-cases r.accepted) [
      | inl e ↦ rw e (omega (int_laws, parts nothing, parts added))
      | inr (answer, e) ↦ elim (Bool-cases answer) [
        | inl t ↦ rw (e, t) (omega (int_laws, parts nothing))
        | inr f ↦ rw (e, f) (omega (int_laws, parts nothing, parts added))
      ]
    ]

held-refunded_each :
    (u now sender currency : ℕ) (rs : Table MultiPartyRecipient) (rows : Balances)
    → held u (refunded_each now sender currency rs rows)
      ≡ held u rows
        +ℤ counted u currency (sum unanswered rs)
        +ℤ counted u currency (sum rejected_amount rs)
unfolding refunded_each sum
held-refunded_each u now sender currency [] rows = omega (int_laws, parts (counted_zero u currency))
held-refunded_each u now sender currency ((a, r) ∷ rs) rows = omega (
  int_laws,
  parts (held-refunded_each u now sender currency rs (refunded_to now sender currency r rows)),
  parts (counted-add u currency (unanswered r) (sum unanswered rs)),
  parts (counted-add u currency (rejected_amount r) (sum rejected_amount rs)),
  parts (held-refunded_to u now sender currency r rows),
)

-- An expired payment keeps nothing; what it kept goes back, and what is refunded twice is too much.
expired_state-assets :
    (u now id : ℕ) (p : MultiPartyPayment) (db : Db)
    → find id db.group_payments ≡ some p
    → has_expired now p ≡ true
    → assets u (expired_state now id p db) ≡ assets u db +ℤ refunded_twice u now p
unfolding in_group refunded_twice
expired_state-assets u now id p db e due =
    let s = expired_state now id p db in
    let p' = ended_payment MultiPartyPaymentState.expired now p in
    let open_still : p.state ≡ MultiPartyPaymentState.pending =
      pending_state p.state (leb p.accept_deadline now) due in
    let nothing = counted_zero u p.currency in
    group-assets u id (refunded_twice u now p) p p' s.balances s.journal db e
      (elim (Bool-cases p.require_all_accept) [
        | inl all_of ↦
            let added =
              held-amend u now p.sender_id p.currency (add_available now p.total_amount)
                p.total_amount db.balances (λ _. refl) in
            rw (due, all_of, open_still) (omega (int_laws, parts nothing, parts added))
        | inr alone ↦
            let added = held-refunded_each u now p.sender_id p.currency p.recipients db.balances in
            rw (due, alone, open_still) (omega (int_laws, parts nothing, parts added))
      ])
  where
    pending_state :
        (s : MultiPartyPaymentState) (b : Bool)
        → is_open s && b ≡ true
        → s ≡ MultiPartyPaymentState.pending
    pending_state s b h = ground arith

-- The books of `u` with what refunding would pay twice, `a` in sum, and no key twice.
abbrev Accounted : ℕ → ℕ → ℤ → Db → Type 0
Accounted u now a s =
    (assets u s +ℤ sum (refunded_twice u now) s.group_payments ≡ a) × Distinct s.group_payments

expire_one-Processes :
    (u now : ℕ) (a : ℤ)
    → Processes
        (λ (db : Db). db.group_payments)
        (has_expired now)
        (expire_one now)
        (Accounted u now a)
unfolding refunded_twice
expire_one-Processes u now a id p db e due (h, ds) =
    let p' = ended_payment MultiPartyPaymentState.expired now p in
    rw (expire_one-stale now id p db e due) (
      refl,
      (
        omega (
          int_laws,
          parts h,
          parts (counted_zero u p.currency),
          parts (expired_state-assets u now id p db e due),
          parts (sum-set (refunded_twice u now) id p' p db.group_payments e),
        ),
        set-Distinct id p' db.group_payments ds,
      ),
      (p', refl, refl),
    )

-- Where no row is due, no refund is made twice.
none_left-refunded_twice :
    (u now : ℕ) (t : Table MultiPartyPayment)
    → Distinct t
    → ((id : ℕ) (p : MultiPartyPayment) → find id t ≡ some p → has_expired now p ≡ false)
    → sum (refunded_twice u now) t ≡ pos 0
unfolding refunded_twice sum
none_left-refunded_twice u now [] ds none_left = refl
none_left-refunded_twice u now ((id, p) ∷ t) (fresh, ds) none_left =
    let not_due = none_left id p (unfold find in (rw (==-refl id) refl)) in
    let rest = none_left-refunded_twice u now t ds later in
    rw not_due (omega (int_laws, parts rest, parts (counted_zero u p.currency)))
  where
    later : (k : ℕ) (v : MultiPartyPayment) → find k t ≡ some v → has_expired now v ≡ false
    later k v e = elim (Bool-cases (id == k)) [
      | inl same ↦ let here = ==→eq id k same in ground arith
      | inr other ↦ none_left k v (unfold find in (rw other e))
    ]

-- Where no payment's key is given twice, the expiry task returns as many as were pending past
-- their deadline, and leaves no pending payment whose deadline has passed. The books of a token grow by the amounts that
-- were refunded twice: those of the recipients of expired payments without `require_all_accept` who
-- had rejected, whose amount the sender was given back at the rejection.
pub expire_group_payments-assets :
    (u now : ℕ) (db : Db)
    → Distinct db.group_payments
    → ((expire_stale now db).0 ≡ ok (length (get_pending_expired now db.group_payments)))
      × (assets u (expire_stale now db).1
          ≡ assets u db +ℤ sum (refunded_twice u now) db.group_payments)
      × ((id : ℕ) (p : MultiPartyPayment)
          → find id (expire_stale now db).1.group_payments ≡ some p
          → has_expired now p ≡ false)
unfolding expire_stale
expire_group_payments-assets u now db ds =
    let (counts, (kept, ds'), none_left) =
      count_each-Processes (λ (s : Db). s.group_payments) (has_expired now) (expire_one now)
        (Accounted u now (assets u db +ℤ sum (refunded_twice u now) db.group_payments))
        (expire_one-Processes u now (assets u db +ℤ sum (refunded_twice u now) db.group_payments))
        db ds (refl, ds) in
    let nothing =
      none_left-refunded_twice u now (expire_stale now db).1.group_payments ds' none_left in
    (counts, omega (int_laws, parts kept, parts nothing), none_left)
