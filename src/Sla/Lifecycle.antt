-- ===== src/Sla/Lifecycle.antt =====
-- Runs of calls on contracts.
use sthrip.Base.{ℕ, String, List, [], ◌∷◌, refl, inl, inr, Option}
use sthrip.Base.Table.{set}
use sthrip.Base.Counts.{Counts, count_each-Counts}
use sthrip.Base.Action.{Action, transact, Result-cases}
use sthrip.Base.Machine.{Run, statuses, write-Move, join-Run}
use sthrip.Models.Agreements.{SlaContract, SlaStatus}
use sthrip.Models.Database.{Db}
use sthrip.Sla.Repo
use sthrip.Sla.Repo.{Terms}
use sthrip.Sla.Service.{
  accept_contract, deliver_contract, verify_contract, dispute_contract, enforce_one, enforce_sla,
}
use sthrip.Sla.Outcomes.{
  Step, Steps, SameButContracts, accept_contract-same, accept_contract-Steps, deliver_contract-same,
  deliver_contract-Steps, verify_contract-same, verify_contract-Steps, dispute_contract-same,
  dispute_contract-Steps, enforce_one-same, enforce_one-Steps, enforce_one-ok, then-same,
}

-- The abstract state: which contracts there are, and the status of each.
abbrev pub view : Db → ℕ → Option SlaStatus
view db = statuses (λ (c : SlaContract). c.state) db.contracts

-- A call on a contract that is there, or the task.
pub data Later : Type 0 where
  accept : ℕ → ℕ → ℕ → Later
  deliver : ℕ → ℕ → ℕ → String → Later
  verify : ℕ → ℕ → Later
  dispute : ℕ → ℕ → Later
  enforce : ℕ → Later

unfoldable pub perform_later : Later → Db → Db
perform_later (Later.accept now id provider) db = (transact (accept_contract now id provider) db).1
perform_later (Later.deliver now id provider hash) db =
    (transact (deliver_contract now id provider hash) db).1
perform_later (Later.verify id consumer) db = (transact (verify_contract id consumer) db).1
perform_later (Later.dispute id agent) db = (transact (dispute_contract id agent) db).1
perform_later (Later.enforce now) db = (transact (enforce_sla now) db).1

unfoldable pub perform_laters : List Later → Db → Db
perform_laters [] db = db
perform_laters (c ∷ cs) db = perform_laters cs (perform_later c db)

-- What one or more calls change: contracts, by a run of the machine, and the journal.
abbrev pub Proceeds : Db → Db → Type 0
Proceeds db db' = SameButContracts db db' × Run Step (view db) (view db')

stands : (db : Db) → Proceeds db db
stands db = (refl, Run.finish (view db))

then-Proceeds : (a b c : Db) → Proceeds a b → Proceeds b c → Proceeds a c
then-Proceeds a b c (h, r) (k, r') =
    (then-same a b c h k, join-Run Step (view a) (view b) (view c) r r')

steps-Run : (id : ℕ) (db db' : Db) → Steps id db db' → Run Step (view db) (view db')
steps-Run id db db' (inl same) = rw same (Run.finish (view db))
steps-Run id db db' (inr (c, c', e, moved, written)) =
    let after = statuses (λ (c : SlaContract). c.state) (set id c' db.contracts) in
    rw written (
      Run.next (view db) after after
        (write-Move (λ (c : SlaContract). c.state) Step id c c' db.contracts e moved)
        (Run.finish after))

transacted :
    {A : Type 0} (m : Action Db A) (db : Db) → Proceeds db (m db).1 → Proceeds db (transact m db).1
unfolding transact
transacted m db h = elim (Result-cases (m db).0) [
  | inl (_, e) ↦ rw e h
  | inr (_, e) ↦ rw e (stands db)
]

enforce_sla-Proceeds : (now : ℕ) (db : Db) → Proceeds db (enforce_sla now db).1
unfolding enforce_sla
enforce_sla-Proceeds now db =
    (count_each-Counts (Proceeds db) enforce_one breaches
      (Repo.get_active_past_deadline now db.contracts) db (stands db)).1
  where
    breaches : (id : ℕ) (s : Db) → Proceeds db s → Counts (Proceeds db) (enforce_one id s)
    breaches id s h =
        let s' = (enforce_one id s).1 in
        (
          enforce_one-ok id s,
          then-Proceeds db s s' h
              (enforce_one-same id s, steps-Run id s s' (enforce_one-Steps id s)),
        )

perform_later-Proceeds : (c : Later) (db : Db) → Proceeds db (perform_later c db)
unfolding perform_later
perform_later-Proceeds (Later.accept now id provider) db =
    let call = accept_contract now id provider in
    transacted call db (
      accept_contract-same now id provider db,
      steps-Run id db (call db).1 (accept_contract-Steps now id provider db),
    )
perform_later-Proceeds (Later.deliver now id provider hash) db =
    let call = deliver_contract now id provider hash in
    transacted call db (
      deliver_contract-same now id provider hash db,
      steps-Run id db (call db).1 (deliver_contract-Steps now id provider hash db),
    )
perform_later-Proceeds (Later.verify id consumer) db =
    let call = verify_contract id consumer in
    transacted call db (
      verify_contract-same id consumer db,
      steps-Run id db (call db).1 (verify_contract-Steps id consumer db),
    )
perform_later-Proceeds (Later.dispute id agent) db =
    let call = dispute_contract id agent in
    transacted call db (
      dispute_contract-same id agent db,
      steps-Run id db (call db).1 (dispute_contract-Steps id agent db),
    )
perform_later-Proceeds (Later.enforce now) db =
    transacted (enforce_sla now) db (enforce_sla-Proceeds now db)

-- Any calls on contracts that are there, refused ones and the task's rounds included, are a run of
-- the machine: each takes contracts along the steps of the lifecycle, one at a time, or leaves them.
-- They change contracts and the journal and nothing else: no balance, no deal, no fee.
pub perform_laters-Proceeds : (cs : List Later) (db : Db) → Proceeds db (perform_laters cs db)
unfolding perform_laters
perform_laters-Proceeds [] db = stands db
perform_laters-Proceeds (c ∷ cs) db =
    let db' = perform_later c db in
    then-Proceeds db db' (perform_laters cs db') (perform_later-Proceeds c db)
      (perform_laters-Proceeds cs db')
