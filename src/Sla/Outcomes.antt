-- ===== src/Sla/Outcomes.antt =====
-- What each call on a contract changes: that contract and the journal, by a step of its lifecycle.
use sthrip.Base.{
  ℕ, ◌≡◌, ◌⊎◌, String, none, some, Option, inl, inr, arith, true, Option-cases, Bool-cases, ◌==◌,
}
use sthrip.Base.Table.{find, set, set-set, find-set_self}
use sthrip.Base.Action.{ok, err, Error, Result-cases}
use sthrip.Models.Agreements.{
  SlaContract, SlaStatus, is_proposed, is_accepted, is_active_contract, is_delivered,
}
use sthrip.Models.Database.{Db}
use sthrip.Sla.Repo.{
  accepted_contract, activated_contract, delivered_contract, completed_contract, breached_contract,
  disputed_contract,
}
use sthrip.Sla.Service.{
  accept_contract, deliver_contract, verify_contract, dispute_contract, enforce_one, was_met,
  is_stranger,
}

-- What may become of one contract.
pub data Step : Option SlaStatus → Option SlaStatus → Type 0 where
  propose : Step none (some SlaStatus.proposed)
  start : Step (some SlaStatus.proposed) (some SlaStatus.active)
  start_accepted : Step (some SlaStatus.accepted) (some SlaStatus.active)
  deliver : Step (some SlaStatus.active) (some SlaStatus.delivered)
  complete : Step (some SlaStatus.delivered) (some SlaStatus.completed)
  breach : Step (some SlaStatus.active) (some SlaStatus.breached)
  dispute : Step (some SlaStatus.active) (some SlaStatus.disputed)
  dispute_delivered : Step (some SlaStatus.delivered) (some SlaStatus.disputed)

-- Only contracts and the journal differ.
abbrev pub SameButContracts : Db → Db → Type 0
SameButContracts db db' = db' ≡ record db { contracts = db'.contracts; journal = db'.journal }

pub then-same : (a b c : Db) → SameButContracts a b → SameButContracts b c → SameButContracts a c
then-same a b c h k = ground arith

-- The contracts are the same, or contract `id` has taken a step.
abbrev pub Steps : ℕ → Db → Db → Type 0
Steps id db db' =
    (db'.contracts ≡ db.contracts)
    ⊎ ((c : SlaContract) × (c' : SlaContract) × (find id db.contracts ≡ some c)
        × Step (some c.state) (some c'.state)
        × (db'.contracts ≡ set id c' db.contracts))

active_state : (s : SlaStatus) → is_active_contract s ≡ true → s ≡ SlaStatus.active
active_state s h = ground arith

delivered_state : (s : SlaStatus) → is_delivered s ≡ true → s ≡ SlaStatus.delivered
delivered_state s h = ground arith

pub deliver_contract-same :
    (now id provider : ℕ) (hash : String) (db : Db)
    → SameButContracts db (deliver_contract now id provider hash db).1
unfolding deliver_contract
deliver_contract-same now id provider hash db = ground arith

pub deliver_contract-Steps :
    (now id provider : ℕ) (hash : String) (db : Db)
    → Steps id db (deliver_contract now id provider hash db).1
unfolding deliver_contract
deliver_contract-Steps now id provider hash db = elim (Option-cases (find id db.contracts)) [
  | inl e ↦ inl (ground arith)
  | inr (c, e) ↦ elim (Bool-cases (is_active_contract c.state)) [
    | inl st ↦ elim (Bool-cases (c.provider_id == provider)) [
      | inl own ↦ inr (
        c,
        delivered_contract now hash c,
        e,
        rw (active_state c.state st) Step.deliver,
        ground (arith, find-set_self id (delivered_contract now hash c) c db.contracts e),
      )
      | inr other ↦ inl (ground arith)
    ]
    | inr st ↦ inl (ground arith)
  ]
]

pub verify_contract-same :
    (id consumer : ℕ) (db : Db) → SameButContracts db (verify_contract id consumer db).1
unfolding verify_contract
verify_contract-same id consumer db = ground arith

pub verify_contract-Steps :
    (id consumer : ℕ) (db : Db) → Steps id db (verify_contract id consumer db).1
unfolding verify_contract
verify_contract-Steps id consumer db = elim (Option-cases (find id db.contracts)) [
  | inl e ↦ inl (ground arith)
  | inr (c, e) ↦ elim (Bool-cases (is_delivered c.state)) [
    | inl st ↦ elim (Bool-cases (c.consumer_id == consumer)) [
      | inl own ↦
          let done = completed_contract (was_met c.delivery_time_actual c.delivery_time_secs) c in
          inr (
            c,
            done,
            e,
            rw (delivered_state c.state st) Step.complete,
            ground (arith, find-set_self id done c db.contracts e),
          )
      | inr other ↦ inl (ground arith)
    ]
    | inr st ↦ inl (ground arith)
  ]
]

pub dispute_contract-same :
    (id agent : ℕ) (db : Db) → SameButContracts db (dispute_contract id agent db).1
unfolding dispute_contract
dispute_contract-same id agent db = ground arith

pub dispute_contract-Steps : (id agent : ℕ) (db : Db) → Steps id db (dispute_contract id agent db).1
unfolding dispute_contract
dispute_contract-Steps id agent db = elim (Option-cases (find id db.contracts)) [
  | inl e ↦ inl (ground arith)
  | inr (c, e) ↦ elim (Bool-cases (is_stranger agent c)) [
    | inl out ↦ inl (ground arith)
    | inr party ↦ elim (Bool-cases (is_active_contract c.state)) [
      | inl st ↦ inr (
        c,
        disputed_contract c,
        e,
        rw (active_state c.state st) Step.dispute,
        ground (arith, find-set_self id (disputed_contract c) c db.contracts e),
      )
      | inr no_ ↦ elim (Bool-cases (is_delivered c.state)) [
        | inl st ↦ inr (
          c,
          disputed_contract c,
          e,
          rw (delivered_state c.state st) Step.dispute_delivered,
          ground (arith, find-set_self id (disputed_contract c) c db.contracts e),
        )
        | inr neither ↦ inl (ground arith)
      ]
    ]
  ]
]

pub enforce_one-same : (id : ℕ) (db : Db) → SameButContracts db (enforce_one id db).1
unfolding enforce_one
enforce_one-same id db = ground arith

pub enforce_one-Steps : (id : ℕ) (db : Db) → Steps id db (enforce_one id db).1
unfolding enforce_one
enforce_one-Steps id db = elim (Option-cases (find id db.contracts)) [
  | inl e ↦ inl (ground arith)
  | inr (c, e) ↦ elim (Bool-cases (is_active_contract c.state)) [
    | inl st ↦
        inr (c, breached_contract c, e, rw (active_state c.state st) Step.breach, ground arith)
    | inr st ↦ inl (ground arith)
  ]
]

pub accept_contract-same :
    (now id provider : ℕ) (db : Db) → SameButContracts db (accept_contract now id provider db).1
unfolding accept_contract
accept_contract-same now id provider db = ground arith

proposed_state : (s : SlaStatus) → is_proposed s ≡ true → s ≡ SlaStatus.proposed
proposed_state s h = ground arith

accepted_state : (s : SlaStatus) → is_accepted s ≡ true → s ≡ SlaStatus.accepted
accepted_state s h = ground arith

pub accept_contract-Steps :
    (now id provider : ℕ) (db : Db) → Steps id db (accept_contract now id provider db).1
unfolding accept_contract
accept_contract-Steps now id provider db = elim (Option-cases (find id db.contracts)) [
  | inl e ↦ inl (ground arith)
  | inr (c, e) ↦ elim (Bool-cases (c.provider_id == provider)) [
    | inr other ↦ inl (ground arith)
    | inl own ↦ elim (Bool-cases (is_proposed c.state)) [
      | inl st ↦
          let stored = find-set_self id (accepted_contract c) c db.contracts e in
          let started = activated_contract now (accepted_contract c) in
          inr (
            c,
            started,
            e,
            rw (proposed_state c.state st) Step.start,
            ground (
              arith,
              stored,
              set-set id started (accepted_contract c) db.contracts,
              find-set_self id started (accepted_contract c)
                  (set id (accepted_contract c) db.contracts) stored,
            ),
          )
      | inr no_ ↦ elim (Bool-cases (is_accepted c.state)) [
        | inl st ↦ inr (
          c,
          activated_contract now c,
          e,
          rw (accepted_state c.state st) Step.start_accepted,
          ground (arith, find-set_self id (activated_contract now c) c db.contracts e),
        )
        | inr neither ↦ inl (ground arith)
      ]
    ]
  ]
]

-- The task's round never raises.
pub enforce_one-ok : (id : ℕ) (db : Db) → (n : ℕ) × ((enforce_one id db).0 ≡ ok n)
enforce_one-ok id db = elim (Result-cases (enforce_one id db).0) [
  | inl returned ↦ returned
  | inr (x, raised) ↦ absurd (never x raised)
]
  where
    never : (x : Error) → (enforce_one id db).0 ≡ err x → ⊥
    never x raised = unfold enforce_one in ground arith
