-- ===== src/Escrow/Machine.antt =====
-- The lifecycle of deals as an abstract machine.
use sthrip.Base.{
  ℕ, ◌≡◌, none, some, Option, refl, false, inl, inr, ◌==◌, ==→eq, ==-refl, Bool-cases,
}
use mathlib.Core.Path.{subst}
use sthrip.Base.Table.{Table, find, set, find-set}
use sthrip.Base.Action.{Action, Result-cases, transact}
use sthrip.Models.Escrow.{EscrowDeal, EscrowStatus}
use sthrip.Models.Database.{Db}

-- The abstract state: which deals there are, and the status of each.
abbrev pub Statuses : Type 0
Statuses = ℕ → Option EscrowStatus

abbrev pub status_in : Option EscrowDeal → Option EscrowStatus
status_in none = none
status_in (some d) = some d.status

abbrev pub statuses : Table EscrowDeal → Statuses
statuses t k = status_in (find k t)

abbrev pub view : Db → Statuses
view db = statuses db.deals

-- What may become of one deal.
pub data Step : Option EscrowStatus → Option EscrowStatus → Type 0 where
  open_deal : Step none (some EscrowStatus.created)
  accept : Step (some EscrowStatus.created) (some EscrowStatus.accepted)
  cancel : Step (some EscrowStatus.created) (some EscrowStatus.cancelled)
  deliver : Step (some EscrowStatus.accepted) (some EscrowStatus.delivered)
  release : Step (some EscrowStatus.delivered) (some EscrowStatus.completed)
  release_last_part : Step (some EscrowStatus.accepted) (some EscrowStatus.completed)

-- A step of the machine: nothing changes, or one deal takes a step and the others stay.
pub data Move (f g : Statuses) : Type 0 where
  stay : ((k : ℕ) → g k ≡ f k) → Move f g
  step : (id : ℕ) → Step (f id) (g id) → ((k : ℕ) → (id == k) ≡ false → g k ≡ f k) → Move f g

-- A run of the machine.
pub data Run : Statuses → Statuses → Type 0 where
  finish : (f : Statuses) → Run f f
  next : (f g h : Statuses) → Move f g → Run g h → Run f h

pub idle : (db : Db) → Move (view db) (view db)
idle db = Move.stay (λ k. refl)

-- Writing the row of a deal that is there.
module _ (id : ℕ) (d d' : EscrowDeal) (t : Table EscrowDeal) (e : find id t ≡ some d) where
  others : (k : ℕ) → (id == k) ≡ false → statuses (set id d' t) k ≡ statuses t k
  others k other = rw (find-set k id d' t, other) refl

  written_status : statuses (set id d' t) id ≡ some d'.status
  written_status = rw (find-set id id d' t, ==-refl id, e) refl

  pub write-Move :
      (s s' : EscrowStatus)
      → d.status ≡ s
      → d'.status ≡ s'
      → Step (some s) (some s')
      → Move (statuses t) (statuses (set id d' t))
  write-Move s s' st st' moved = Move.step id (rw (written_status, e, st, st') moved) others

  pub write-stay : d'.status ≡ d.status → Move (statuses t) (statuses (set id d' t))
  write-stay same = Move.stay (λ k. elim (Bool-cases (id == k)) [
    | inl here ↦
        let stays : statuses (set id d' t) id ≡ statuses t id = rw (written_status, e, same) refl in
        subst (λ j. statuses (set id d' t) j ≡ statuses t j) (==→eq id k here) stays
    | inr other ↦ others k other
  ])

pub transact-Move :
    {A : Type 0} (m : Action Db A) (db : Db)
    → Move (view db) (view (m db).1)
    → Move (view db) (view (transact m db).1)
unfolding transact
transact-Move m db after = elim (Result-cases (m db).0) [
  | inl (a, e) ↦ rw e after
  | inr (x, e) ↦ rw e (idle db)
]
