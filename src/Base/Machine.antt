-- ===== src/Base/Machine.antt =====
-- The statuses of a table's rows as an abstract machine: which rows there are, and the status of each.
use Prim.Native.Nat.{ℕ}
use mathlib.Core.Path.{◌≡◌, refl}
use mathlib.Core.Bool.{false}
use mathlib.Core.Option.{Option, none, some}
use mathlib.Core.List.{◌∷◌}
use sthrip.Base.Tests.{◌==◌, ==-refl}
use sthrip.Base.Table.{Table, find, set, find-set}

-- A step of the machine: nothing changes, or one row takes a step of `Step` and the others stay.
pub data Move {St : Type 0} (Step : Option St → Option St → Type 0) (f g : ℕ → Option St)
    : Type 0 where
  stay : ((k : ℕ) → g k ≡ f k) → Move Step f g
  step : (id : ℕ) → Step (f id) (g id) → ((k : ℕ) → (id == k) ≡ false → g k ≡ f k) → Move Step f g

-- A run of the machine.
pub data Run {St : Type 0} (Step : Option St → Option St → Type 0)
    : (ℕ → Option St) → (ℕ → Option St) → Type 0 where
  finish : (f : ℕ → Option St) → Run Step f f
  next : (f g h : ℕ → Option St) → Move Step f g → Run Step g h → Run Step f h

module _ {V St : Type 0} (status : V → St) where
  abbrev pub status_in : Option V → Option St
  status_in none = none
  status_in (some v) = some (status v)

  abbrev pub statuses : Table V → ℕ → Option St
  statuses t k = status_in (find k t)

  module _ (Step : Option St → Option St → Type 0) where
    -- Writing a row that is there.
    pub write-Move :
        (id : ℕ) (v v' : V) (t : Table V)
        → find id t ≡ some v
        → Step (some (status v)) (some (status v'))
        → Move Step (statuses t) (statuses (set id v' t))
    write-Move id v v' t e moved =
        Move.step id (rw (find-set id id v' t, ==-refl id, e) moved)
          λ k other. rw (find-set k id v' t, other) refl

    -- A new row, whose key no other has.
    pub add-Move :
        (id : ℕ) (v : V) (t : Table V)
        → find id t ≡ none
        → Step none (some (status v))
        → Move Step (statuses t) (statuses ((id, v) ∷ t))
    unfolding find
    add-Move id v t e moved = Move.step id (rw (==-refl id, e) moved) (λ k other. rw other refl)

pub join-Run :
    {St : Type 0} (Step : Option St → Option St → Type 0) (f g h : ℕ → Option St)
    → Run Step f g
    → Run Step g h
    → Run Step f h
join-Run Step f g h (Run.finish _) r = r
join-Run Step f g h (Run.next _ g' _ m r) r' = Run.next f g' h m (join-Run Step g' g h r r')
