-- ===== src/Base/Table.antt =====
-- A database table as the list of its rows, keyed by a number (a UUID is only compared).
use Prim.Native.Nat.{ℕ}
use mathlib.Core.Path.{◌≡◌, refl, subst}
use mathlib.Core.Logic.{inl, inr}
use mathlib.Core.Bool.{Bool}
use mathlib.Core.Option.{Option, none, some}
use mathlib.Core.List.{List, [], ◌∷◌}
use native.Mathlib.Omega.{arith}
use sthrip.Base.Tests.{◌==◌, if◌then◌else◌, Bool-cases}
use sthrip.Base.Int.{ℤ, pos, ◌+ℤ◌, int_laws}

abbrev pub Table : Type 0 → Type 0
Table V = List (ℕ × V)

module _ {V : Type 0} where
  -- `query.filter(id == k).first()`
  unfoldable pub find : ℕ → Table V → Option V
  find k [] = none
  find k ((j, v) ∷ t) = if j == k then some v else find k t

  -- Writes the row of a key that the table has.
  unfoldable pub set : ℕ → V → Table V → Table V
  set k v [] = []
  set k v ((j, w) ∷ t) = if j == k then (j, v) ∷ t else (j, w) ∷ set k v t

  -- `query.filter(id == k, p).update(f)`: the number of rows changed, and the table.
  abbrev pub update_where : ℕ → (V → Bool) → (V → V) → Table V → ℕ × Table V
  update_where k p f t = elim (find k t) [
    | none ↦ (0, t)
    | some v ↦ if p v then (1, set k (f v) t) else (0, t)
  ]

  pub find-set :
      (j k : ℕ) (v : V) (t : Table V)
      → find j (set k v t)
        ≡ (if k == j then elim (find j t) [ none ↦ none | some _ ↦ some v ] else find j t)
  unfolding find set
  find-set j k v [] = ground arith
  find-set j k v ((i, w) ∷ t) = ground (arith, find-set j k v t)

  pub find-set_self :
      (k : ℕ) (v w : V) (t : Table V) → find k t ≡ some w → find k (set k v t) ≡ some v
  find-set_self k v w t h = ground (arith, find-set k k v t)

  pub set-set : (k : ℕ) (v w : V) (t : Table V) → set k v (set k w t) ≡ set k v t
  unfolding set
  set-set k v w [] = refl
  set-set k v w ((i, u) ∷ t) = ground (arith, set-set k v w t)

  -- Every row satisfies `P`.
  abbrev pub All : (V → Type 0) → Table V → Type 0
  All P [] = Unit
  All P ((_, v) ∷ t) = P v × All P t

  pub find-All : (P : V → Type 0) (k : ℕ) (v : V) (t : Table V) → All P t → find k t ≡ some v → P v
  unfolding find
  find-All P k v [] h e = cc
  find-All P k v ((i, u) ∷ t) h e = elim (Bool-cases (i == k)) [
    | inl same ↦ let here : u ≡ v = ground arith in subst P here h.0
    | inr other ↦ find-All P k v t h.1 (rw other at e)
  ]

  pub set-All : (P : V → Type 0) (k : ℕ) (v : V) (t : Table V) → All P t → P v → All P (set k v t)
  unfolding set
  set-All P k v [] h p = tt
  set-All P k v ((i, u) ∷ t) h p = elim (Bool-cases (i == k)) [
    | inl same ↦ rw same (p, h.1)
    | inr other ↦ rw other (h.0, set-All P k v t h.1 p)
  ]

  -- The sum of a quantity over the rows.
  unfoldable pub sum : (V → ℤ) → Table V → ℤ
  sum f [] = pos 0
  sum f ((_, v) ∷ t) = f v +ℤ sum f t

  pub sum-set :
      (f : V → ℤ) (k : ℕ) (v w : V) (t : Table V)
      → find k t ≡ some w
      → sum f (set k v t) +ℤ f w ≡ sum f t +ℤ f v
  unfolding find set sum
  sum-set f k v w [] h = cc
  sum-set f k v w ((i, u) ∷ t) h = grind (int_laws, sum-set f k v w t)
