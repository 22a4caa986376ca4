-- ===== src/Base/Keys.antt =====
-- The keys of a table: none twice, and the keys of the rows that a query finds.
use Prim.Native.Nat.{ℕ}
use mathlib.Core.Path.{◌≡◌, refl}
use mathlib.Core.Logic.{inl, inr}
use mathlib.Core.Bool.{Bool, true, false, ◌||◌}
use mathlib.Core.Option.{none, some}
use mathlib.Core.List.{List, [], ◌∷◌}
use native.Mathlib.Omega.{arith}
use sthrip.Base.Tests.{◌==◌, if◌then◌else◌, length, Bool-cases, ==-refl}
use sthrip.Base.Table.{Table, find, set}

abbrev pub mem : ℕ → List ℕ → Bool
mem k [] = false
mem k (j ∷ js) = j == k || mem k js

module _ {V : Type 0} where
  -- No key is given twice.
  abbrev pub Distinct : Table V → Type 0
  Distinct [] = Unit
  Distinct ((k, v) ∷ t) = (find k t ≡ none) × Distinct t

  pub length-set : (k : ℕ) (v : V) (t : Table V) → length (set k v t) ≡ length t
  unfolding set
  length-set k v [] = refl
  length-set k v ((j, w) ∷ t) = ground (arith, length-set k v t)

  pub find-set-none : (j k : ℕ) (v : V) (t : Table V) → find j t ≡ none → find j (set k v t) ≡ none
  unfolding find set
  find-set-none j k v [] h = refl
  find-set-none j k v ((i, w) ∷ t) h = ground (arith, find-set-none j k v t)

  pub set-Distinct : (k : ℕ) (v : V) (t : Table V) → Distinct t → Distinct (set k v t)
  unfolding set
  set-Distinct k v [] h = tt
  set-Distinct k v ((j, w) ∷ t) h = ground (arith, set-Distinct k v t, find-set-none j k v t)

  -- The keys of the rows with `p`, in the table's order.
  unfoldable pub keys_where : (V → Bool) → Table V → List ℕ
  keys_where p [] = []
  keys_where p ((k, v) ∷ t) = let rest = keys_where p t in if p v then k ∷ rest else rest

  -- Each key has a row with `p`, and is there once.
  abbrev pub AllDue : (V → Bool) → List ℕ → Table V → Type 0
  AllDue p [] t = Unit
  AllDue p (k ∷ ks) t =
      ((v : V) × (find k t ≡ some v) × (p v ≡ true)) × (mem k ks ≡ false) × AllDue p ks t

  -- Each row with `p` has its key there.
  abbrev pub NoneMissed : (V → Bool) → List ℕ → Table V → Type 0
  NoneMissed p ks t = (k : ℕ) (v : V) → find k t ≡ some v → p v ≡ true → mem k ks ≡ true

  -- A row in front, whose key the others have not.
  AllDue-cons :
      (p : V → Bool) (ks : List ℕ) (j : ℕ) (w : V) (t : Table V)
      → find j t ≡ none
      → AllDue p ks t
      → AllDue p ks ((j, w) ∷ t)
  unfolding find
  AllDue-cons p [] j w t h d = tt
  AllDue-cons p (k ∷ ks) j w t h ((v, e, pv), once, ds) =
      ((v, ground arith, pv), once, AllDue-cons p ks j w t h ds)

  not-mem-keys_where :
      (p : V → Bool) (k : ℕ) (t : Table V) → find k t ≡ none → mem k (keys_where p t) ≡ false
  unfolding find keys_where
  not-mem-keys_where p k [] h = refl
  not-mem-keys_where p k ((j, w) ∷ t) h = ground (arith, not-mem-keys_where p k t)

  pub keys_where-AllDue : (p : V → Bool) (t : Table V) → Distinct t → AllDue p (keys_where p t) t
  unfolding keys_where
  keys_where-AllDue p [] d = tt
  keys_where-AllDue p ((k, v) ∷ t) (h, d) =
      let rest = AllDue-cons p (keys_where p t) k v t h (keys_where-AllDue p t d) in
      elim (Bool-cases (p v)) [
        | inl due ↦
            rw due ((v, unfold find in (rw (==-refl k)), due), not-mem-keys_where p k t h, rest)
        | inr not_due ↦ rw not_due rest
      ]

  pub keys_where-NoneMissed : (p : V → Bool) (t : Table V) → NoneMissed p (keys_where p t) t
  unfolding find keys_where
  keys_where-NoneMissed p [] k v e pv = cc
  keys_where-NoneMissed p ((j, w) ∷ t) k v e pv = ground (arith, keys_where-NoneMissed p t k v)
