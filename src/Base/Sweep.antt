-- ===== src/Base/Sweep.antt =====
-- A background task that handles the rows a query has found, one after the other.
use Prim.Native.Nat.{ℕ}
use mathlib.Core.Path.{◌≡◌}
use mathlib.Core.Logic.{inl, inr}
use mathlib.Core.Bool.{Bool, true, false}
use mathlib.Core.Option.{some}
use mathlib.Core.List.{List, [], ◌∷◌}
use native.Mathlib.Omega.{arith}
use sthrip.Base.Tests.{◌==◌, Bool-cases, ==→eq}
use sthrip.Base.Table.{Table, find, set, find-set}
use sthrip.Base.Keys.{mem, AllDue, NoneMissed}

-- The rows with `p` in the table `rows s`, handled by `step`.
module _ {S V : Type 0} (rows : S → Table V) (p : V → Bool) (step : ℕ → S → S) where
  unfoldable pub sweep : List ℕ → S → S
  sweep [] s = s
  sweep (k ∷ ks) s = sweep ks (step k s)

  -- Handling a row keeps `P`, and writes that row alone, which then is no longer one with `p`.
  abbrev pub Handles : (S → Type 0) → Type 0
  Handles P =
      (k : ℕ) (v : V) (s : S)
      → find k (rows s) ≡ some v
      → p v ≡ true
      → P s
      → P (step k s) × ((v' : V) × (p v' ≡ false) × (rows (step k s) ≡ set k v' (rows s)))

  pub AllDue-set :
      (ks : List ℕ) (k : ℕ) (v : V) (t : Table V)
      → mem k ks ≡ false
      → AllDue p ks t
      → AllDue p ks (set k v t)
  AllDue-set [] k v t m d = tt
  AllDue-set (j ∷ js) k v t m ((w, e, pw), once, ds) =
      ((w, ground (arith, find-set j k v t), pw), once, AllDue-set js k v t (ground arith) ds)

  -- Whatever each handling keeps, the task keeps.
  pub sweep-keeps :
      (P : S → Type 0)
      → Handles P
      → (ks : List ℕ) (s : S) → AllDue p ks (rows s)
      → P s
      → P (sweep ks s)
  unfolding sweep
  sweep-keeps P h [] s d ps = ps
  sweep-keeps P h (k ∷ ks) s ((v, e, pv), once, ds) ps =
      let (ps', (v', pv', written)) = h k v s e pv ps in
      sweep-keeps P h ks (step k s) (rw written (AllDue-set ks k v' (rows s) once ds)) ps'

  pub NoneMissed-set :
      (ks : List ℕ) (k : ℕ) (v w : V) (t : Table V)
      → find k t ≡ some w
      → p v ≡ false
      → NoneMissed p (k ∷ ks) t
      → NoneMissed p ks (set k v t)
  NoneMissed-set ks k v w t e pv all j u f pu = elim (Bool-cases (k == j)) [
    | inl same ↦ ground (arith, ==→eq k j same, find-set j k v t)
    | inr other ↦ ground (arith, find-set j k v t, all j u)
  ]

  -- If no row with `p` was missed, none is left.
  pub sweep-done :
      (P : S → Type 0)
      → Handles P
      → (ks : List ℕ) (s : S) → AllDue p ks (rows s)
      → NoneMissed p ks (rows s)
      → P s
      → (k : ℕ) (v : V) → find k (rows (sweep ks s)) ≡ some v
      → p v ≡ false
  unfolding sweep
  sweep-done P h [] s d all ps k v e = elim (Bool-cases (p v)) [
    | inl pv ↦ absurd (never (all k v e pv))
    | inr pv ↦ pv
  ]
    where
      never : ¬ (false ≡ true)
      never q = cc
  sweep-done P h (j ∷ js) s ((w, f, pw), once, ds) all ps k v e =
      let (ps', (v', pv', written)) = h j w s f pw ps in
      sweep-done P h js (step j s) (rw written (AllDue-set js j v' (rows s) once ds))
        (rw written (NoneMissed-set js j v' w (rows s) f pv' all)) ps' k v e
