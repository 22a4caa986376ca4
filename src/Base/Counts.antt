-- ===== src/Base/Counts.antt =====
-- Background tasks that return how many rows they handled.
use Prim.Native.Nat.{ℕ, ◌+◌}
use mathlib.Core.Path.{◌≡◌, refl, ap, ◌∙◌}
use mathlib.Core.Logic.{inl, inr}
use mathlib.Core.Bool.{Bool, true, false}
use mathlib.Core.Option.{some}
use mathlib.Core.List.{List, [], ◌∷◌}
use native.Mathlib.Omega.{arith}
use sthrip.Base.Tests.{Bool-cases, length}
use sthrip.Base.Int.{ℤ, pos, ◌+ℤ◌, int_laws, parts}
use sthrip.Base.Table.{Table, find, set}
use sthrip.Base.Keys.{
  Distinct, keys_where, AllDue, NoneMissed, keys_where-AllDue, keys_where-NoneMissed,
}
use sthrip.Base.Sweep.{AllDue-set, NoneMissed-set}
use sthrip.Base.Action.{Action, Result, ok, err, pure, bind-ok, ◌>>=◌}

-- The call returns a number, and what it leaves satisfies `P`.
abbrev pub Counts : {S : Type 0} → (S → Type 0) → Result ℕ × S → Type 0
Counts P (r, s) = ((n : ℕ) × (r ≡ ok n)) × P s

-- A loop over keys that adds up what its calls return.
unfoldable pub count_each : {S : Type 0} → (ℕ → Action S ℕ) → List ℕ → Action S ℕ
count_each act [] = pure 0
count_each act (k ∷ ks) = do n ← act k; m ← count_each act ks; pure (n + m)

module _ {S : Type 0} (P : S → Type 0) where
  -- A number made from that of a call.
  pub then-Counts :
      (f : ℕ → ℕ) (x : Result ℕ × S)
      → Counts P x
      → Counts P (elim x.0 [ ok n ↦ (ok (f n), x.1) | err e ↦ (err e, x.1) ])
  then-Counts f (ok n, s) (_, h) = ((f n, refl), h)
  then-Counts f (err e, s) ((n, never), h) = cc

  -- The rest of a task after a call that counts.
  pub after-Counts :
      (f : ℕ → Action S ℕ) (x : Result ℕ × S)
      → ((n : ℕ) (s : S) → P s → Counts P (f n s))
      → Counts P x
      → Counts P (elim x.0 [ ok n ↦ f n x.1 | err e ↦ (err e, x.1) ])
  after-Counts f (ok n, s) rest (_, h) = rest n s h
  after-Counts f (err e, s) rest ((n, never), h) = cc

  pub count_each-Counts :
      (act : ℕ → Action S ℕ)
      → ((k : ℕ) (s : S) → P s → Counts P (act k s))
      → (ks : List ℕ) (s : S) → P s
      → Counts P (count_each act ks s)
  unfolding count_each
  count_each-Counts act keeps [] s h = ((0, refl), h)
  count_each-Counts act keeps (k ∷ ks) s h =
      after-Counts (λ n s'. (count_each act ks >>= λ m. pure (n + m)) s') (act k s)
        (λ n s' hs.
          then-Counts (λ m. n + m) (count_each act ks s') (count_each-Counts act keeps ks s' hs))
        (keeps k s h)

-- The loop on one more key, whose call returned.
count_each-cons :
    {S : Type 0} (act : ℕ → Action S ℕ) (k : ℕ) (ks : List ℕ) (s s1 s2 : S) (n m : ℕ)
    → act k s ≡ (ok n, s1)
    → count_each act ks s1 ≡ (ok m, s2)
    → count_each act (k ∷ ks) s ≡ (ok (n + m), s2)
unfolding count_each
count_each-cons act k ks s s1 s2 n m e f =
    bind-ok (act k) (λ n. count_each act ks >>= λ m. pure (n + m)) s n s1 e
    ∙ bind-ok (count_each act ks) (λ m. pure (n + m)) s1 m s2 f

-- Whatever each call keeps, raising or not, the loop keeps.
pub count_each-keeps :
    {S : Type 0} (P : S → Type 0) (act : ℕ → Action S ℕ)
    → ((k : ℕ) (s : S) → P s → P (act k s).1)
    → (ks : List ℕ) (s : S) → P s
    → P (count_each act ks s).1
unfolding count_each
count_each-keeps P act keeps [] s h = h
count_each-keeps {S = S} P act keeps (k ∷ ks) s h =
    go (count_each-keeps P act keeps ks) (act k s) (keeps k s h)
  where
    last : (n : ℕ) (x : Result ℕ × S) → P x.1 → P (((λ _. x) >>= λ m. pure (n + m)) s).1
    last n (ok m, s') h = h
    last n (err e, s') h = h

    go :
        ((s' : S) → P s' → P (count_each act ks s').1)
        → (x : Result ℕ × S) → P x.1
        → P (((λ _. x) >>= λ n. count_each act ks >>= λ m. pure (n + m)) s).1
    go rest (ok n, s') h = last n (count_each act ks s') (rest s' h)
    go rest (err e, s') h = h

-- A loop whose calls return how much they add to a measure, and keep `P`.
module _ {S : Type 0} (measure : S → ℤ) (P : S → Type 0) where
  abbrev pub Adds : S → Result ℕ × S → Type 0
  Adds s x = (n : ℕ) × (s' : S) × (x ≡ (ok n, s')) × (measure s' ≡ measure s +ℤ pos n) × P s'

  pub count_each-Adds :
      (act : ℕ → Action S ℕ)
      → ((k : ℕ) (s : S) → P s → Adds s (act k s))
      → (ks : List ℕ) (s : S) → P s
      → Adds s (count_each act ks s)
  count_each-Adds act adds [] s h = (0, s, unfold count_each in refl, omega int_laws, h)
  count_each-Adds act adds (k ∷ ks) s h =
      let (n, s1, e, more, h1) = adds k s h in
      let (m, s2, f, rest, h2) = count_each-Adds act adds ks s1 h1 in
      (
        n + m,
        s2,
        count_each-cons act k ks s s1 s2 n m e f,
        omega (int_laws, parts more, parts rest),
        h2,
      )

-- A loop over the rows with `p`, each of which a call of `act` handles.
module _ {S V : Type 0} (rows : S → Table V) (p : V → Bool) (act : ℕ → Action S ℕ) where
  -- The call counts one, keeps `P`, and writes its row alone, which then is no longer one with `p`.
  abbrev pub Processes : (S → Type 0) → Type 0
  Processes P =
      (k : ℕ) (v : V) (s : S)
      → find k (rows s) ≡ some v
      → p v ≡ true
      → P s
      → ((act k s).0 ≡ ok 1)
        × P (act k s).1
        × ((v' : V) × (p v' ≡ false) × (rows (act k s).1 ≡ set k v' (rows s)))

  -- No row with `p` is left.
  abbrev pub NoneLeft : S → Type 0
  NoneLeft s = (k : ℕ) (v : V) → find k (rows s) ≡ some v → p v ≡ false

  count_all :
      (P : S → Type 0)
      → Processes P
      → (ks : List ℕ) (s : S) → AllDue p ks (rows s)
      → NoneMissed p ks (rows s)
      → P s
      → (s' : S) × (count_each act ks s ≡ (ok (length ks), s')) × P s' × NoneLeft s'
  count_all P h [] s d all ps = (s, unfold count_each in refl, ps, none_left)
    where
      none_left : NoneLeft s
      none_left k v e = elim (Bool-cases (p v)) [
        | inl pv ↦ absurd (never (all k v e pv))
        | inr pv ↦ pv
      ]
        where
          never : ¬ (false ≡ true)
          never q = cc
  count_all P h (k ∷ ks) s ((w, f, pw), once, ds) all ps =
      let s1 : S = (act k s).1 in
      let (one, ps1, (v', pv', written)) = h k w s f pw ps in
      let (s2, rest, ps2, none_left) =
        count_all P h ks s1
          (rw written (AllDue-set rows p (λ k s. (act k s).1) ks k v' (rows s) once ds))
          (rw written (NoneMissed-set rows p (λ k s. (act k s).1) ks k v' w (rows s) f pv' all))
          ps1 in
      (
        s2,
        count_each-cons act k ks s s1 s2 1 (length ks) (ap (λ r. (r, s1)) one) rest
            ∙ ap (λ n. (ok n, s2)) (omega arith),
        ps2,
        none_left,
      )

  -- Over the keys that a query finds, where no key is given twice: the loop counts them all.
  pub count_each-Processes :
      (P : S → Type 0)
      → Processes P
      → (s : S) → Distinct (rows s)
      → P s
      → let x = count_each act (keys_where p (rows s)) s in
        (x.0 ≡ ok (length (keys_where p (rows s)))) × P x.1 × NoneLeft x.1
  count_each-Processes P h s ds ps =
      let (s', done, ps', none_left) =
        count_all P h (keys_where p (rows s)) s (keys_where-AllDue p (rows s) ds)
          (keys_where-NoneMissed p (rows s)) ps in
      rw done (refl, ps', none_left)
