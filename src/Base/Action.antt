-- ===== src/Base/Action.antt =====
-- A method call on a database session. The session comes back after a raise too, with what was
-- written before it; `transact` is the context manager that commits or rolls back.
use mathlib.Core.Bool.{Bool}
use mathlib.Core.Path.{◌≡◌, refl, ap}
use mathlib.Core.Logic.{◌⊎◌, inl, inr}
use native.Mathlib.Omega.{arith}
use mathlib.Core.Option.{Option, none, some}
use sthrip.Base.Tests.{if◌then◌else◌}

-- The classes of exception that the services raise; `integrity_error` is the database's.
pub data Error : Type 0 where
  value_error lookup_error permission_error runtime_error type_error integrity_error
        attribute_error :
      Error

pub data Result (A : Type 0) : Type 0 where
  ok : A → Result A
  err : Error → Result A

abbrev pub Action : Type 0 → Type 0 → Type 0
Action S A = S → Result A × S

abbrev pub found_or : {A : Type 0} → Option A → Error → Result A
found_or none e = err e
found_or (some a) _ = ok a

module _ {S A : Type 0} where
  abbrev pub pure : A → Action S A
  pure a s = (ok a, s)

  abbrev pub raise : Error → Action S A
  raise e s = (err e, s)

  abbrev pub gets : (S → A) → Action S A
  gets f s = (ok (f s), s)

  abbrev pub or_raise : Option A → Error → Action S A
  or_raise o e s = (found_or o e, s)

infixl 5 ◌>>=◌ ◌>>◌
abbrev pub ◌>>=◌ : {S A B : Type 0} → Action S A → (A → Action S B) → Action S B
◌>>=◌ m f s = let (r, s') = m s in elim r [ ok a ↦ f a s' | err e ↦ (err e, s') ]

abbrev pub ◌>>◌ : {S A B : Type 0} → Action S A → Action S B → Action S B
m >> k = m >>= λ _. k

abbrev pub raise_if : {S : Type 0} → Bool → Error → Action S (Unit {0})
raise_if c e s = (if c then err e else ok tt, s)

abbrev pub modify : {S : Type 0} → (S → S) → Action S (Unit {0})
modify f s = (ok tt, f s)

abbrev pub when : {S : Type 0} → Bool → Action S (Unit {0}) → Action S (Unit {0})
when c m s = if c then m s else (ok tt, s)

abbrev pub settle_state : {S A : Type 0} → S → Result A → S → S
settle_state old (ok _) new = new
settle_state old (err _) new = old

-- `with get_db() as db:` commits on a normal exit and rolls back on an exception.
unfoldable pub transact : {S A : Type 0} → Action S A → Action S A
transact m s = let (r, s') = m s in (r, settle_state s r s')

-- The call ended in an exception.
abbrev pub Raised : {A : Type 0} → Result A → Type 0
Raised (ok _) = ⊥
Raised (err _) = Unit

-- A call that raised has changed nothing once the session is rolled back.
pub transact-Raised :
    {S A : Type 0} (m : Action S A) (s : S) → Raised (m s).0 → (transact m s).1 ≡ s
unfolding transact
transact-Raised m s h = ground arith

pub Result-cases :
    {A : Type 0} (r : Result A) → ((a : A) × (r ≡ ok a)) ⊎ ((e : Error) × (r ≡ err e))
Result-cases (ok a) = inl (a, refl)
Result-cases (err e) = inr (e, refl)

-- A call that goes on after one that returned.
pub bind-ok :
    {S A B : Type 0} (m : Action S A) (f : A → Action S B) (s : S) (a : A) (s' : S)
    → m s ≡ (ok a, s')
    → (m >>= f) s ≡ f a s'
bind-ok {S = S} {B = B} m f s a s' e =
    ap (λ x. elim x.0 as (λ _. Result B × S) [ ok b ↦ f b x.1 | err r ↦ (err r, x.1) ]) e

-- A call raises if its first part does.
pub bind-Raised :
    {S A B : Type 0} (m : Action S A) (f : A → Action S B) (s : S)
    → Raised (m s).0
    → Raised ((m >>= f) s).0
bind-Raised {S = S} {A = A} {B = B} m f s h = raised (m s).0 h
  where
    raised :
        (r : Result A)
        → Raised r
        → Raised (elim r as (λ _. Result B × S) [ ok b ↦ f b (m s).1 | err e ↦ (err e, (m s).1) ]).0
    raised (ok _) never = absurd never
    raised (err _) h = tt

-- A call in two parts that returned: both did, the second where the first had ended.
pub >>=-eq-ok :
    {S A B : Type 0} (m : Action S A) (f : A → Action S B) (s : S) {b : B} {s' : S}
    → (m >>= f) s ≡ (ok b, s')
    → (a : A) × (s1 : S) × (m s ≡ (ok a, s1)) × (f a s1 ≡ (ok b, s'))
>>=-eq-ok {S = S} {A = A} {B = B} m f s {b} {s'} h = split (m s) h
  where
    split :
        (x : Result A × S)
        → ◌≡◌ {A = Result B × S}
            (elim x.0 as (λ _. Result B × S) [ ok a ↦ f a x.1 | err e ↦ (err e, x.1) ])
            (ok b, s')
        → (a : A) × (s1 : S) × (x ≡ (ok a, s1)) × (f a s1 ≡ (ok b, s'))
    split (ok a, s1) e = (a, s1, refl, e)
    split (err r, s1) e = cc
