-- ===== src/Ledger/Held.antt =====
-- What the balances hold of one token, and how each write changes it.
use sthrip.Base.{
  ℕ, ◌≡◌, some, [], ◌∷◌, ◌==◌, ◌&&◌, if◌then◌else◌, arith, refl, ap, some, true, Bool-cases, inl,
  inr,
}
use sthrip.Base.Int.{ℤ, pos, ◌+ℤ◌, ◌-ℤ◌, ◌≤ℤ◌, int_laws, parts}
use sthrip.Models.Parties.{AgentBalance}
use sthrip.Models.Database.{Balances}
use sthrip.Ledger.Rows.{find_row, write_row, get_for_update, amend, paid, add_available}

-- An amount of token `t`, counted in token `u`.
unfoldable pub counted : ℕ → ℕ → ℤ → ℤ
counted u t x = if t == u then x else pos 0

unfoldable pub held : ℕ → Balances → ℤ
held u [] = pos 0
held u ((_, t, r) ∷ rows) = counted u t r.available +ℤ held u rows

same_row : (a b t v : ℕ) → (b == a && v == t) ≡ true → (b ≡ a) × (v ≡ t)
same_row a b t v h = ground arith

held-write_row :
    (u a t : ℕ) (r s : AgentBalance) (rows : Balances)
    → find_row a t rows ≡ some s
    → held u (write_row a t r rows) +ℤ counted u t s.available
      ≡ held u rows +ℤ counted u t r.available
unfolding held find_row write_row
held-write_row u a t r s [] h = cc
held-write_row u a t r s ((b, v, w) ∷ rows) h =
    grind (int_laws, same_row a b t v, held-write_row u a t r s rows)

pub counted-add : (u t : ℕ) (x y : ℤ) → counted u t (x +ℤ y) ≡ counted u t x +ℤ counted u t y
unfolding counted
counted-add u t x y = elim (Bool-cases (t == u)) [ inl e ↦ rw e | inr e ↦ rw e (omega int_laws) ]

-- Locking the row, new or old, holds what the table held.
pub held-get_for_update :
    (u now a t : ℕ) (rows : Balances) → held u (get_for_update now a t rows).1 ≡ held u rows
unfolding held get_for_update counted
held-get_for_update u now a t rows = grind int_laws

find_row-get_for_update :
    (now a t : ℕ) (rows : Balances)
    → let (r, rows') = get_for_update now a t rows in find_row a t rows' ≡ some r
unfolding find_row get_for_update
find_row-get_for_update now a t rows = ground arith

pub held-amend :
    (u now a t : ℕ) (f : AgentBalance → AgentBalance) (x : ℤ) (rows : Balances)
    → ((r : AgentBalance) → (f r).available ≡ r.available +ℤ x)
    → held u (amend now a t f rows) ≡ held u rows +ℤ counted u t x
unfolding amend
held-amend u now a t f x rows g =
    let (r, rows') = get_for_update now a t rows in
    omega (
      int_laws,
      parts (held-write_row u a t (f r) r rows' (find_row-get_for_update now a t rows)),
      parts (held-get_for_update u now a t rows),
      parts (ap (counted u t) (g r)),
      parts (counted-add u t r.available x),
    )

pub counted_zero : (u t : ℕ) → counted u t (pos 0) ≡ pos 0
unfolding counted
counted_zero u t = ground arith

pub counted-sub : (u t : ℕ) (x y : ℤ) → counted u t (x -ℤ y) ≡ counted u t x -ℤ counted u t y
unfolding counted
counted-sub u t x y = elim (Bool-cases (t == u)) [ inl e ↦ rw e | inr e ↦ rw e (omega int_laws) ]

pub held-paid :
    (u now a t : ℕ) (x : ℤ) (rows : Balances)
    → pos 0 ≤ℤ x
    → held u (paid now a x t rows) ≡ held u rows +ℤ counted u t x
unfolding paid counted
held-paid u now a t x rows h =
    grind (int_laws, held-amend u now a t (add_available now x) x rows (λ r. refl))
