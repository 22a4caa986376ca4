-- ===== src/Swaps/Events.antt =====
-- What may happen to the orders of the database, and that every call of the service is some of it.
use text.Mathlib.Text.{◌==◌ as str_eq}
use sthrip.Base.{
  ◌==◌, ◌&&◌, ==→eq, ℕ, ◌≡◌, ◌⊎◌, String, Option, none, some, inl, inr, arith, refl, true, ◌∷◌,
  Option-cases, Bool-cases, ==-refl,
}
use sthrip.Base.Int.{ℤ}
use sthrip.Base.Table.{find, set, find-set_self}
use sthrip.Base.Action.{
  Action, Result, ok, err, transact, settle_state, bind-ok, bind-Raised, transact-Raised, ◌>>=◌,
}
use sthrip.Models.Parties.{xmr}
use sthrip.Models.Swaps.{Rate, SwapOrder, SwapStatus, is_created, is_locked}
use sthrip.Models.Database.{Db}
use sthrip.Ledger.Rows.{amend, add_available}
use sthrip.Swaps.Providers.{Placed, OrderRequest}
use sthrip.Swaps.Rates.{get_quote}
use sthrip.Swaps.Orders.{
  Terms, new_order, expired_order, is_open, delivered_order, claimed_order, placed_order,
  expire_rows,
}
use sthrip.Swaps.Service.{
  Sources, Wanted, place_order, terms_of, is_external_id, place_external, refetch, record_order,
  order_request, create_swap, claim_swap,
}
use sthrip.Swaps.Orders

-- The order as an exchange has delivered it, and the amount in the balance of its agent.
abbrev pub delivered_state : (ℤ → ℤ) → ℕ → ℕ → SwapOrder → ℤ → Db → Db
delivered_state column now id o x db = record db {
  swaps = set id (delivered_order (column x) none o) db.swaps;
  balances = amend now o.from_agent_id xmr (add_available now x) db.balances;
}

-- The order as it has been claimed, and its amount in the balance of its agent.
abbrev pub claimed_state : ℕ → ℕ → SwapOrder → String → Db → Db
claimed_state now id o secret db = record db {
  swaps = set id (claimed_order secret none o) db.swaps;
  balances = amend now o.from_agent_id xmr (add_available now o.to_amount) db.balances;
}

-- What may happen at once. Nothing locks an order.
pub data Event (column : ℤ → ℤ) (db db' : Db) : Type 0 where
  add :
      (id : ℕ) (o : SwapOrder)
      → find id db.swaps ≡ none
      → o.state ≡ SwapStatus.created
      → db' ≡ record db { swaps = (id, o) ∷ db.swaps }
      → Event column db db'
  expire :
      (id : ℕ) (o : SwapOrder)
      → find id db.swaps ≡ some o
      → is_open o.state ≡ true
      → db' ≡ record db { swaps = set id (expired_order o) db.swaps }
      → Event column db db'
  sweep : (now : ℕ) → db' ≡ record db { swaps = (expire_rows now db.swaps).1 } → Event column db db'
  deliver :
      (now id : ℕ) (o : SwapOrder) (x : ℤ)
      → find id db.swaps ≡ some o
      → is_created o.state ≡ true
      → db' ≡ delivered_state column now id o x db
      → Event column db db'
  claim :
      (now id : ℕ) (o : SwapOrder) (secret : String)
      → find id db.swaps ≡ some o
      → is_locked o.state ≡ true
      → db' ≡ claimed_state now id o secret db
      → Event column db db'

-- Nothing, or one event.
abbrev pub AtMostOne : (ℤ → ℤ) → Db → Db → Type 0
AtMostOne column db db' = (db' ≡ db) ⊎ Event column db db'

-- What a call leaves once its session is committed or rolled back.
abbrev pub Leaves : {A : Type 0} → (ℤ → ℤ) → Action Db A → Db → Type 0
Leaves column m db = AtMostOne column db (transact m db).1

module _ (column : ℤ → ℤ) where
  pub claim_swap-Leaves :
      (digest : String → Option String) (now id agent : ℕ) (secret : String) (db : Db)
      → Leaves column (claim_swap digest now id agent secret) db
  unfolding claim_swap transact
  claim_swap-Leaves digest now id agent secret db = elim (Option-cases (find id db.swaps)) [
    | inl e ↦ inl (ground arith)
    | inr (o, e) ↦ elim (Option-cases (digest secret)) [
      | inl not_hex ↦ inl (ground arith)
      | inr (hash, hex) ↦
          elim (Bool-cases
            (is_locked o.state && o.from_agent_id == agent && str_eq hash o.htlc_hash)) [
              | inl fit ↦ inr (
                  Event.claim now id o secret e (ground arith) (
                    ground (
                      arith,
                      ==→eq o.from_agent_id agent,
                      find-set_self id (claimed_order secret none o) o db.swaps e,
                    )))
              | inr unfit ↦ inl (ground arith)
            ]
    ]
  ]

  abbrev with_row : ℕ → ℕ → Terms → Db → Db
  with_row now id r db = record db { swaps = (id, new_order now r) ∷ db.swaps }

  -- The call goes on with the new row there.
  row_there :
      (now id : ℕ) (r : Terms) (p : Option Placed) (db : Db)
      → find id db.swaps ≡ none
      → record_order now id r p db
        ≡ (place_external id p >>= λ _. refetch id) (with_row now id r db)
  unfolding record_order
  row_there now id r p db e =
      bind-ok (Orders.create now id r) (λ _. place_external id p >>= λ _. refetch id) db
        (new_order now r) (with_row now id r db) (unfold Orders.create in rw e refl)

  -- A key that is there is refused.
  row_taken :
      (now id : ℕ) (r : Terms) (p : Option Placed) (db : Db) (o : SwapOrder)
      → find id db.swaps ≡ some o
      → (transact (record_order now id r p) db).1 ≡ db
  row_taken now id r p db o e = transact-Raised (record_order now id r p) db (
      unfold record_order in
      (bind-Raised (Orders.create now id r) (λ _. place_external id p >>= λ _. refetch id) db
        (unfold Orders.create in rw e tt)))

  -- The exchange's order, written on an order that is there.
  order_placed :
      (id : ℕ) (p : Placed) (o : SwapOrder) (db : Db)
      → find id db.swaps ≡ some o
      → is_created o.state ≡ true
      → is_external_id p.external_order_id ≡ true
      → let placed = placed_order p.external_order_id p.deposit_address p.provider o in
        (place_external id (some p) >>= λ _. refetch id) db
        ≡ (ok placed, record db { swaps = set id placed db.swaps })
  unfolding Orders.set_external_order
  order_placed id p o db e st good =
      let placed = placed_order p.external_order_id p.deposit_address p.provider o in
      ground (arith, find-set_self id placed o db.swaps e)

  record_order-Leaves :
      (now id : ℕ) (r : Terms) (p : Option Placed) (db : Db)
      → Leaves column (record_order now id r p) db
  unfolding transact find set
  record_order-Leaves now id r none db = elim (Option-cases (find id db.swaps)) [
    | inl e ↦
        inr (
          Event.add id (new_order now r) e refl
            (rw (row_there now id r none db e, ==-refl id) refl))
    | inr (o, e) ↦ inl (row_taken now id r none db o e)
  ]
  record_order-Leaves now id r (some p) db =
      let placed =
        placed_order p.external_order_id p.deposit_address p.provider (new_order now r) in
      elim (Option-cases (find id db.swaps)) [
        | inl e ↦ elim (Bool-cases (is_external_id p.external_order_id)) [
          | inl good ↦ inr (
              Event.add id placed e refl (
                rw
                  (
                    row_there now id r (some p) db e,
                    order_placed id p (new_order now r) (with_row now id r db)
                        (rw (==-refl id) refl) refl good,
                    ==-refl id,
                  )
                  refl))
          | inr bad ↦ inl (rw (row_there now id r (some p) db e, bad) refl)
        ]
        | inr (o, e) ↦ inl (row_taken now id r (some p) db o e)
      ]

  -- A call whose first part writes nothing.
  reads-Leaves :
      {A B : Type 0} (m : Action Db A) (f : A → Action Db B) (db : Db)
      → (m db).1 ≡ db
      → ((a : A) → Leaves column (f a) db)
      → Leaves column (m >>= f) db
  unfolding transact
  reads-Leaves {A = A} {B = B} m f db same h = go (m db) same
    where
      go :
          (x : Result A × Db)
          → x.1 ≡ db
          → let y = elim x.0 as (λ _. Result B × Db) [ ok a ↦ f a x.1 | err e ↦ (err e, x.1) ] in
            AtMostOne column db (settle_state db y.0 y.1)
      go (ok a, s) same = rw same (h a)
      go (err e, s) same = inl refl

  quoted : (g : ℕ → ℕ → Rate) (a b : ℕ) (x : ℤ) (db : Db) → (get_quote g a x b db).1 ≡ db
  unfolding get_quote
  quoted g a b x db = ground arith

  asked : (src : Sources) (r : OrderRequest) (db : Db) → (place_order src r db).1 ≡ db
  unfolding place_order
  asked src r db = ground arith

  pub create_swap-Leaves :
      (src : Sources) (now id : ℕ) (w : Wanted) (db : Db)
      → Leaves column (create_swap src now id w) db
  unfolding create_swap
  create_swap-Leaves src now id w db =
      reads-Leaves (get_quote src.get_rate w.from_currency w.from_amount w.to_currency)
        (λ quote. place_order src (order_request src w) >>= λ placed.
          record_order now id (terms_of now src w quote placed) placed)
        db (quoted src.get_rate w.from_currency w.to_currency w.from_amount db)
        λ quote.
          reads-Leaves (place_order src (order_request src w))
            (λ placed. record_order now id (terms_of now src w quote placed) placed) db
            (asked src (order_request src w) db)
            λ placed. record_order-Leaves now id (terms_of now src w quote placed) placed db
