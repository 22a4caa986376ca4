-- ===== src/Swaps/Ends.antt =====
-- Orders that no call changes any more, and orders that can never be claimed.
use sthrip.Base.{
  ℕ, ◌≡◌, String, Option, none, some, List, [], ◌∷◌, inl, inr, arith, refl, true, false,
  Option-cases, Bool-cases, if◌then◌else◌, ◌==◌, ==→eq,
}
use sthrip.Base.Int.{ℤ}
use sthrip.Base.Table.{Table, find, set, find-set}
use sthrip.Base.Action.{Raised, transact, transact-Raised}
use sthrip.Models.Swaps.{SwapOrder, SwapStatus, is_locked}
use sthrip.Models.Database.{Db}
use sthrip.Swaps.Orders.{
  expired_order, delivered_order, claimed_order, expire_rows, is_open, is_stale,
}
use sthrip.Swaps.Service.{claim_swap}
use sthrip.Swaps.Events.{Event}
use sthrip.Swaps.Trace.{Trace, Call, perform_calls, perform_calls-Trace}

abbrev pub expired_if_stale : ℕ → Option SwapOrder → Option SwapOrder
expired_if_stale now none = none
expired_if_stale now (some o) = some (if is_stale now o then expired_order o else o)

pub find-expire_rows :
    (now id : ℕ) (t : Table SwapOrder)
    → find id (expire_rows now t).1 ≡ expired_if_stale now (find id t)
unfolding find expire_rows
find-expire_rows now id [] = refl
find-expire_rows now id ((k, o) ∷ t) = elim (Bool-cases (is_stale now o)) [
  | inl e ↦ elim (Bool-cases (k == id)) [
    | inl same ↦ rw (e, same) (rw e refl)
    | inr other ↦ rw (e, other) (find-expire_rows now id t)
  ]
  | inr e ↦ elim (Bool-cases (k == id)) [
    | inl same ↦ rw (e, same) (rw e refl)
    | inr other ↦ rw (e, other) (find-expire_rows now id t)
  ]
]

-- The order is there and not open.
abbrev Ended : ℕ → SwapOrder → Db → Type 0
Ended id o db = (find id db.swaps ≡ some o) × (is_open o.state ≡ false)

-- An open order is another one, so writing it leaves the ended one.
written_elsewhere :
    (id k : ℕ) (o w w' : SwapOrder) (t : Table SwapOrder)
    → find id t ≡ some o
    → is_open o.state ≡ false
    → find k t ≡ some w
    → is_open w.state ≡ true
    → find id (set k w' t) ≡ some o
written_elsewhere id k o w w' t e ended f st = elim (Bool-cases (k == id)) [
  | inl same ↦
      let there : find id t ≡ some w = rw (==→eq k id same) at f in absurd (contradiction there)
  | inr other ↦ rw (find-set id k w' t, other) e
]
  where
    contradiction : find id t ≡ some w → ⊥
    contradiction there = ground arith

-- No order waits for its claim.
abbrev pub NoneLocked : Db → Type 0
NoneLocked db = (k : ℕ) (o : SwapOrder) → find k db.swaps ≡ some o → is_locked o.state ≡ false

module _ (column : ℤ → ℤ) where
  pub Event-Ended :
      (id : ℕ) (o : SwapOrder) (db db' : Db) → Event column db db' → Ended id o db → Ended id o db'
  Event-Ended id o db db' (Event.add k w new st e) (f, h) = rw e (
      unfold find in
      (elim (Bool-cases (k == id)) [
        | inl same ↦ absurd (taken (rw (==→eq k id same) at new))
        | inr other ↦ (rw other f, h)
      ]))
    where
      taken : find id db.swaps ≡ none → ⊥
      taken never = cc
  Event-Ended id o db db' (Event.expire k w found st e) (f, h) =
      rw e (written_elsewhere id k o w (expired_order w) db.swaps f h found st, h)
  Event-Ended id o db db' (Event.sweep now e) (f, h) =
      rw e (rw (find-expire_rows now id db.swaps, f) (rw h refl), h)
  Event-Ended id o db db' (Event.deliver now k w x found st e) (f, h) = rw e (
    written_elsewhere id k o w (delivered_order (column x) none w) db.swaps f h found
        (ground arith),
    h,
  )
  Event-Ended id o db db' (Event.claim now k w secret found st e) (f, h) = rw e (
    written_elsewhere id k o w (claimed_order secret none w) db.swaps f h found (ground arith),
    h,
  )

  Trace-Ended :
      (id : ℕ) (o : SwapOrder) (db db' : Db) → Trace column db db' → Ended id o db → Ended id o db'
  Trace-Ended id o db _ (Trace.done) h = h
  Trace-Ended id o db _ (Trace.then a b t event) h =
      Event-Ended id o a b event (Trace-Ended id o db a t h)

  -- An order that is completed, refunded or expired stays as it is, whatever calls are made: its
  -- amount and its state are final.
  pub perform_calls-Ended :
      (cs : List Call) (id : ℕ) (o : SwapOrder) (db : Db)
      → find id db.swaps ≡ some o
      → is_open o.state ≡ false
      → find id (perform_calls column cs db).swaps ≡ some o
  perform_calls-Ended cs id o db f h =
      (Trace-Ended id o db (perform_calls column cs db)
        (perform_calls-Trace column cs db db Trace.done) (f, h)).0

  module _ (db : Db) (h : NoneLocked db) where
    set-NoneLocked :
        (id : ℕ) (w' : SwapOrder)
        → is_locked w'.state ≡ false
        → NoneLocked (record db { swaps = set id w' db.swaps })
    set-NoneLocked id w' st k o e = elim (Option-cases (find k db.swaps)) [
      | inl none_there ↦ ground (arith, find-set k id w' db.swaps)
      | inr (w, there) ↦ ground (arith, find-set k id w' db.swaps, h k w there)
    ]

    swept-NoneLocked : (now : ℕ) → NoneLocked (record db { swaps = (expire_rows now db.swaps).1 })
    swept-NoneLocked now k o e = elim (Option-cases (find k db.swaps)) [
      | inl none_there ↦ ground (arith, find-expire_rows now k db.swaps)
      | inr (w, there) ↦ ground (arith, find-expire_rows now k db.swaps, h k w there)
    ]

    added-NoneLocked :
        (id : ℕ) (w : SwapOrder)
        → w.state ≡ SwapStatus.created
        → NoneLocked (record db { swaps = (id, w) ∷ db.swaps })
    added-NoneLocked id w st k o e = unfold find in ground (arith, h k o)

    never_locked :
        (id : ℕ) (o : SwapOrder) → find id db.swaps ≡ some o → is_locked o.state ≡ true → ⊥
    never_locked id o e st = let no : is_locked o.state ≡ false = h id o e in cc

    Event-NoneLocked : (db' : Db) → Event column db db' → NoneLocked db'
    Event-NoneLocked db' (Event.add id w new st e) = rw e (added-NoneLocked id w st)
    Event-NoneLocked db' (Event.expire id w found st e) =
        rw e (set-NoneLocked id (expired_order w) refl)
    Event-NoneLocked db' (Event.sweep now e) = rw e (swept-NoneLocked now)
    Event-NoneLocked db' (Event.deliver now id w x found st e) =
        rw e (set-NoneLocked id (delivered_order (column x) none w) refl)
    Event-NoneLocked db' (Event.claim now id w secret found st e) =
        absurd (never_locked id w found st)

  Trace-NoneLocked : (db db' : Db) → Trace column db db' → NoneLocked db → NoneLocked db'
  Trace-NoneLocked db _ (Trace.done) h = h
  Trace-NoneLocked db _ (Trace.then a b t event) h =
      Event-NoneLocked a (Trace-NoneLocked db a t h) b event

  -- An order that is not locked is not claimed.
  claim-Raised :
      (digest : String → Option String) (now id agent : ℕ) (secret : String) (db : Db)
      → NoneLocked db
      → Raised (claim_swap digest now id agent secret db).0
  unfolding claim_swap
  claim-Raised digest now id agent secret db h = elim (Option-cases (find id db.swaps)) [
    | inl e ↦ ground arith
    | inr (o, e) ↦ let open_only : is_locked o.state ≡ false = h id o e in ground arith
  ]

  -- From a database without a locked order no calls of the service lead to one, since none of them locks
  -- an order; so whatever calls have been made, every claim raises and writes nothing, whatever secret
  -- it gives.
  pub no_order_is_claimed :
      (cs : List Call) (digest : String → Option String) (now id agent : ℕ) (secret : String)
      (db : Db)
      → NoneLocked db
      → let db' = perform_calls column cs db in
        NoneLocked db'
        × Raised (claim_swap digest now id agent secret db').0
        × ((transact (claim_swap digest now id agent secret) db').1 ≡ db')
  no_order_is_claimed cs digest now id agent secret db h =
      let db' = perform_calls column cs db in
      let still = Trace-NoneLocked db db' (perform_calls-Trace column cs db db Trace.done) h in
      let raised = claim-Raised digest now id agent secret db' still in
      (still, raised, transact-Raised (claim_swap digest now id agent secret) db' raised)
