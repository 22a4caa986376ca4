-- ===== src/Swaps/Books.antt =====
-- What the calls on orders pay: a list of payments accounts for every balance and for every order.
use sthrip.Base.{
  ℕ, ◌≡◌, ◌⊎◌, none, some, List, [], ◌∷◌, inl, inr, arith, refl, true, false, ◌==◌, ◌&&◌, ◌∙◌,
  if◌then◌else◌, Bool-cases, ==→eq,
}
use sthrip.Base.Int.{ℤ, pos, ◌+ℤ◌, int_laws, parts}
use sthrip.Base.Table.{Table, find, set, find-set, find-set_self}
use sthrip.Base.Keys.{mem}
use sthrip.Models.Parties.{xmr}
use sthrip.Models.Swaps.{SwapOrder, SwapStatus}
use sthrip.Models.Database.{Db}
use sthrip.Ledger.Rows.{amend, add_available, credit}
use sthrip.Ledger.Balance.{available_of, credit-available_of}
use sthrip.Swaps.Orders.{expired_order, delivered_order, claimed_order, expire_rows, is_open}
use sthrip.Swaps.Events.{Event}
use sthrip.Swaps.Trace.{Trace, Call, perform_calls, perform_calls-Trace}
use sthrip.Swaps.Ends.{Event-Ended, find-expire_rows}

pub record Payment : Type 0 where
  pub order_id : ℕ
  pub agent_id : ℕ
  pub amount : ℤ

abbrev pub order_ids : List Payment → List ℕ
order_ids [] = []
order_ids (p ∷ ps) = p.order_id ∷ order_ids ps

-- What agent `a` has been paid in token `u`: payments are in XMR.
unfoldable pub paid_to : ℕ → ℕ → List Payment → ℤ
paid_to a u [] = pos 0
paid_to a u (p ∷ ps) = (if p.agent_id == a && xmr == u then p.amount else pos 0) +ℤ paid_to a u ps

module _ (column : ℤ → ℤ) where
  -- The order of a payment: completed, of the agent that was paid, with the amount or what its column
  -- keeps of it.
  abbrev pub IsPaid : Db → Payment → Type 0
  IsPaid db p =
      (o : SwapOrder) × (find p.order_id db.swaps ≡ some o)
      × (o.state ≡ SwapStatus.completed)
      × (o.from_agent_id ≡ p.agent_id)
      × ((o.to_amount ≡ p.amount) ⊎ (o.to_amount ≡ column p.amount))

  -- Each payment is that of an order, and no order has two.
  abbrev pub Receipts : Db → List Payment → Type 0
  Receipts db [] = Unit
  Receipts db (p ∷ ps) = IsPaid db p × (mem p.order_id (order_ids ps) ≡ false) × Receipts db ps

  -- An order that is completed now was so before, or has its payment.
  abbrev pub NoneUnpaid : Db → Db → List Payment → Type 0
  NoneUnpaid db db' ps =
      (id : ℕ) (o : SwapOrder)
      → find id db'.swaps ≡ some o
      → o.state ≡ SwapStatus.completed
      → (mem id (order_ids ps) ≡ true) ⊎ (find id db.swaps ≡ some o)

  -- Every balance has grown by what its agent was paid.
  abbrev pub Booked : Db → Db → List Payment → Type 0
  Booked db db' ps = (a u : ℕ) → available_of a u db' ≡ available_of a u db +ℤ paid_to a u ps

  abbrev pub Explains : Db → Db → List Payment → Type 0
  Explains db db' ps = Booked db db' ps × Receipts db' ps × NoneUnpaid db db' ps

  Event-IsPaid : (db db' : Db) (p : Payment) → Event column db db' → IsPaid db p → IsPaid db' p
  Event-IsPaid db db' p event (o, f, st, own, amount) =
      (o, (Event-Ended column p.order_id o db db' event (f, rw st refl)).0, st, own, amount)

  Event-Receipts :
      (db db' : Db) (ps : List Payment) → Event column db db' → Receipts db ps → Receipts db' ps
  Event-Receipts db db' [] event h = tt
  Event-Receipts db db' (p ∷ ps) event (h, once, hs) =
      (Event-IsPaid db db' p event h, once, Event-Receipts db db' ps event hs)

  -- An order that is open has no payment yet.
  open-not_paid :
      (db : Db) (id : ℕ) (o : SwapOrder) (ps : List Payment)
      → find id db.swaps ≡ some o
      → is_open o.state ≡ true
      → Receipts db ps
      → mem id (order_ids ps) ≡ false
  open-not_paid db id o [] f st h = refl
  open-not_paid db id o (p ∷ ps) f st ((q, g, done, own, amount), once, hs) =
      let rest = open-not_paid db id o ps f st hs in
      elim (Bool-cases (p.order_id == id)) [
        | inl same ↦ let here = ==→eq p.order_id id same in ground arith
        | inr other ↦ ground arith
      ]

  -- A payment more.
  credited :
      (now b : ℕ) (x : ℤ) (swaps : Table SwapOrder) (db : Db) (a u : ℕ)
      → available_of a u (record db {
        swaps = swaps;
        balances = amend now b xmr (add_available now x) db.balances;
      })
        ≡ available_of a u db +ℤ (if b == a && xmr == u then x else pos 0)
  unfolding credit available_of
  credited now b x swaps db a u =
      let row = credit-available_of now b xmr x db a u in
      elim (Bool-cases (b == a && xmr == u)) [
        | inl here ↦
            let (agent, token) = both here in
            let same : available_of b xmr db ≡ available_of a u db = rw (agent, token) refl in
            (rw here at row) ∙ rw (here, same) refl
        | inr other ↦ (rw other at row) ∙ rw other (omega int_laws)
      ]
    where
      both : (b == a && xmr == u) ≡ true → (b ≡ a) × (xmr ≡ u)
      both e = ground (arith, ==→eq b a, ==→eq xmr u)

  -- An order is written, and its agent is paid.
  abbrev paid_state : ℕ → ℕ → SwapOrder → SwapOrder → ℤ → Db → Db
  paid_state now id o o' x db = record db {
    swaps = set id o' db.swaps;
    balances = amend now o.from_agent_id xmr (add_available now x) db.balances;
  }

  abbrev payment : ℕ → SwapOrder → ℤ → Payment
  payment id o x = record { order_id = id; agent_id = o.from_agent_id; amount = x }

  module _ (db0 db : Db) (ps : List Payment) (h : Explains db0 db ps) where
    paid-Booked :
        (now id : ℕ) (o o' : SwapOrder) (x : ℤ)
        → Booked db0 (paid_state now id o o' x db) (payment id o x ∷ ps)
    unfolding paid_to
    paid-Booked now id o o' x a u = omega (
      int_laws,
      parts (h.0 a u),
      parts (credited now o.from_agent_id x (set id o' db.swaps) db a u),
    )

    paid-NoneUnpaid :
        (now id : ℕ) (o o' : SwapOrder) (x : ℤ)
        → NoneUnpaid db0 (paid_state now id o o' x db) (payment id o x ∷ ps)
    paid-NoneUnpaid now id o o' x k q f st = elim (Bool-cases (id == k)) [
      | inl here ↦ inl (rw here refl)
      | inr other ↦
          let there : find k db.swaps ≡ some q = rw (find-set k id o' db.swaps, other) at f in
          rw other (h.2 k q there st)
    ]

    -- What completes an order and pays its agent is one payment more.
    Explains-paid :
        (now id : ℕ) (o o' : SwapOrder) (x : ℤ)
        → find id db.swaps ≡ some o
        → is_open o.state ≡ true
        → o'.state ≡ SwapStatus.completed
        → o'.from_agent_id ≡ o.from_agent_id
        → (o'.to_amount ≡ x) ⊎ (o'.to_amount ≡ column x)
        → Event column db (paid_state now id o o' x db)
        → Explains db0 (paid_state now id o o' x db) (payment id o x ∷ ps)
    Explains-paid now id o o' x found st done own amount event = (
      paid-Booked now id o o' x,
      (
        (o', find-set_self id o' o db.swaps found, done, own, amount),
        open-not_paid db id o ps found st h.1,
        Event-Receipts db (paid_state now id o o' x db) ps event h.1,
      ),
      paid-NoneUnpaid now id o o' x,
    )

    -- What completes no order and moves no balance leaves the payments as they are.
    Explains-kept :
        (swaps : Table SwapOrder)
        → Event column db (record db { swaps = swaps })
        → ((k : ℕ) (q : SwapOrder)
            → find k swaps ≡ some q
            → q.state ≡ SwapStatus.completed
            → find k db.swaps ≡ some q)
        → Explains db0 (record db { swaps = swaps }) ps
    unfolding available_of
    Explains-kept swaps event kept = (
      h.0,
      Event-Receipts db (record db { swaps = swaps }) ps event h.1,
      λ k q f st. h.2 k q (kept k q f st) st,
    )

  abbrev Explained : Db → Db → Type 0
  Explained db0 db = (ps : List Payment) × Explains db0 db ps

  Event-Explains : (db0 db db' : Db) → Event column db db' → Explained db0 db → Explained db0 db'
  Event-Explains db0 db db' (Event.add id w new st e) (ps, h) =
      rw e (ps, Explains-kept db0 db ps h ((id, w) ∷ db.swaps) (Event.add id w new st refl) old)
    where
      old :
          (k : ℕ) (q : SwapOrder)
          → find k ((id, w) ∷ db.swaps) ≡ some q
          → q.state ≡ SwapStatus.completed
          → find k db.swaps ≡ some q
      old k q f done = unfold find in ground arith
  Event-Explains db0 db db' (Event.expire id w found st e) (ps, h) = rw e (
    ps,
    (Explains-kept db0 db ps h (set id (expired_order w) db.swaps) (Event.expire id w found st refl)
        old),
  )
    where
      old :
          (k : ℕ) (q : SwapOrder)
          → find k (set id (expired_order w) db.swaps) ≡ some q
          → q.state ≡ SwapStatus.completed
          → find k db.swaps ≡ some q
      old k q f done = ground (arith, find-set k id (expired_order w) db.swaps)
  Event-Explains db0 db db' (Event.sweep now e) (ps, h) =
      rw e (ps, (Explains-kept db0 db ps h (expire_rows now db.swaps).1 (Event.sweep now refl) old))
    where
      old :
          (k : ℕ) (q : SwapOrder)
          → find k (expire_rows now db.swaps).1 ≡ some q
          → q.state ≡ SwapStatus.completed
          → find k db.swaps ≡ some q
      old k q f done = ground (arith, find-expire_rows now k db.swaps)
  Event-Explains db0 db db' (Event.deliver now id w x found st e) (ps, h) = rw e (
    payment id w x ∷ ps,
    (Explains-paid db0 db ps h now id w (delivered_order (column x) none w) x found (ground arith)
        refl refl (inr refl) (Event.deliver now id w x found st refl)),
  )
  Event-Explains db0 db db' (Event.claim now id w secret found st e) (ps, h) = rw e (
    payment id w w.to_amount ∷ ps,
    (Explains-paid db0 db ps h now id w (claimed_order secret none w) w.to_amount found
        (ground arith) refl refl (inl refl) (Event.claim now id w secret found st refl)),
  )

  Trace-Explains : (db db' : Db) → Trace column db db' → Explained db db'
  unfolding paid_to
  Trace-Explains db _ (Trace.done) = ([], ((λ a u. omega int_laws), tt, λ k q f st. inr f))
  Trace-Explains db _ (Trace.then a b t event) = Event-Explains db a b event (Trace-Explains db a t)

  -- After any calls of the service, refused ones and rounds of polling and of expiry included, there is
  -- a list of payments that accounts for them: every balance of every token has grown by the sum of the
  -- payments to its agent in that token; each payment is the one of an order that is completed, went
  -- to the agent of that order, and was of the order's amount, or of an amount of which the order's
  -- column keeps the order's amount (`column` is the rounding of that column, any function); no order
  -- has two payments; and an order that is completed has its payment, or had this row before the calls.
  pub perform_calls-Explains :
      (cs : List Call) (db : Db) → (ps : List Payment) × Explains db (perform_calls column cs db) ps
  perform_calls-Explains cs db =
      Trace-Explains db (perform_calls column cs db)
        (perform_calls-Trace column cs db db Trace.done)
