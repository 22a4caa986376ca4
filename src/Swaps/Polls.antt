-- ===== src/Swaps/Polls.antt =====
-- The rounds of `poll_external_orders`: what each counts and what it does.
use text.Mathlib.Text.{◌==◌ as str_eq}
use sthrip.Base.{
  ℕ, ◌+◌, ◌≡◌, String, Option, none, some, List, [], ◌∷◌, inl, inr, arith, refl, ◌||◌, length,
  Option-cases, Bool-cases,
}
use sthrip.Base.Int.{ℤ}
use sthrip.Base.Table.{find}
use sthrip.Base.Action.{ok}
use sthrip.Models.Swaps.{SwapOrder, is_created}
use sthrip.Models.Database.{Db}
use sthrip.Channel.Service.{is_empty}
use sthrip.Swaps.Providers.{
  Exchanges, ExchangeStatus, Figure, Report, Answer, changenow_order_status, sideshift_order_status,
}
use sthrip.Swaps.Orders
use sthrip.Swaps.Orders.{is_open}
use sthrip.Swaps.Polling.{
  Tally, finish_order, expire_order, on_status, act_on, amount_to_credit, counted_error,
  poll_provider, poll_named, poll_one, poll_each, poll_external_orders,
}
use sthrip.Swaps.Events.{Event, AtMostOne}

abbrev pub total : Tally → ℕ
total t = t.completed + t.expired + t.errors + t.skipped

-- A round on one order counts one, and there is at most one event.
abbrev pub Round : (ℤ → ℤ) → Db → Tally × Db → Type 0
Round column db x = (total x.0 ≡ 1) × AtMostOne column db x.1

module _ (column : ℤ → ℤ) where
  module _ (now id : ℕ) (o : SwapOrder) (db : Db) (e : find id db.swaps ≡ some o) where
    delivered :
        (figure : Option Figure) (x : ℤ)
        → amount_to_credit figure o.to_amount db ≡ (ok x, db)
        → Round column db (counted_error (finish_order column now id o figure db))
    unfolding finish_order
    delivered figure x h = elim (Bool-cases (is_created o.state)) [
      | inl st ↦ (ground arith, inr (Event.deliver now id o x e st (ground arith)))
      | inr st ↦ (ground arith, inl (ground arith))
    ]

    finish_order-Round :
        (f : Option Figure) → Round column db (counted_error (finish_order column now id o f db))
    finish_order-Round none = delivered none o.to_amount refl
    finish_order-Round (some (Figure.amount x)) = delivered (some (Figure.amount x)) x refl
    finish_order-Round (some Figure.empty) = delivered (some Figure.empty) o.to_amount refl
    finish_order-Round (some Figure.unreadable) = unfold finish_order in (refl, inl refl)

    expire_order-Round : Round column db (counted_error (expire_order id db))
    unfolding expire_order
    expire_order-Round = elim (Bool-cases (is_open o.state)) [
      | inl st ↦ (ground arith, inr (Event.expire id o e st (ground arith)))
      | inr st ↦ (ground arith, inl (ground arith))
    ]

    act_on-Round :
        (a : Answer Report) → Round column db (counted_error (act_on column now id o a db))
    act_on-Round (Answer.answer r) = reported r.status
      where
        reported :
            (s : ExchangeStatus)
            → Round column db (counted_error (on_status column now id o r.to_amount s db))
        reported ExchangeStatus.finished = finish_order-Round r.to_amount
        reported ExchangeStatus.failed = expire_order-Round
        reported ExchangeStatus.expired = expire_order-Round
        reported ExchangeStatus.waiting = (refl, inl refl)
        reported ExchangeStatus.confirming = (refl, inl refl)
        reported ExchangeStatus.exchanging = (refl, inl refl)
        reported ExchangeStatus.sending = (refl, inl refl)
    act_on-Round Answer.provider_error = (refl, inl refl)
    act_on-Round Answer.value_error = (refl, inl refl)

    poll_provider-Round :
        (world : Exchanges) (provider external : String)
        → Round column db (poll_provider column world now id o provider external db)
    unfolding poll_provider
    poll_provider-Round world provider external = elim (Bool-cases (str_eq provider "changenow")) [
      | inl h ↦ rw h (act_on-Round (changenow_order_status world external))
      | inr h ↦ elim (Bool-cases (str_eq provider "sideshift")) [
        | inl k ↦ rw (h, k) (act_on-Round (sideshift_order_status world external))
        | inr k ↦ rw (h, k) (refl, inl refl)
      ]
    ]

    poll_named-Round :
        (world : Exchanges) (provider external : Option String)
        → Round column db (poll_named column world now id o provider external db)
    poll_named-Round world (some provider) (some external) =
        elim (Bool-cases (is_empty provider || is_empty external)) [
          | inl h ↦ rw h (refl, inl refl)
          | inr h ↦ rw h (poll_provider-Round world provider external)
        ]
    poll_named-Round world none _ = (refl, inl refl)
    poll_named-Round world (some _) none = (refl, inl refl)

  pub poll_one-Round :
      (world : Exchanges) (now id : ℕ) (db : Db) → Round column db (poll_one column world now id db)
  unfolding poll_one
  poll_one-Round world now id db = elim (Option-cases (find id db.swaps)) [
    | inl e ↦ rw e (refl, inl refl)
    | inr (o, e) ↦ rw e (poll_named-Round now id o db e world o.provider_name o.external_order_id)
  ]

  poll_each-total :
      (world : Exchanges) (now : ℕ) (ids : List ℕ) (db : Db)
      → total (poll_each column world now ids db).0 ≡ length ids
  unfolding poll_each
  poll_each-total world now [] db = refl
  poll_each-total world now (id ∷ ids) db =
      let one : total (poll_one column world now id db).0 ≡ 1 =
        (poll_one-Round world now id db).0 in
      let rest = poll_each-total world now ids (poll_one column world now id db).1 in ground arith

  -- A round of polling never raises, whatever the exchanges answer, and its four counts add up to the
  -- number of orders that were pending at its start.
  pub poll_external_orders-total :
      (world : Exchanges) (now : ℕ) (db : Db)
      → (t : Tally) × ((poll_external_orders column world now db).0 ≡ ok t)
        × (total t ≡ length (Orders.get_pending_external db.swaps))
  unfolding poll_external_orders
  poll_external_orders-total world now db =
      let ids = Orders.get_pending_external db.swaps in
      ((poll_each column world now ids db).0, refl, poll_each-total world now ids db)
