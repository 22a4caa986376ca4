-- ===== src/Channel/Closing.antt =====
-- How closing a channel ends, and what it does to the books.
use sthrip.Base.{
  ℕ, ◌≡◌, ◌⊎◌, some, inl, inr, ◌∷◌, arith, true, false, refl, if◌then◌else◌, ◌==◌, Bool-cases,
}
use sthrip.Base.Int.{pos, ◌+ℤ◌, ◌≤ℤ◌, int_laws, parts}
use sthrip.Base.Table.{find, set, find-set_self, set-set, sum-set}
use sthrip.Base.Action.{ok, err, value_error, Raised}
use sthrip.Models.Parties.{xmr, audit, webhook}
use sthrip.Models.Channel.{PaymentChannel, ChannelStatus, is_closing, is_settled}
use sthrip.Models.Database.{Db}
use sthrip.Ledger.Held.{counted, counted_zero, counted-add, held-paid}
use sthrip.Ledger.Rows.{paid}
use sthrip.Accounting.{assets, in_channel}
use sthrip.Channel.Repo.{settled_channel, closed_channel}
use sthrip.Channel.Service.{close, is_stranger, still_runs}

-- A participant may close a settled channel, and one whose settlement period has run out.
abbrev pub Closable : ℕ → ℕ → PaymentChannel → Type 0
Closable now agent c =
    (is_stranger agent c ≡ false)
    × ((c.status ≡ ChannelStatus.settled)
        ⊎ ((c.status ≡ ChannelStatus.closing) × (still_runs now c.closes_at ≡ false)))

abbrev pub closed_result : ℕ → PaymentChannel → PaymentChannel
closed_result now c = closed_channel now (if is_closing c.status then settled_channel now c else c)

abbrev pub closed_state : ℕ → ℕ → ℕ → PaymentChannel → Db → Db
closed_state now id agent c db =
    let rows = paid now c.agent_a_id c.balance_a xmr db.balances in
    record db {
      balances = paid now c.agent_b_id c.balance_b xmr rows;
      channels = set id (closed_result now c) db.channels;
      journal =
          webhook (if agent == c.agent_a_id then c.agent_b_id else c.agent_a_id) "channel.closed"
          ∷ audit "channel.closed" (some agent) (some id)
          ∷ db.journal;
    }

-- A closing channel is not to be closed before its time.
early :
    (now agent : ℕ) (c : PaymentChannel)
    → is_closing c.status ≡ true
    → still_runs now c.closes_at ≡ true
    → ¬ Closable now agent c
early now agent c cl runs (_, inl st) = ground arith
early now agent c cl runs (_, inr (_, over)) = cc

neither :
    (now agent : ℕ) (c : PaymentChannel)
    → is_closing c.status ≡ false
    → is_settled c.status ≡ false
    → ¬ Closable now agent c
neither now agent c no_ not_settled (_, inl st) = ground arith
neither now agent c no_ not_settled (_, inr (st, _)) = ground arith

settled_status : (s : ChannelStatus) → is_settled s ≡ true → s ≡ ChannelStatus.settled
settled_status s h = ground arith

is_closing-closable :
    (now : ℕ) (c : PaymentChannel)
    → is_closing c.status ≡ true
    → still_runs now c.closes_at ≡ false
    → (c.status ≡ ChannelStatus.settled)
      ⊎ ((c.status ≡ ChannelStatus.closing) × (still_runs now c.closes_at ≡ false))
is_closing-closable now c cl over = ground arith

-- For a channel that is there, either it may be closed, and the call returns the closed channel in
-- `closed_state`, where both sides are paid their balances, or it may not, and the call raises with
-- the session as it was.
pub close_outcome :
    (now id agent : ℕ) (c : PaymentChannel) (db : Db)
    → find id db.channels ≡ some c
    → (Closable now agent c
        × (close now id agent db ≡ (ok (closed_result now c), closed_state now id agent c db)))
      ⊎ ((¬ Closable now agent c)
          × Raised (close now id agent db).0
          × ((close now id agent db).1 ≡ db))
unfolding close
close_outcome now id agent c db e =
    let settled = settled_channel now c in
    elim (Bool-cases (is_stranger agent c)) [
      | inl out ↦ ground arith
      | inr in_ ↦ elim (Bool-cases (is_closing c.status)) [
        | inl cl ↦ elim (Bool-cases (still_runs now c.closes_at)) [
          | inl runs ↦
              let refused : close now id agent db ≡ (err value_error, db) = rw (e, in_, cl, runs) in
              inr (early now agent c cl runs, rw refused tt, rw refused refl)
          | inr over ↦
              let stored = find-set_self id settled c db.channels e in
              let again =
                find-set_self id (closed_channel now settled) settled (set id settled db.channels)
                  stored in
              let written = set-set id (closed_channel now settled) settled db.channels in
              let closes : close now id agent db
                  ≡ (ok (closed_result now c), closed_state now id agent c db) =
                ground (arith, stored, again, written) in
              inl ((in_, is_closing-closable now c cl over), closes)
        ]
        | inr no_ ↦ elim (Bool-cases (is_settled c.status)) [
          | inl st ↦
              let stored = find-set_self id (closed_channel now c) c db.channels e in
              let closes : close now id agent db
                  ≡ (ok (closed_result now c), closed_state now id agent c db) =
                rw (e, in_, no_, e, st) (ground (arith, stored)) in
              inl ((in_, inl (settled_status c.status st)), closes)
          | inr not_settled ↦
              let refused : close now id agent db ≡ (err value_error, db) =
                rw (e, in_, no_, e, not_settled) in
              inr (neither now agent c no_ not_settled, rw refused tt, rw refused refl)
        ]
      ]
    ]

-- Where a channel may be closed and neither balance is negative, closing it pays the balances, and it
-- held the deposits: with the deposits added, the books are as before with the balances added.
pub close-assets :
    (u now id agent : ℕ) (c : PaymentChannel) (db : Db)
    → find id db.channels ≡ some c
    → Closable now agent c
    → pos 0 ≤ℤ c.balance_a
    → pos 0 ≤ℤ c.balance_b
    → assets u (close now id agent db).1 +ℤ counted u xmr (c.deposit_a +ℤ c.deposit_b)
      ≡ assets u db +ℤ counted u xmr (c.balance_a +ℤ c.balance_b)
unfolding assets in_channel
close-assets u now id agent c db e ready pa pb = elim (close_outcome now id agent c db e) [
  | inl (_, done) ↦
      let rows = paid now c.agent_a_id c.balance_a xmr db.balances in
      rw done (
        omega (
          int_laws,
          parts (held-paid u now c.agent_a_id xmr c.balance_a db.balances pa),
          parts (held-paid u now c.agent_b_id xmr c.balance_b rows pb),
          parts (counted-add u xmr c.balance_a c.balance_b),
          parts (counted_zero u xmr),
          parts (held_before u now agent c ready),
          parts (sum-set (in_channel u) id (closed_result now c) c db.channels e),
        ))
  | inr (not_ready, _, _) ↦ absurd (not_ready ready)
]
  where
    held_before :
        (u now agent : ℕ) (c : PaymentChannel)
        → Closable now agent c
        → in_channel u c ≡ counted u xmr (c.deposit_a +ℤ c.deposit_b)
    held_before u now agent c ready = ground arith
