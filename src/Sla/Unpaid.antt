-- ===== src/Sla/Unpaid.antt =====
-- What becomes of the price of a contract, and of contracts past their deadlines.
use sthrip.Base.{
  ℕ, ◌≡◌, String, some, List, arith, inl, inr, refl, ◌==◌, ◌&&◌, ==-refl, ==→eq, Bool-cases, true,
  sym, ap, ◌∙◌,
}
use sthrip.Base.Int.{ℤ, int_laws}
use sthrip.Base.Table.{find}
use sthrip.Base.Action.{ok}
use sthrip.Models.Parties.{AgentBalance, xmr}
use sthrip.Models.Escrow.{EscrowDeal}
use sthrip.Models.Agreements.{SlaContract}
use sthrip.Models.Database.{Db, Balances}
use sthrip.Ledger.Rows.{get_for_update, find_row, amend, take_available, add_available}
use sthrip.Ledger.Balance.{available_of, amount_in, find_row-amend}
use sthrip.Escrow.Deals.{cancel_escrow}
use sthrip.Escrow.Repo.{cancelled_deal}
use sthrip.Escrow.Creation.{created_deal}
use sthrip.Escrow.Outcomes.{cancel_escrow_outcome, cancelled_state}
use sthrip.Sla.Repo.{Terms}
use sthrip.Sla.Service.{create_contract, escrow_request}
use sthrip.Sla.Creation.{created_state, create_contract_outcome, locked}
use sthrip.Sla.Lifecycle.{Later, perform_laters, perform_laters-Proceeds}

-- Locking a row shows in no balance.
locked-available_of :
    (now j u : ℕ) (r : Terms) (db : Db) → available_of j u (locked now r db) ≡ available_of j u db
unfolding available_of get_for_update find_row
locked-available_of now j u r db = ground arith

locked_amount :
    (now a t j u : ℕ) (rows : Balances)
    → (a == j && t == u) ≡ true
    → amount_in (find_row j u rows) ≡ (get_for_update now a t rows).0.available
unfolding get_for_update
locked_amount now a t j u rows h = ground (arith, ==→eq a j, ==→eq t u)

locked_found :
    (now a t : ℕ) (r : AgentBalance) (rows : Balances)
    → find_row a t rows ≡ some r
    → (get_for_update now a t rows).0 ≡ r
unfolding get_for_update
locked_found now a t r rows e = ground arith

-- An amount that was taken and is given back.
taken_and_given_back :
    (now later a t : ℕ) (x : ℤ) (rows : Balances) (j u : ℕ)
    → amount_in (
        find_row j u
          (amend later a t (add_available later x) (amend now a t (take_available now x) rows)))
      ≡ amount_in (find_row j u rows)
taken_and_given_back now later a t x rows j u =
    let between = find_row-amend j u now a t (take_available now x) rows in
    let rows' = amend now a t (take_available now x) rows in
    let after = find_row-amend j u later a t (add_available later x) rows' in
    elim (Bool-cases (a == j && t == u)) [
      | inl here ↦
          let taken : AgentBalance = take_available now x (get_for_update now a t rows).0 in
          let there : find_row a t rows' ≡ some taken =
            rw (find_row-amend a t now a t (take_available now x) rows, ==-refl a, ==-refl t)
              refl in
          rw
            (
              after,
              here,
              locked_found later a t taken rows' there,
              locked_amount now a t j u rows here,
            )
            (omega int_laws)
      | inr other ↦ rw (after, other, between, other) refl
    ]

module _ (now later deal id : ℕ) (hash : String) (r : Terms) (db : Db) where
  -- The consumer's cancellation of a new contract's deal, in a session with the same balances and
  -- deals as that in which the contract was created.
  cancels :
      (s : Db)
      → s.balances ≡ (created_state now deal id hash r db).balances
      → s.deals ≡ (created_state now deal id hash r db).deals
      → (d : EscrowDeal) × (s' : Db) × (cancel_escrow later deal r.consumer_id s ≡ (ok d, s'))
        × ((j u : ℕ) → available_of j u s' ≡ available_of j u db)
  cancels s same_rows same_deals =
      let d = created_deal now hash (escrow_request r) in
      let there : find deal s.deals ≡ some d =
        rw same_deals (unfold find in rw (==-refl deal) refl) in
      elim (cancel_escrow_outcome later deal r.consumer_id d s there) [
        | inl (_, done) ↦ (
          cancelled_deal later d,
          cancelled_state later deal r.consumer_id d s,
          done,
          λ j u.
              unfold available_of in
              rw same_rows (
                taken_and_given_back now later r.consumer_id xmr r.price (locked now r db).balances
                  j u
                ∙ locked-available_of now j u r db),
        )
        | inr (refused, _, _) ↦ absurd (refused (refl, refl))
      ]

  -- Once a contract was created, whatever calls on contracts follow, and whatever the task does, its
  -- price stays in the deal that was made with it, also when it has been delivered, verified and
  -- completed: the consumer can then cancel that deal, and every agent has the balances that it had
  -- before the contract.
  pub price_can_be_taken_back :
      (c : SlaContract) (s : Db) (cs : List Later)
      → create_contract now deal id hash r db ≡ (ok c, s)
      → (d : EscrowDeal) × (s' : Db) × (cancel_escrow later deal r.consumer_id (perform_laters cs s)
          ≡ (ok d, s'))
        × ((j u : ℕ) → available_of j u s' ≡ available_of j u db)
  price_can_be_taken_back c s cs done = elim (create_contract_outcome now deal id hash r db) [
    | inl (_, created) ↦
        let same : s ≡ created_state now deal id hash r db = ap (λ x. x.1) (sym done ∙ created) in
        let kept = (perform_laters-Proceeds cs s).0 in
        cancels (perform_laters cs s)
          (ap (λ (x : Db). x.balances) kept ∙ ap (λ (x : Db). x.balances) same)
          (ap (λ (x : Db). x.deals) kept ∙ ap (λ (x : Db). x.deals) same)
    | inr (_, raised) ↦ absurd (rw done at raised)
  ]
