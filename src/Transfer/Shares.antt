-- ===== src/Transfer/Shares.antt =====
-- What a payment to several agents does to every balance.
use sthrip.Base.{
  ◌∙◌, none, some, ℕ, ◌≡◌, String, Option, List, [], ◌∷◌, ◌==◌, ◌&&◌, if◌then◌else◌, inl, inr,
  arith, refl, false, Bool-cases, ap, ==→eq,
}
use sthrip.Base.Int.{ℤ, pos, ◌+ℤ◌, ◌-ℤ◌, int_laws}
use sthrip.Base.Action.{Result, ok, err, value_error, >>=-eq-ok, Action, pure, ◌>>=◌, ◌>>◌}
use sthrip.Models.Transfers.{Transaction}
use sthrip.Models.Database.{Db, audit_log}
use sthrip.Ledger.Rows.{credit, deduct}
use sthrip.Ledger.Balance.{available_of, credit-available_of, deduct-available_of}
use sthrip.Transfer.Repo.{create}
use sthrip.Transfer.Split.{
  Share, Payee, resolve_one, resolve, total_of, pay_one, pay_each, pay_resolved,
}

-- The sum of the shares of agent `j`.
unfoldable pub share_of : ℕ → List Payee → ℤ
share_of j [] = pos 0
share_of j (p ∷ ps) = (if p.agent_id == j then p.share.amount else pos 0) +ℤ share_of j ps

module _ (now sender currency : ℕ) (memo : Option String) where
  pay_one-available_of :
      (p : Payee) (db : Db) (tx : Transaction) (db' : Db)
      → pay_one now sender currency memo p db ≡ (ok tx, db')
      → (j u : ℕ)
      → available_of j u db' ≡ (
          if p.agent_id == j && currency == u
          then available_of p.agent_id currency db +ℤ p.share.amount
          else available_of j u db)
  unfolding pay_one available_of create credit
  pay_one-available_of p db tx db' done j u =
      ground (arith, credit-available_of now p.agent_id currency p.share.amount db j u)

  unfoldable pub others_then : List Payee → Transaction → Action Db (List Transaction)
  others_then ps tx = do receipts ← pay_each now sender currency memo ps; pure (tx ∷ receipts)

  pub pay_each-available_of :
      (ps : List Payee) (db : Db) (receipts : List Transaction) (db' : Db)
      → pay_each now sender currency memo ps db ≡ (ok receipts, db')
      → (j u : ℕ)
      → available_of j u db'
        ≡ (if currency == u then available_of j u db +ℤ share_of j ps else available_of j u db)
  unfolding pay_each share_of others_then
  pay_each-available_of [] db receipts db' done j u =
      let same : db' ≡ db = cc in
      rw same (elim (Bool-cases (currency == u)) [
        | inl here ↦ rw here (omega int_laws)
        | inr other ↦ rw other refl
      ])
  pay_each-available_of (p ∷ ps) db receipts db' done j u =
      let (tx, s, first, rest) =
        >>=-eq-ok (pay_one now sender currency memo p) (others_then ps) db done in
      let (others, s', paid, end) =
        >>=-eq-ok (pay_each now sender currency memo ps) (λ rs. pure (tx ∷ rs)) s rest in
      let same : db' ≡ s' = cc in
      let ih = pay_each-available_of ps s others s' paid j u in
      let there = pay_one-available_of p db tx s first j u in
      rw same (grind (int_laws, ==→eq p.agent_id j, ==→eq currency u))

  resolve_one-reads :
      (s : Share) (db : Db) (p : Payee) (db' : Db)
      → resolve_one sender s db ≡ (ok p, db')
      → (db' ≡ db) × ((p.agent_id == sender) ≡ false)
  unfolding resolve_one
  resolve_one-reads s db p db' e = (ground arith, ground arith)

  resolve_one-same : (s : Share) (db : Db) → (resolve_one sender s db).1 ≡ db
  unfolding resolve_one
  resolve_one-same s db = ground arith

  pub resolve-same : (shares : List Share) (db : Db) → (resolve sender shares db).1 ≡ db
  unfolding resolve
  resolve-same [] db = refl
  resolve-same (s ∷ ss) db = ground (arith, resolve_one-same s db, resolve-same ss db)

  resolve_then : List Share → Payee → Action Db (List Payee)
  resolve_then ss p = do ps ← resolve sender ss; pure (p ∷ ps)

  -- Resolving names changes nothing, and finds no share for the sender.
  pub resolve-reads :
      (shares : List Share) (db : Db) (payees : List Payee) (db' : Db)
      → resolve sender shares db ≡ (ok payees, db')
      → (db' ≡ db) × (share_of sender payees ≡ pos 0)
  unfolding resolve share_of resolve_then
  resolve-reads [] db payees db' e =
      let none_ : payees ≡ [] = cc in let same : db' ≡ db = cc in (same, rw none_ refl)
  resolve-reads (s ∷ ss) db payees db' e =
      let (p, s1, one, rest) = >>=-eq-ok (resolve_one sender s) (resolve_then ss) db e in
      let (ps, s2, others, end) = >>=-eq-ok (resolve sender ss) (λ ps. pure (p ∷ ps)) s1 rest in
      let (same, other) = resolve_one-reads s db p s1 one in
      let (same', none_) = resolve-reads ss s1 ps s2 others in
      let here : payees ≡ p ∷ ps = cc in
      let last : db' ≡ s2 = cc in (last ∙ same' ∙ same, rw (here, other, none_) (omega int_laws))

  unfoldable pub paid_then : List Payee → Unit {0} → Action Db (List Transaction)
  paid_then payees _ = do
    receipts ← pay_each now sender currency memo payees
    audit_log "split_payment.executed" (some sender) none
    pure receipts

  unfoldable pub logged : List Transaction → Action Db (List Transaction)
  logged receipts = do audit_log "split_payment.executed" (some sender) none; pure receipts

  pub pay_resolved-available_of :
      (payees : List Payee) (db : Db) (receipts : List Transaction) (db' : Db)
      → pay_resolved now sender currency memo payees db ≡ (ok receipts, db')
      → (j u : ℕ)
      → available_of j u db' ≡ (
          if currency == u
          then (available_of j u db +ℤ share_of j payees)
            -ℤ (if sender == j then total_of payees else pos 0)
          else available_of j u db)
  unfolding pay_resolved paid_then logged
  pay_resolved-available_of payees db receipts db' done j u =
      let (_, s, taken, rest) =
        >>=-eq-ok (deduct now sender (total_of payees) currency) (paid_then payees) db done in
      let (rs, s', paid, end) =
        >>=-eq-ok (pay_each now sender currency memo payees) logged s rest in
      let there = pay_each-available_of payees s rs s' paid j u in
      let last : available_of j u db' ≡ available_of j u s' = unfold available_of in ground arith in
      elim (deduct-available_of now sender currency (total_of payees) db j u) [
        | inl (_, refused, _) ↦ absurd (clash _ (ap (λ x. x.0) taken) refused)
        | inr (_, _, less) ↦ rw last (grind (int_laws, ==→eq sender j, ==→eq currency u))
      ]
    where
      clash : (r : Result (Unit {0})) → r ≡ ok tt → r ≡ err value_error → ⊥
      clash r e f = cc
