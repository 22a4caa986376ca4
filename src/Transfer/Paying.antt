-- ===== src/Transfer/Paying.antt =====
-- A payment to several agents returns, and what it pays.
use sthrip.Base.{◌∙◌, none, ℕ, ◌≡◌, String, Option, List, [], ◌∷◌, ◌==◌, if◌then◌else◌, arith, refl}
use sthrip.Base.Int.{ℤ, pos, ◌+ℤ◌, ◌-ℤ◌, ◌≤ℤ◌}
use sthrip.Base.Action.{ok, bind-ok, pure}
use sthrip.Models.Transfers.{Transaction}
use sthrip.Models.Database.{Db}
use sthrip.Ledger.Rows.{
  credit, deduct, amend, add_available, take_available, get_for_update, find_row,
}
use sthrip.Ledger.Balance.{available_of}
use sthrip.Base.Table.{Table, find}
use sthrip.Transfer.Repo.{create, find_by_hash, new_transaction}
use sthrip.Transfer.Split.{
  Share, Payee, resolve, total_of, pay_one, pay_each, pay_resolved, pay_split, terms_for,
}
use sthrip.Transfer.Shares.{
  share_of, others_then, paid_then, logged, resolve-same, resolve-reads, pay_resolved-available_of,
}

module _ (now sender currency : ℕ) (memo : Option String) where
  -- No key and no hash of a new row is taken, by another new row neither.
  abbrev pub Storable : List Payee → Table Transaction → Type 0
  Storable [] rows = Unit
  Storable (p ∷ ps) rows =
      (find p.share.tx_id rows ≡ none)
      × (find_by_hash p.share.tx_hash rows ≡ none)
      × Storable ps ((p.share.tx_id, new_transaction now (terms_for sender currency memo p)) ∷ rows)

  abbrev stored_state : Payee → Db → Db
  stored_state p db = record db {
    balances = amend now p.agent_id currency (add_available now p.share.amount) db.balances;
    transactions =
        (p.share.tx_id, new_transaction now (terms_for sender currency memo p)) ∷ db.transactions;
  }

  pay_one-ok :
      (p : Payee) (db : Db)
      → find p.share.tx_id db.transactions ≡ none
      → find_by_hash p.share.tx_hash db.transactions ≡ none
      → pay_one now sender currency memo p db
        ≡ (ok (new_transaction now (terms_for sender currency memo p)), stored_state p db)
  unfolding pay_one create credit
  pay_one-ok p db new_key new_hash = rw (new_key, new_hash) refl

  pay_each-ok :
      (ps : List Payee) (db : Db)
      → Storable ps db.transactions
      → (receipts : List Transaction) × (db' : Db) × (pay_each now sender currency memo ps db
          ≡ (ok receipts, db'))
  unfolding pay_each others_then
  pay_each-ok [] db h = ([], db, refl)
  pay_each-ok (p ∷ ps) db (new_key, new_hash, others) =
      let (receipts, db', paid) = pay_each-ok ps (stored_state p db) others in
      let tx = new_transaction now (terms_for sender currency memo p) in
      (
        tx ∷ receipts,
        db',
        bind-ok (pay_one now sender currency memo p) (others_then now sender currency memo ps) db tx
              (stored_state p db) (pay_one-ok p db new_key new_hash)
            ∙ bind-ok (pay_each now sender currency memo ps) (λ rs. pure (tx ∷ rs))
                (stored_state p db) receipts db' paid,
      )

  deduct-ok :
      (total : ℤ) (db : Db)
      → total ≤ℤ available_of sender currency db
      → deduct now sender total currency db ≡ (
        ok tt,
        record db { balances = amend now sender currency (take_available now total) db.balances },
      )
  unfolding deduct available_of get_for_update find_row
  deduct-ok total db h = ground arith

  pay_resolved-ok :
      (payees : List Payee) (db : Db)
      → total_of payees ≤ℤ available_of sender currency db
      → Storable payees db.transactions
      → (receipts : List Transaction) × (db' : Db) × (pay_resolved now sender currency memo payees
            db
          ≡ (ok receipts, db'))
  unfolding pay_resolved paid_then logged
  pay_resolved-ok payees db enough new =
      let s : Db = record db {
        balances = amend now sender currency (take_available now (total_of payees)) db.balances;
      } in
      let (receipts, db', paid) = pay_each-ok payees s new in
      (
        receipts,
        (logged now sender currency memo receipts db').1,
        bind-ok (deduct now sender (total_of payees) currency)
              (paid_then now sender currency memo payees) db tt s
              (deduct-ok (total_of payees) db enough)
            ∙ bind-ok (pay_each now sender currency memo payees) (logged now sender currency memo) s
                receipts db' paid,
      )

  -- A payment to several agents, where there is at least one entry, every name is found and is not
  -- the sender's, the sender has the sum of the shares, and no key or hash of a new row is taken:
  -- it returns, and it has taken the sum of the shares from the sender, has given each agent the
  -- sum of its own shares, and has left every other balance.
  pub pay_split_pays :
      (s : Share) (ss : List Share) (db : Db) (payees : List Payee)
      → (resolve sender (s ∷ ss) db).0 ≡ ok payees
      → total_of payees ≤ℤ available_of sender currency db
      → Storable payees db.transactions
      → (receipts : List Transaction) × (db' : Db) × (pay_split now sender (s ∷ ss) currency memo db
          ≡ (ok receipts, db'))
        × (share_of sender payees ≡ pos 0)
        × ((j u : ℕ)
            → available_of j u db' ≡ (
                if currency == u
                then (available_of j u db +ℤ share_of j payees)
                  -ℤ (if sender == j then total_of payees else pos 0)
                else available_of j u db))
  unfolding pay_split
  pay_split_pays s ss db payees found enough new =
      let (receipts, db', paid) = pay_resolved-ok payees db enough new in
      let named : resolve sender (s ∷ ss) db ≡ (ok payees, db) =
        λ i. (found i, resolve-same now sender currency memo (s ∷ ss) db i) in
      (
        receipts,
        db',
        bind-ok (resolve sender (s ∷ ss)) (pay_resolved now sender currency memo) db payees db named
            ∙ paid,
        (resolve-reads now sender currency memo (s ∷ ss) db payees db named).1,
        pay_resolved-available_of now sender currency memo payees db receipts db' paid,
      )
