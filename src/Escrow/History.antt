-- ===== src/Escrow/History.antt =====
-- Any sequence of calls on the escrow service, each in its transaction.
use sthrip.Base.{ℕ, ◌≡◌, String, List, [], ◌∷◌, refl, inl, inr, ◌∙◌}
use sthrip.Base.Int.{ℤ}
use sthrip.Base.Action.{Action, Result-cases, transact, transact-Raised}
use sthrip.Models.Database.{Db}
use sthrip.Accounting.{assets}
use sthrip.Escrow.Deals.{
  Request, create_escrow, accept_escrow, deliver_escrow, release_escrow, cancel_escrow,
}
use sthrip.Escrow.Milestones.{deliver_milestone, release_milestone}
use sthrip.Escrow.Creation.{create_escrow_outcome, create_escrow-assets, created_deal-IsWellFormed}
use sthrip.Escrow.Conservation.{
  accept_escrow-assets, deliver_escrow-assets, release_escrow-assets, cancel_escrow-assets,
}
use sthrip.Escrow.MilestoneBooks.{release_milestone-assets, deliver_milestone-assets}
use sthrip.Escrow.Preservation.{
  AllWellFormed, accept_escrow-AllWellFormed, deliver_escrow-AllWellFormed,
  release_escrow-AllWellFormed, cancel_escrow-AllWellFormed, deliver_milestone-AllWellFormed,
  release_milestone-AllWellFormed,
}

-- A call of an agent, with the time at which it comes.
pub data Call : Type 0 where
  create : ℕ → ℕ → String → Request → Call
  accept deliver cancel : ℕ → ℕ → ℕ → Call
  release : ℕ → ℕ → ℕ → ℤ → Call
  deliver_part : ℕ → ℕ → ℕ → ℕ → Call
  release_part : ℕ → ℕ → ℕ → ℕ → ℤ → Call

-- The database after the call's transaction.
unfoldable pub perform : Call → Db → Db
perform (Call.create now id hash r) db = (transact (create_escrow now id hash r) db).1
perform (Call.accept now id seller) db = (transact (accept_escrow now id seller) db).1
perform (Call.deliver now id seller) db = (transact (deliver_escrow now id seller) db).1
perform (Call.cancel now id buyer) db = (transact (cancel_escrow now id buyer) db).1
perform (Call.release now id buyer amount) db = (transact (release_escrow now id buyer amount) db).1
perform (Call.deliver_part now id seq seller) db =
    (transact (deliver_milestone now id seq seller) db).1
perform (Call.release_part now id seq buyer amount) db =
    (transact (release_milestone now id seq buyer amount) db).1

unfoldable pub perform_all : List Call → Db → Db
perform_all [] db = db
perform_all (c ∷ cs) db = perform_all cs (perform c db)

-- A fact about the session at the start and at the end of a call holds after its transaction.
transact-keeps :
    {A : Type 0} (P : Db → Type 0) (m : Action Db A) (db : Db)
    → P db
    → P (m db).1
    → P (transact m db).1
unfolding transact
transact-keeps P m db before after = elim (Result-cases (m db).0) [
  | inl (a, e) ↦ rw e after
  | inr (x, e) ↦ rw e before
]

create_escrow-AllWellFormed :
    (now id : ℕ) (hash : String) (r : Request) (db : Db)
    → AllWellFormed db
    → AllWellFormed (transact (create_escrow now id hash r) db).1
create_escrow-AllWellFormed now id hash r db ws = elim (create_escrow_outcome now id hash r db) [
  | inl (ready, done) ↦
      unfold transact in (rw done (created_deal-IsWellFormed now id hash r db ready, ws))
  | inr (_, raised) ↦ rw (transact-Raised (create_escrow now id hash r) db raised) ws
]

-- One call keeps the books of every token, and leaves deals that are well formed.
perform-keeps :
    (u : ℕ) (c : Call) (db : Db)
    → AllWellFormed db
    → AllWellFormed (perform c db) × (assets u (perform c db) ≡ assets u db)
unfolding perform
perform-keeps u (Call.create now id hash r) db ws =
    (create_escrow-AllWellFormed now id hash r db ws, create_escrow-assets u now id hash r db)
perform-keeps u (Call.accept now id seller) db ws = (
  transact-keeps AllWellFormed (accept_escrow now id seller) db ws
      (accept_escrow-AllWellFormed now id seller db ws),
  transact-keeps (λ s. assets u s ≡ assets u db) (accept_escrow now id seller) db refl
      (accept_escrow-assets u now id seller db ws),
)
perform-keeps u (Call.deliver now id seller) db ws = (
  transact-keeps AllWellFormed (deliver_escrow now id seller) db ws
      (deliver_escrow-AllWellFormed now id seller db ws),
  transact-keeps (λ s. assets u s ≡ assets u db) (deliver_escrow now id seller) db refl
      (deliver_escrow-assets u now id seller db),
)
perform-keeps u (Call.cancel now id buyer) db ws = (
  transact-keeps AllWellFormed (cancel_escrow now id buyer) db ws
      (cancel_escrow-AllWellFormed now id buyer db ws),
  transact-keeps (λ s. assets u s ≡ assets u db) (cancel_escrow now id buyer) db refl
      (cancel_escrow-assets u now id buyer db),
)
perform-keeps u (Call.release now id buyer amount) db ws = (
  transact-keeps AllWellFormed (release_escrow now id buyer amount) db ws
      (release_escrow-AllWellFormed now id buyer amount db ws),
  transact-keeps (λ s. assets u s ≡ assets u db) (release_escrow now id buyer amount) db refl
      (release_escrow-assets u now id buyer amount db ws),
)
perform-keeps u (Call.deliver_part now id seq seller) db ws = (
  transact-keeps AllWellFormed (deliver_milestone now id seq seller) db ws
      (deliver_milestone-AllWellFormed now id seq seller db ws),
  transact-keeps (λ s. assets u s ≡ assets u db) (deliver_milestone now id seq seller) db refl
      (deliver_milestone-assets u now id seq seller db),
)
perform-keeps u (Call.release_part now id seq buyer amount) db ws = (
  transact-keeps AllWellFormed (release_milestone now id seq buyer amount) db ws
      (release_milestone-AllWellFormed now id seq buyer amount db ws),
  transact-keeps (λ s. assets u s ≡ assets u db) (release_milestone now id seq buyer amount) db refl
      (release_milestone-assets u now id seq buyer amount db ws),
)

-- Whatever calls the agents make, in whatever order and at whatever times, refused ones included,
-- a database of well-formed deals keeps such deals, and the books of every token are as before.
pub perform_all-assets :
    (u : ℕ) (cs : List Call) (db : Db)
    → AllWellFormed db
    → AllWellFormed (perform_all cs db) × (assets u (perform_all cs db) ≡ assets u db)
unfolding perform_all
perform_all-assets u [] db ws = (ws, refl)
perform_all-assets u (c ∷ cs) db ws =
    let (ws', kept) = perform-keeps u c db ws in
    let (ws'', later) = perform_all-assets u cs (perform c db) ws' in (ws'', later ∙ kept)
