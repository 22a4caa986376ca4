-- ===== src/Escrow/Sweep.antt =====
-- The sweep over everything that has expired, `resolve_expired`.
use sthrip.Base.{ℕ, ◌≡◌, ◌+◌, List, [], ◌∷◌, refl}
use sthrip.Base.Action.{ok, ◌>>=◌, pure}
use sthrip.Base.Counts.{Counts, then-Counts, after-Counts}
use sthrip.Models.Database.{Db}
use sthrip.Escrow.Repo
use sthrip.Escrow.MilestoneRepo
use sthrip.Escrow.Expiry.{
  resolve_single, resolve_milestone_expiry, attempt, resolve_deals, resolve_milestones,
  resolve_expired, counted_result,
}
use sthrip.Escrow.TrustRange.{
  TrustInRange, resolve_single-TrustInRange, resolve_milestone_expiry-TrustInRange,
}

module _ (P : Db → Type 0) (now : ℕ) where
  pub resolve_deals-Counts :
      ((id : ℕ) (db : Db) → P db → P (resolve_single now id db).1)
      → (ids : List ℕ) (db : Db) → P db
      → Counts P (resolve_deals now ids db)
  unfolding resolve_deals attempt
  resolve_deals-Counts keeps [] db h = ((0, refl), h)
  resolve_deals-Counts keeps (id ∷ ids) db h =
      let (r, db') = resolve_single now id db in
      then-Counts P (λ n. counted_result r + n) (resolve_deals now ids db')
        (resolve_deals-Counts keeps ids db' (keeps id db h))

  pub resolve_milestones-Counts :
      ((id seq : ℕ) (db : Db) → P db → P (resolve_milestone_expiry now id seq db).1)
      → (keys : List (ℕ × ℕ)) (db : Db) → P db
      → Counts P (resolve_milestones now keys db)
  unfolding resolve_milestones attempt
  resolve_milestones-Counts keeps [] db h = ((0, refl), h)
  resolve_milestones-Counts keeps ((id, seq) ∷ keys) db h =
      let (r, db') = resolve_milestone_expiry now id seq db in
      then-Counts P (λ n. counted_result r + n) (resolve_milestones now keys db')
        (resolve_milestones-Counts keeps keys db' (keeps id seq db h))

  pub resolve_expired-Counts :
      ((id : ℕ) (db : Db) → P db → P (resolve_single now id db).1)
      → ((id seq : ℕ) (db : Db) → P db → P (resolve_milestone_expiry now id seq db).1)
      → (db : Db) → P db
      → Counts P (resolve_expired now db)
  unfolding resolve_expired
  resolve_expired-Counts single part db h =
      let keys : Db → List (ℕ × ℕ) = λ s. MilestoneRepo.get_pending_milestone_expiry now s.deals in
      after-Counts P (λ n s. (resolve_milestones now (keys s) >>= λ m. pure (n + m)) s)
        (resolve_deals now (Repo.get_pending_expiry now db.deals) db)
        (λ n s hs.
          then-Counts P (λ m. n + m)
            (resolve_milestones now (MilestoneRepo.get_pending_milestone_expiry now s.deals) s)
            (resolve_milestones-Counts part (MilestoneRepo.get_pending_milestone_expiry now s.deals)
              s hs))
        (resolve_deals-Counts single (Repo.get_pending_expiry now db.deals) db h)

-- Whatever single resolutions raise, the sweep does not. Where every trust score is between 0 and
-- 100 before it, every one is after it.
pub resolve_expired-TrustInRange :
    (now : ℕ) (db : Db)
    → TrustInRange db
    → ((n : ℕ) × ((resolve_expired now db).0 ≡ ok n)) × TrustInRange (resolve_expired now db).1
resolve_expired-TrustInRange now db h =
    resolve_expired-Counts TrustInRange now (resolve_single-TrustInRange now)
      (resolve_milestone_expiry-TrustInRange now) db h
