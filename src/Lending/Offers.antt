-- ===== src/Lending/Offers.antt =====
-- The choice of an offer: it fits the request, and none that fits is cheaper.
use sthrip.Base.{
  ℕ, ◌≡◌, ◌≤◌, ◌<◌, ◌⊎◌, ◌==◌, ==→eq, none, some, List, [], inl, inr, ◌∷◌, arith, Bool, true, false,
  ◌&&◌, ◌||◌, ltb, length, Bool-cases, Option-cases, refl, ◌-◌,
}
use sthrip.Base.Int.{ℤ, pos, ◌≤ℤ◌, ◌<ℤ◌}
use sthrip.Base.Table.{Table}
use sthrip.Models.Lending.{LendingOffer}
use sthrip.Models.Database.{Db}
use sthrip.Lending.Loans.{TieOrder, is_offered, sorted_offers, insert_by_rate, limited}
use sthrip.Lending.Service.{LoanRequest, is_matching, best_offer}

-- The offer can be taken for the request by a borrower with the score.
abbrev pub Fits : ℕ → ℤ → LoanRequest → LendingOffer → Type 0
Fits now score r o =
    (o.is_active ≡ true)
    × (o.currency ≡ r.currency)
    × (now < o.expires_at)
    × (r.amount ≤ℤ o.remaining_amount)
    × (r.duration_secs ≤ o.max_duration_secs)
    × (o.min_borrower_credit_score ≤ℤ score)
    × (¬ (o.lender_id ≡ r.borrower_id))
    × ((o.require_collateral ≡ false) ⊎ (pos 0 <ℤ r.collateral_amount))

-- The offer is a row of the table.
abbrev pub Stands : LendingOffer → Table LendingOffer → Type 0
Stands o [] = ⊥
Stands o ((_, o') ∷ t) = (o ≡ o') ⊎ Stands o t

-- It stands in the table, it fits, and no other that does is cheaper.
abbrev pub IsCheapest : ℕ → ℤ → LoanRequest → Db → LendingOffer → Type 0
IsCheapest now score r db o =
    Stands o db.offers
    × Fits now score r o
    × ((q : LendingOffer)
        → Stands q db.offers
        → Fits now score r q
        → o.interest_rate_bps ≤ q.interest_rate_bps)

abbrev pub NoneFits : ℕ → ℤ → LoanRequest → Db → Type 0
NoneFits now score r db = (q : LendingOffer) → Stands q db.offers → ¬ Fits now score r q

abbrev pub offers_for : TieOrder → ℕ → LoanRequest → Db → List LendingOffer
offers_for ties now r db =
    limited 50 (sorted_offers ties (is_offered now r.currency r.amount r.duration_secs) db.offers)

-- The query's limit cuts nothing off.
abbrev pub IsWhole : TieOrder → ℕ → LoanRequest → Db → Type 0
IsWhole ties now r db =
    length (sorted_offers ties (is_offered now r.currency r.amount r.duration_secs) db.offers) ≤ 50

module _ (now : ℕ) (score : ℤ) (r : LoanRequest) (o : LendingOffer) where
  accepted-Fits :
      is_offered now r.currency r.amount r.duration_secs o ≡ true
      → is_matching score r o ≡ true
      → Fits now score r o
  accepted-Fits open_now m = ground (arith, ==→eq o.currency r.currency)

  Fits-is_offered : Fits now score r o → is_offered now r.currency r.amount r.duration_secs o ≡ true
  Fits-is_offered h = ground arith

  Fits-is_matching : Fits now score r o → is_matching score r o ≡ true
  Fits-is_matching h = ground (arith, ==→eq o.lender_id r.borrower_id)

abbrev In : LendingOffer → List LendingOffer → Type 0
In x [] = ⊥
In x (o ∷ os) = (x ≡ o) ⊎ In x os

abbrev AtLeast : ℕ → List LendingOffer → Type 0
AtLeast rate os = (x : LendingOffer) → In x os → rate ≤ x.interest_rate_bps

abbrev Sorted : List LendingOffer → Type 0
Sorted [] = Unit
Sorted (o ∷ os) = AtLeast o.interest_rate_bps os × Sorted os

module _ (ties : TieOrder) where
  abbrev before : LendingOffer → LendingOffer → Bool
  before o o' =
      ltb o.interest_rate_bps o'.interest_rate_bps
      || (o.interest_rate_bps == o'.interest_rate_bps && ties o o')

  In-insert :
      (x o : LendingOffer) (os : List LendingOffer)
      → In x (insert_by_rate ties o os)
      → (x ≡ o) ⊎ In x os
  unfolding insert_by_rate
  In-insert x o [] h = h
  In-insert x o (o' ∷ os) h = elim (Bool-cases (before o o')) [
    | inl e ↦ rw e at h
    | inr e ↦ elim (rw e at h) [
      | inl same ↦ inr (inl same)
      | inr later ↦ elim (In-insert x o os later) [
        | inl here ↦ inl here
        | inr there ↦ inr (inr there)
      ]
    ]
  ]

  insert-In :
      (x o : LendingOffer) (os : List LendingOffer)
      → (x ≡ o) ⊎ In x os
      → In x (insert_by_rate ties o os)
  unfolding insert_by_rate
  insert-In x o [] h = h
  insert-In x o (o' ∷ os) h = elim (Bool-cases (before o o')) [
    | inl e ↦ rw e h
    | inr e ↦ rw e (elim h [
      | inl here ↦ inr (insert-In x o os (inl here))
      | inr (inl same) ↦ inl same
      | inr (inr later) ↦ inr (insert-In x o os (inr later))
    ])
  ]

  insert-Sorted :
      (o : LendingOffer) (os : List LendingOffer) → Sorted os → Sorted (insert_by_rate ties o os)
  unfolding insert_by_rate
  insert-Sorted o [] hs = ((λ x h. absurd h), tt)
  insert-Sorted o (o' ∷ os) (low, hs) = elim (Bool-cases (before o o')) [
    | inl e ↦
        let first : o.interest_rate_bps ≤ o'.interest_rate_bps = ground arith in
        rw e (
          (λ x h. elim h [
            | inl same ↦ rw same first
            | inr later ↦
                let high : o'.interest_rate_bps ≤ x.interest_rate_bps = low x later in omega arith
          ]),
          (low, hs),
        )
    | inr e ↦
        let first : o'.interest_rate_bps ≤ o.interest_rate_bps = ground arith in
        rw e (
          (λ x h. elim (In-insert x o os h) [ inl same ↦ rw same first | inr later ↦ low x later ]),
          insert-Sorted o os hs,
        )
  ]

  module _ (p : LendingOffer → Bool) where
    sorted_offers-Sorted : (t : Table LendingOffer) → Sorted (sorted_offers ties p t)
    unfolding sorted_offers
    sorted_offers-Sorted [] = tt
    sorted_offers-Sorted ((_, o) ∷ t) = elim (Bool-cases (p o)) [
      | inl e ↦ rw e (insert-Sorted o (sorted_offers ties p t) (sorted_offers-Sorted t))
      | inr e ↦ rw e (sorted_offers-Sorted t)
    ]

    In-sorted_offers :
        (x : LendingOffer) (t : Table LendingOffer)
        → In x (sorted_offers ties p t)
        → Stands x t × (p x ≡ true)
    unfolding sorted_offers
    In-sorted_offers x [] h = absurd h
    In-sorted_offers x ((_, o) ∷ t) h = elim (Bool-cases (p o)) [
      | inl e ↦ elim (In-insert x o (sorted_offers ties p t) (rw e at h)) [
        | inl same ↦ (inl same, rw same e)
        | inr later ↦ let (there, good) = In-sorted_offers x t later in (inr there, good)
      ]
      | inr e ↦ let (there, good) = In-sorted_offers x t (rw e at h) in (inr there, good)
    ]

    sorted_offers-In :
        (x : LendingOffer) (t : Table LendingOffer)
        → Stands x t
        → p x ≡ true
        → In x (sorted_offers ties p t)
    unfolding sorted_offers
    sorted_offers-In x [] h good = absurd h
    sorted_offers-In x ((_, o) ∷ t) h good = elim (Bool-cases (p o)) [
      | inl e ↦ rw e (
          insert-In x o (sorted_offers ties p t)
            (elim h [ inl same ↦ inl same | inr there ↦ inr (sorted_offers-In x t there good) ]))
      | inr e ↦ elim h [
        | inl same ↦ let bad : p x ≡ false = rw same e in absurd (clash bad)
        | inr there ↦ rw e (sorted_offers-In x t there good)
      ]
    ]
      where
        clash : p x ≡ false → ⊥
        clash bad = cc

module _ (score : ℤ) (r : LoanRequest) where
  best_offer-none :
      (os : List LendingOffer) (x : LendingOffer)
      → best_offer score r os ≡ none
      → In x os
      → is_matching score r x ≡ false
  unfolding best_offer
  best_offer-none [] x e h = absurd h
  best_offer-none (o ∷ os) x e h = elim (Bool-cases (is_matching score r o)) [
    | inl m ↦ ground arith
    | inr m ↦ elim h [ inl same ↦ rw same m | inr later ↦ best_offer-none os x (rw m at e) later ]
  ]

  best_offer-some :
      (os : List LendingOffer) (o : LendingOffer)
      → Sorted os
      → best_offer score r os ≡ some o
      → In o os
        × (is_matching score r o ≡ true)
        × ((x : LendingOffer)
            → In x os
            → is_matching score r x ≡ true
            → o.interest_rate_bps ≤ x.interest_rate_bps)
  unfolding best_offer
  best_offer-some [] o hs e = ground arith
  best_offer-some (o' ∷ os) o (low, hs) e = elim (Bool-cases (is_matching score r o')) [
    | inl m ↦
        let same : o ≡ o' = ground arith in
        (
          inl same,
          rw same m,
          λ x h good.
              rw same (elim h [ inl here ↦ rw here (omega arith) | inr later ↦ low x later ]),
        )
    | inr m ↦
        let (there, good, least) = best_offer-some os o hs (rw m at e) in
        (
          inr there,
          good,
          λ x h fit. elim h [
            | inl here ↦ let unfit : is_matching score r x ≡ false = rw here m in ground arith
            | inr later ↦ least x later fit
          ],
        )
  ]

limited_all : (n : ℕ) (os : List LendingOffer) → length os ≤ n → limited n os ≡ os
unfolding limited
limited_all n [] h = refl
limited_all n (o ∷ os) h = ground (arith, limited_all (n - 1) os)

-- Where no more than 50 offers are open for the amount, the token and the duration of a request, the
-- choice of its offer finds none only if no row of the table fits; what it finds is a row
-- that fits, and no row that fits has a lower rate.
pub best_offer-IsCheapest :
    (ties : TieOrder) (now : ℕ) (score : ℤ) (r : LoanRequest) (db : Db)
    → IsWhole ties now r db
    → ((best_offer score r (offers_for ties now r db) ≡ none) × NoneFits now score r db)
      ⊎ ((o : LendingOffer) × (best_offer score r (offers_for ties now r db) ≡ some o)
          × IsCheapest now score r db o)
best_offer-IsCheapest ties now score r db few =
    let p = is_offered now r.currency r.amount r.duration_secs in
    let os = sorted_offers ties p db.offers in
    rw (limited_all 50 os few) elim (Option-cases (best_offer score r os)) [
      | inl e ↦ inl (
        e,
        λ q there fit.
            let unfit =
              best_offer-none score r os q e
                (sorted_offers-In ties p q db.offers there (Fits-is_offered now score r q fit)) in
            let matches = Fits-is_matching now score r q fit in cc,
      )
      | inr (o, e) ↦
          let (there, m, least) =
            best_offer-some score r os o (sorted_offers-Sorted ties p db.offers) e in
          let (row, open_now) = In-sorted_offers ties p o db.offers there in
          inr (
            o,
            e,
            (
              row,
              accepted-Fits now score r o open_now m,
              λ q stands fit.
                  least q
                    (sorted_offers-In ties p q db.offers stands (Fits-is_offered now score r q fit))
                    (Fits-is_matching now score r q fit),
            ),
          )
    ]
