-- ===== src/Channel/Updates.antt =====
-- How the submission of an off-chain update ends.
use sthrip.Base.{ℕ, ◌≡◌, ◌⊎◌, some, List, [], ◌∷◌, arith, true, false}
use sthrip.Base.Int.{ℤ, ◌+ℤ◌, ◌≤ℤ◌, ◌<ℤ◌, ◌==ℤ◌, int_laws}
use sthrip.Base.Table.{find}
use sthrip.Base.Action.{ok, Raised}
use sthrip.Models.Channel.{PaymentChannel, ChannelUpdate}
use sthrip.Models.Database.{Db}
use sthrip.Channel.Repo.{Signed, new_update, latest_nonce, has_update}
use sthrip.Channel.Service.{submit_update, is_stranger}

-- `latest_nonce` starts from its argument and only grows.
latest_nonce-grows : (id : ℕ) (n : ℤ) (us : List ChannelUpdate) → n ≤ℤ latest_nonce id n us
unfolding latest_nonce
latest_nonce-grows id n [] = omega int_laws
latest_nonce-grows id n (u ∷ us) =
    grind (int_laws, latest_nonce-grows id n us, latest_nonce-grows id u.nonce us)

-- A nonce above the latest is in no update of the channel.
has_update-latest_nonce :
    (id : ℕ) (n nonce : ℤ) (us : List ChannelUpdate)
    → latest_nonce id n us <ℤ nonce
    → has_update id nonce us ≡ false
unfolding latest_nonce has_update
has_update-latest_nonce id n nonce [] h = ground arith
has_update-latest_nonce id n nonce (u ∷ us) h = ground (
  arith,
  latest_nonce-grows id u.nonce us,
  latest_nonce-grows id n us,
  has_update-latest_nonce id n nonce us,
  has_update-latest_nonce id u.nonce nonce us,
)

-- The nonce is new, the sender takes part, and the balances share out the deposits.
abbrev pub Acceptable : ℕ → ℕ → Signed → PaymentChannel → Db → Type 0
Acceptable id agent s c db =
    (is_stranger agent c ≡ false)
    × (latest_nonce id c.nonce db.updates <ℤ s.nonce)
    × ((s.balance_a +ℤ s.balance_b ==ℤ c.deposit_a +ℤ c.deposit_b) ≡ true)

-- For a channel that is there, either the update is acceptable, and the call stores and returns it,
-- or it is not, and the call raises with the session as it was.
pub submit_update_outcome :
    (id agent : ℕ) (s : Signed) (c : PaymentChannel) (db : Db)
    → find id db.channels ≡ some c
    → (Acceptable id agent s c db
        × (submit_update id agent s db
            ≡ (ok (new_update id s), record db { updates = new_update id s ∷ db.updates })))
      ⊎ ((¬ Acceptable id agent s c db)
          × Raised (submit_update id agent s db).0
          × ((submit_update id agent s db).1 ≡ db))
unfolding submit_update
submit_update_outcome id agent s c db e =
    ground (arith, has_update-latest_nonce id c.nonce s.nonce db.updates)
