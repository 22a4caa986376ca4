-- ===== src/Scenarios/Addresses.antt =====
-- Runs of the conversion of bits.
use sthrip.Base.{ℕ, ◌≡◌, some, List, [], ◌∷◌, true, false, refl, arith}
use sthrip.Swaps.Bech32.{convertbits}
use sthrip.Swaps.RoundTrip.{convertbits_round_trip}

abbrev three_bytes : List ℕ
three_bytes = 255 ∷ 1 ∷ 37 ∷ []

convertbits_round_trip_example :
    (groups : List ℕ) × (convertbits three_bytes 8 5 true ≡ some groups)
    × (convertbits groups 5 8 false ≡ some three_bytes)
convertbits_round_trip_example =
    convertbits_round_trip three_bytes (omega arith, (omega arith, (omega arith, tt)))

five_groups : convertbits three_bytes 8 5 true ≡ some (31 ∷ 28 ∷ 0 ∷ 18 ∷ 10 ∷ [])
unfolding convertbits
five_groups = refl
