-- ===== src/Swaps/Rates.antt =====
-- `RateService.get_quote` (sthrip/services/rate_service.py). The rate itself comes from a cache over
-- an HTTP service and is a parameter. Products are exact here; Python's keep 28 digits.
use Prim.Native.Nat.{◌^◌}
use sthrip.Base.{
  ℕ, suc, ◌+◌, ◌*◌, ◌/◌, ◌%◌, ◌==◌, ◌&&◌, ◌||◌, Bool, false, not, ltb, List, [], ◌∷◌, if◌then◌else◌,
}
use sthrip.Base.Int.{ℤ, pos, negsuc, neg_ℕ, ◌-ℤ◌, leb_ℤ}
use sthrip.Base.Action.{Action, pure, raise_if, ◌>>◌, value_error}
use sthrip.Models.Parties.{xmr}
use sthrip.Models.Swaps.{Rate}
use sthrip.Models.Database.{Db}

-- The other currencies' numbers.
abbrev pub btc : ℕ
btc = 1

abbrev pub eth : ℕ
eth = 2

abbrev pub sol : ℕ
sol = 3

abbrev pub usd : ℕ
usd = 4

abbrev pub eur : ℕ
eur = 5

abbrev pub supported_pairs : List (ℕ × ℕ)
supported_pairs = (btc, xmr) ∷ (xmr, btc) ∷ (eth, xmr) ∷ (sol, xmr) ∷ (xmr, usd) ∷ (xmr, eur) ∷ []

abbrev pub is_supported : ℕ → ℕ → List (ℕ × ℕ) → Bool
is_supported a b [] = false
is_supported a b ((c, d) ∷ pairs) = (c == a && d == b) || is_supported a b pairs

-- n / d to the nearest number, a half to the even one.
unfoldable pub half_even : ℕ → ℕ → ℕ
half_even n d =
    let q = n / d in
    let r = n % d in if ltb d (2 * r) || (2 * r == d && q % 2 == 1) then q + 1 else q

-- `(x / d).quantize(Decimal("0.00000001"))` of units of 10^-16.
unfoldable pub quantized : ℤ → ℕ → ℤ
unfolding half_even
quantized (pos n) d = pos (100000000 * half_even n (d * 100000000))
quantized (negsuc n) d = neg_ℕ (100000000 * half_even (suc n) (d * 100000000))

abbrev pub times : ℤ → ℕ → ℤ
times (pos n) m = pos (n * m)
times (negsuc n) m = neg_ℕ (suc n * m)

pub record Quote : Type 0 where
  pub rate : Rate
  pub fee : ℤ
  pub to_amount : ℤ

-- A fee of one percent, and what the rest comes to.
unfoldable pub quote_of : Rate → ℤ → Quote
unfolding quantized
quote_of rate x =
    let fee = quantized x 100 in
    record {
      rate = rate;
      fee = fee;
      to_amount = quantized (times (x -ℤ fee) rate.digits) (10 ^ rate.places);
    }

-- `get_rate` refuses a pair that is not supported.
unfoldable pub get_quote : (ℕ → ℕ → Rate) → ℕ → ℤ → ℕ → Action Db Quote
get_quote get_rate a x b = do
  raise_if (leb_ℤ x (pos 0)) value_error
  raise_if (not (is_supported a b supported_pairs)) value_error
  pure (quote_of (get_rate a b) x)
