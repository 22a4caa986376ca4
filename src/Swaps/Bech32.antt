-- ===== src/Swaps/Bech32.antt =====
-- `convertbits` of sthrip/swaps/utils/bitcoin.py. Its values are not negative here.
use Prim.Native.Nat.{◌^◌}
use sthrip.Base.{
  ℕ, zero, suc, ◌+◌, ◌-◌, ◌*◌, ◌/◌, ◌%◌, ◌==◌, ◌||◌, not, none, some, Option, List, [], ◌∷◌, ◌++◌,
  Bool, leb, if◌then◌else◌,
}

-- The inner loop: the groups of `t` bits at the top of the `bits` low bits of `acc`, and how many
-- bits are left. Each round takes `t` bits, so `bits` rounds are enough for a positive `t`.
unfoldable pub drain : ℕ → ℕ → ℕ → ℕ → List ℕ × ℕ
drain zero t acc bits = ([], bits)
drain (suc n) t acc bits =
    let (groups, left) = drain n t acc (bits - t) in
    if leb t bits then (acc / 2 ^ (bits - t) % 2 ^ t ∷ groups, left) else ([], bits)

-- The two ends after the loop: the last group is padded, or what is left must be padding.
abbrev pub finish : ℕ → ℕ → Bool → ℕ → ℕ → Option (List ℕ)
finish f t pad acc bits =
    let last = acc * 2 ^ (t - bits) % 2 ^ t in
    if pad
    then some (if bits == 0 then [] else last ∷ [])
    else if leb f bits || not (last == 0)
    then none
    else some []

-- The loop over the data, from an accumulator and a number of bits.
unfoldable pub convert : ℕ → ℕ → Bool → ℕ → ℕ → List ℕ → Option (List ℕ)
unfolding drain
convert f t pad acc bits [] = finish f t pad acc bits
convert f t pad acc bits (v ∷ vs) =
    let acc' = (acc * 2 ^ f + v) % 2 ^ (f + t - 1) in
    let (groups, left) = drain (bits + f) t acc' (bits + f) in
    let rest = convert f t pad acc' left vs in
    if leb (2 ^ f) v then none else elim rest [ none ↦ none | some more ↦ some (groups ++ more) ]

unfoldable pub convertbits : List ℕ → ℕ → ℕ → Bool → Option (List ℕ)
unfolding convert
convertbits values f t pad = convert f t pad 0 0 values
