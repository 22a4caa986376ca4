-- ===== src/Swaps/RoundTrip.antt =====
-- Bytes in groups of five bits, and back.
use sthrip.Base.{
  ℕ, ◌+◌, ◌*◌, ◌/◌, ◌%◌, ◌<◌, ◌≡◌, some, List, [], ◌∷◌, true, false, leb, refl, arith,
}
use sthrip.Swaps.Bech32.{drain, convert, convertbits}

-- Every value is a byte.
abbrev pub AllBytes : List ℕ → Type 0
AllBytes [] = Unit
AllBytes (v ∷ vs) = (v < 256) × AllBytes vs

-- How many bits the encoder has not given out: between two bytes it is one of five numbers.
data Phase : Type 0 where
  zero_left three_left one_left four_left two_left : Phase

abbrev encoder_bits : Phase → ℕ
encoder_bits Phase.zero_left = 0
encoder_bits Phase.three_left = 3
encoder_bits Phase.one_left = 1
encoder_bits Phase.four_left = 4
encoder_bits Phase.two_left = 2

-- The decoder has the other bits of the byte.
abbrev decoder_bits : Phase → ℕ
decoder_bits Phase.zero_left = 0
decoder_bits Phase.three_left = 5
decoder_bits Phase.one_left = 7
decoder_bits Phase.four_left = 4
decoder_bits Phase.two_left = 6

-- The byte `x` is in the two accumulators, its high bits in the decoder's.
abbrev Aligned : Phase → ℕ → ℕ → ℕ → Type 0
Aligned Phase.zero_left a c x = Unit
Aligned Phase.three_left a c x = c % 32 * 8 + a % 8 ≡ x
Aligned Phase.one_left a c x = c % 128 * 2 + a % 2 ≡ x
Aligned Phase.four_left a c x = c % 16 * 16 + a % 16 ≡ x
Aligned Phase.two_left a c x = c % 64 * 4 + a % 4 ≡ x

abbrev with_pending : Phase → ℕ → List ℕ → List ℕ
with_pending Phase.zero_left x vs = vs
with_pending _ x vs = x ∷ vs

small : (n v : ℕ) → v < n → leb n v ≡ false
small n v h = ground arith

abbrev Decodes : Phase → ℕ → ℕ → List ℕ → List ℕ → Type 0
Decodes p a c vs expected =
    (gs : List ℕ) × (convert 8 5 true a (encoder_bits p) vs ≡ some gs)
    × (convert 5 8 false c (decoder_bits p) gs ≡ some expected)

-- The end of the data: the padded group completes the byte, and what is left of it is padding.
last_group : (p : Phase) (a c x : ℕ) → Aligned p a c x → Decodes p a c [] (with_pending p x [])
unfolding convert drain
last_group Phase.zero_left a c x al =
    let padding : c * 256 % 256 ≡ 0 = omega arith in ([], refl, rw padding refl)
last_group Phase.three_left a c x al =
    let g = a * 4 % 32 in
    let c' = (c * 32 + g) % 4096 in
    let byte : c' / 4 % 256 ≡ x = omega arith in
    let padding : c' * 64 % 256 ≡ 0 = omega arith in
    (g ∷ [], refl, rw (small 32 g (omega arith), padding, byte) refl)
last_group Phase.one_left a c x al =
    let g = a * 16 % 32 in
    let c' = (c * 32 + g) % 4096 in
    let byte : c' / 16 % 256 ≡ x = omega arith in
    let padding : c' * 16 % 256 ≡ 0 = omega arith in
    (g ∷ [], refl, rw (small 32 g (omega arith), padding, byte) refl)
last_group Phase.four_left a c x al =
    let g = a * 2 % 32 in
    let c' = (c * 32 + g) % 4096 in
    let byte : c' / 2 % 256 ≡ x = omega arith in
    let padding : c' * 128 % 256 ≡ 0 = omega arith in
    (g ∷ [], refl, rw (small 32 g (omega arith), padding, byte) refl)
last_group Phase.two_left a c x al =
    let g = a * 8 % 32 in
    let c' = (c * 32 + g) % 4096 in
    let byte : c' / 8 % 256 ≡ x = omega arith in
    let padding : c' * 32 % 256 ≡ 0 = omega arith in
    (g ∷ [], refl, rw (small 32 g (omega arith), padding, byte) refl)

-- Encoding and then decoding, from aligned accumulators.
lockstep :
    (p : Phase) (a c x : ℕ) (vs : List ℕ)
    → Aligned p a c x
    → AllBytes vs
    → Decodes p a c vs (with_pending p x vs)
unfolding convert drain
lockstep p a c x [] al hs = last_group p a c x al
lockstep Phase.zero_left a c x (v ∷ vs) al (hv, hs) =
    let a' = (a * 256 + v) % 4096 in
    let g = a' / 8 % 32 in
    let c' = (c * 32 + g) % 4096 in
    let (gs, enc, dec) = lockstep Phase.three_left a' c' v vs (omega arith) hs in
    (g ∷ gs, rw (small 256 v hv, enc) refl, rw (small 32 g (omega arith), dec) refl)
lockstep Phase.three_left a c x (v ∷ vs) al (hv, hs) =
    let a' = (a * 256 + v) % 4096 in
    let g = a' / 64 % 32 in
    let h = a' / 2 % 32 in
    let c1 = (c * 32 + g) % 4096 in
    let c2 = (c1 * 32 + h) % 4096 in
    let (gs, enc, dec) = lockstep Phase.one_left a' c2 v vs (omega arith) hs in
    let byte : c1 / 4 % 256 ≡ x = omega arith in
    (
      g ∷ h ∷ gs,
      rw (small 256 v hv, enc) refl,
      rw (small 32 g (omega arith), small 32 h (omega arith), dec, byte) refl,
    )
lockstep Phase.one_left a c x (v ∷ vs) al (hv, hs) =
    let a' = (a * 256 + v) % 4096 in
    let g = a' / 16 % 32 in
    let c' = (c * 32 + g) % 4096 in
    let (gs, enc, dec) = lockstep Phase.four_left a' c' v vs (omega arith) hs in
    let byte : c' / 16 % 256 ≡ x = omega arith in
    (g ∷ gs, rw (small 256 v hv, enc) refl, rw (small 32 g (omega arith), dec, byte) refl)
lockstep Phase.four_left a c x (v ∷ vs) al (hv, hs) =
    let a' = (a * 256 + v) % 4096 in
    let g = a' / 128 % 32 in
    let h = a' / 4 % 32 in
    let c1 = (c * 32 + g) % 4096 in
    let c2 = (c1 * 32 + h) % 4096 in
    let (gs, enc, dec) = lockstep Phase.two_left a' c2 v vs (omega arith) hs in
    let byte : c1 / 2 % 256 ≡ x = omega arith in
    (
      g ∷ h ∷ gs,
      rw (small 256 v hv, enc) refl,
      rw (small 32 g (omega arith), small 32 h (omega arith), dec, byte) refl,
    )
lockstep Phase.two_left a c x (v ∷ vs) al (hv, hs) =
    let a' = (a * 256 + v) % 4096 in
    let g = a' / 32 % 32 in
    let h = a' / 1 % 32 in
    let c1 = (c * 32 + g) % 4096 in
    let c2 = (c1 * 32 + h) % 4096 in
    let (gs, enc, dec) = lockstep Phase.zero_left a' c2 v vs tt hs in
    let byte : c1 / 8 % 256 ≡ x = omega arith in
    let next_byte : c2 / 1 % 256 ≡ v = omega arith in
    (
      g ∷ h ∷ gs,
      rw (small 256 v hv, enc) refl,
      rw (small 32 g (omega arith), small 32 h (omega arith), dec, byte, next_byte) refl,
    )

-- Any bytes are converted to groups of five bits with padding, and those groups, without padding,
-- are converted back to the same bytes: neither conversion fails.
pub convertbits_round_trip :
    (values : List ℕ)
    → AllBytes values
    → (groups : List ℕ) × (convertbits values 8 5 true ≡ some groups)
      × (convertbits groups 5 8 false ≡ some values)
unfolding convertbits
convertbits_round_trip values h = lockstep Phase.zero_left 0 0 0 values tt h
