-- ===== src/Codec/Tables.antt =====
-- Round trips over all 256 bytes, by evaluation.
use modem2sip.Common.{
  ℕ, zero, suc, ◌<◌, ◌≤◌, ◌≡◌, ◌≢◌, refl, ap₂, arith, Bool, true, false, ◌||◌, List, [], ◌∷◌, All,
  ◌==◌, if◌then◌else◌, subst, Bool-cases, inl, inr,
}
use modem2sip.Codec.{
  linear_to_ulaw, ulaw_byte, ulaw_exponent, ulaw_to_linear, ulaw_magnitude, linear_to_alaw,
  alaw_byte, alaw_encoded, alaw_exponent, alaw_to_linear, alaw_magnitude, Law, ulaw, alaw, encode,
  decode,
}

-- The test holds of the numbers up to the given one.
passes : (ℕ → Bool) → ℕ → Bool
passes test zero = test 0
passes test (suc top) = let lower = passes test top in if test (suc top) then lower else false

passes_each : (test : ℕ → Bool) (top b : ℕ) → b ≤ top → passes test top ≡ true → test b ≡ true
unfolding passes
passes_each test zero b le h = subst (λ k. test k ≡ true) (zero_only b le) h
  where
    zero_only : (k : ℕ) → k ≤ 0 → 0 ≡ k
    zero_only k le = omega arith
passes_each test (suc top) b le h = elim (Bool-cases (test (suc top))) [
  | inl good ↦ elim (Bool-cases (b == suc top)) [
    | inl last ↦ subst (λ k. test k ≡ true) (last_is b (suc top) last) good
    | inr lower ↦ passes_each test top b (ground arith) (rw good at h)
  ]
  | inr bad ↦ ground (arith, h, bad)
]
  where
    last_is : (k n : ℕ) → (k == n) ≡ true → n ≡ k
    last_is k n e = ground arith

alaw_table : passes (λ b. linear_to_alaw (alaw_to_linear b) == b) 255 ≡ true
unfolding passes linear_to_alaw alaw_byte alaw_encoded alaw_exponent alaw_to_linear alaw_magnitude
alaw_table = refl

ulaw_table : passes (λ b. b == 0x7F || linear_to_ulaw (ulaw_to_linear b) == b) 255 ≡ true
unfolding passes linear_to_ulaw ulaw_byte ulaw_exponent ulaw_to_linear ulaw_magnitude
ulaw_table = refl

pub linear_to_alaw-alaw_to_linear : (b : ℕ) → b < 256 → linear_to_alaw (alaw_to_linear b) ≡ b
linear_to_alaw-alaw_to_linear b lt =
    (eq_of_test _ b)
      (passes_each (λ b. linear_to_alaw (alaw_to_linear b) == b) 255 b (omega arith) alaw_table)
  where
    eq_of_test : (a b : ℕ) → (a == b) ≡ true → a ≡ b
    eq_of_test a b h = ground arith

-- The byte 0x7F is the negative zero.
pub linear_to_ulaw-ulaw_to_linear :
    (b : ℕ) → b < 256 → b ≢ 0x7F → linear_to_ulaw (ulaw_to_linear b) ≡ b
linear_to_ulaw-ulaw_to_linear b lt ne = eq_of_test _ b ne (
    passes_each (λ b. b == 0x7F || linear_to_ulaw (ulaw_to_linear b) == b) 255 b (omega arith)
      ulaw_table)
  where
    eq_of_test : (a b : ℕ) → b ≢ 0x7F → (b == 0x7F || a == b) ≡ true → a ≡ b
    eq_of_test a b ne h = ground arith

-- The bytes that a law's encoder writes.
abbrev pub IsCode : Law → ℕ → Type 0
IsCode ulaw b = (b < 256) × (b ≢ 0x7F)
IsCode alaw b = b < 256

-- Encoding what was decoded gives the payload back: for A-law every payload of bytes, for µ-law
-- every payload of bytes other than 0x7F, the negative zero.
pub encode-decode :
    (law : Law) (bs : List ℕ) → All (IsCode law) bs → encode law (decode law bs) ≡ bs
unfolding encode decode
encode-decode ulaw [] h = refl
encode-decode ulaw (b ∷ bs) h =
    ap₂ ◌∷◌ (linear_to_ulaw-ulaw_to_linear b h.0.0 h.0.1)
      (unfold encode decode in encode-decode ulaw bs h.1)
encode-decode alaw [] h = refl
encode-decode alaw (b ∷ bs) h =
    ap₂ ◌∷◌ (linear_to_alaw-alaw_to_linear b h.0) (encode-decode alaw bs h.1)
