-- ===== src/Codec.antt =====
-- src/audio/codec.rs: G.711 A-law and µ-law. A sample is an integer, an i32 magnitude a number, and
-- bits are written out: `x & 2^k` as `x / 2^k % 2`, and `|` of disjoint fields as `+`.
pub mod Tables
use modem2sip.Common.{
  ℕ, zero, suc, ◌+◌, ◌-◌, ◌*◌, ◌/◌, ◌%◌, ◌^◌, ◌≤◌, Bool, true, false, List, map, if◌then◌else◌, ltb,
  ◌==◌, bit_xor,
}

-- `negsuc n` is -(n + 1).
pub data ℤ : Type 0 where
  pos : ℕ → ℤ
  negsuc : ℕ → ℤ

abbrev pub neg : ℕ → ℤ
neg zero = pos 0
neg (suc n) = negsuc n

-- An i16.
abbrev pub IsI16 : ℤ → Type 0
IsI16 (pos n) = n ≤ 32767
IsI16 (negsuc n) = n ≤ 32767

abbrev pub clip : ℕ → ℕ
clip pcm = if ltb 32635 pcm then 32635 else pcm

-- `!b` on a u8.
abbrev pub not_u8 : ℕ → ℕ
not_u8 b = 255 - b

-- The loop over `exp` and `mask`: `exp` is the argument and the mask is 2^(exp + 7).
unfoldable pub ulaw_exponent : ℕ → ℕ → ℕ
ulaw_exponent zero pcm = 0
ulaw_exponent (suc e) pcm =
    let lower = ulaw_exponent e pcm in if pcm / 2 ^ (e + 8) % 2 == 0 then lower else e + 1

-- From the sign bit and the absolute value.
unfoldable pub ulaw_byte : ℕ → ℕ → ℕ
ulaw_byte sign pcm =
    let biased = clip pcm + 0x84 in
    let exponent = ulaw_exponent 7 biased in
    let mantissa = biased / 2 ^ (exponent + 3) % 16 in not_u8 (sign + exponent * 16 + mantissa)

unfoldable pub linear_to_ulaw : ℤ → ℕ
linear_to_ulaw (pos n) = ulaw_byte 0 n
linear_to_ulaw (negsuc n) = ulaw_byte 0x80 (n + 1)

unfoldable pub ulaw_magnitude : ℕ → ℕ
ulaw_magnitude u = (u % 16 * 8 + 0x84) * 2 ^ (u / 16 % 8) - 0x84

unfoldable pub ulaw_to_linear : ℕ → ℤ
ulaw_to_linear ulaw =
    let u = not_u8 ulaw in
    if u / 128 % 2 == 0 then pos (ulaw_magnitude u) else neg (ulaw_magnitude u)

-- The loop stops at exponent 1; the argument is one less.
unfoldable pub alaw_exponent : ℕ → ℕ → ℕ
alaw_exponent zero pcm = 1
alaw_exponent (suc e) pcm =
    let lower = alaw_exponent e pcm in if pcm / 2 ^ (e + 9) % 2 == 0 then lower else e + 2

unfoldable pub alaw_encoded : ℕ → ℕ
alaw_encoded pcm =
    let exponent = alaw_exponent 6 pcm in
    if ltb pcm 256 then pcm / 16 else exponent * 16 + pcm / 2 ^ (exponent + 3) % 16

unfoldable pub alaw_byte : ℕ → ℕ → ℕ
alaw_byte sign pcm = bit_xor (sign + alaw_encoded (clip pcm)) 0x55

-- A negative sample is `-pcm - 1`, and has no sign bit.
unfoldable pub linear_to_alaw : ℤ → ℕ
linear_to_alaw (pos n) = alaw_byte 0x80 n
linear_to_alaw (negsuc n) = alaw_byte 0 n

abbrev cap_sample : ℕ → ℕ
cap_sample sample = if ltb 32767 sample then 32767 else sample

unfoldable pub alaw_magnitude : ℕ → ℕ
alaw_magnitude a =
    let exponent = a / 16 % 8 in
    cap_sample
      (if exponent == 0 then a % 16 * 16 + 8 else (a % 16 * 16 + 0x108) * 2 ^ (exponent - 1))

unfoldable pub alaw_to_linear : ℕ → ℤ
alaw_to_linear alaw =
    let a = bit_xor alaw 0x55 in
    if a / 128 % 2 == 0 then neg (alaw_magnitude a) else pos (alaw_magnitude a)

pub data Law : Type 0 where
  ulaw alaw : Law

-- `out` is cleared first.
unfoldable pub encode : Law → List ℤ → List ℕ
encode ulaw pcm = map linear_to_ulaw pcm
encode alaw pcm = map linear_to_alaw pcm

unfoldable pub decode : Law → List ℕ → List ℤ
decode ulaw payload = map ulaw_to_linear payload
decode alaw payload = map alaw_to_linear payload
