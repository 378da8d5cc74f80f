-- ===== src/Text/Utf8.antt =====
-- UTF-8 and back.
use modem2sip.Common.{
  ℕ, zero, suc, ◌+◌, ◌/◌, ◌%◌, ◌≤◌, ◌<◌, ◌≡◌, refl, ap, ◌∙◌, inl, inr, arith, [], ◌∷◌, ◌++◌, some,
  length, length-append, append_assoc, All, ltb, if◌then◌else◌, Bool-cases, sym, ◌⊎◌, All-append,
}
use modem2sip.Text.{
  Bytes, Text, IsByte, IsChar, encode_utf8, as_bytes, next_char, two_bytes, three_bytes,
  three_bytes_end, four_bytes, four_bytes_middle, four_bytes_end, second_of_three, second_of_four,
  lossy_from, from_utf8_lossy,
}
use modem2sip.Text.Words.{cons_char, strict_from, from_utf8}

-- The first byte of a character's encoding, and those behind it.
lead : ℕ → ℕ
lead c =
    if ltb c 0x80
    then c
    else if ltb c 0x800
    then 0xC0 + c / 64
    else if ltb c 0x10000
    then 0xE0 + c / 4096
    else 0xF0 + c / 262144

trail : ℕ → Bytes
trail c =
    if ltb c 0x80
    then []
    else if ltb c 0x800
    then (0x80 + c % 64) ∷ []
    else if ltb c 0x10000
    then (0x80 + c / 64 % 64) ∷ (0x80 + c % 64) ∷ []
    else (0x80 + c / 4096 % 64) ∷ (0x80 + c / 64 % 64) ∷ (0x80 + c % 64) ∷ []

encode_utf8-lead : (c : ℕ) → encode_utf8 c ≡ lead c ∷ trail c
unfolding encode_utf8 lead trail
encode_utf8-lead c = ground arith

two_bytes_lem :
    (c : ℕ) (rest : Bytes)
    → 0x80 ≤ c
    → c < 0x800
    → two_bytes (0xC0 + c / 64) ((0x80 + c % 64) ∷ rest) ≡ (some c, rest)
unfolding two_bytes
two_bytes_lem c rest lo hi = ground arith

three_bytes_end_lem :
    (c : ℕ) (rest : Bytes)
    → c < 0x10000
    → three_bytes_end (0xE0 + c / 4096) (0x80 + c / 64 % 64) ((0x80 + c % 64) ∷ rest)
      ≡ (some c, rest)
unfolding three_bytes_end
three_bytes_end_lem c rest hi = ground arith

three_bytes_lem :
    (c : ℕ) (rest : Bytes)
    → 0x800 ≤ c
    → c < 0x10000
    → IsChar c
    → three_bytes (0xE0 + c / 4096) ((0x80 + c / 64 % 64) ∷ (0x80 + c % 64) ∷ rest) ≡ (some c, rest)
unfolding three_bytes second_of_three
three_bytes_lem c rest lo hi h = ground (arith, three_bytes_end_lem c rest hi)

four_bytes_end_lem :
    (c : ℕ) (rest : Bytes)
    → c < 0x110000
    → four_bytes_end
        (0xF0 + c / 262144)
        (0x80 + c / 4096 % 64)
        (0x80 + c / 64 % 64)
        ((0x80 + c % 64) ∷ rest)
      ≡ (some c, rest)
unfolding four_bytes_end
four_bytes_end_lem c rest hi = ground arith

four_bytes_lem :
    (c : ℕ) (rest : Bytes)
    → 0x10000 ≤ c
    → c < 0x110000
    → four_bytes
        (0xF0 + c / 262144)
        ((0x80 + c / 4096 % 64) ∷ (0x80 + c / 64 % 64) ∷ (0x80 + c % 64) ∷ rest)
      ≡ (some c, rest)
unfolding four_bytes four_bytes_middle second_of_four
four_bytes_lem c rest lo hi = ground (arith, four_bytes_end_lem c rest hi)

next_char_classes :
    (a : ℕ) (bs : Bytes)
    → (0xC2 ≤ a → a ≤ 0xDF → next_char a bs ≡ two_bytes a bs)
      × (0xE0 ≤ a → a ≤ 0xEF → next_char a bs ≡ three_bytes a bs)
      × (0xF0 ≤ a → a ≤ 0xF4 → next_char a bs ≡ four_bytes a bs)
unfolding next_char
next_char_classes a bs = (λ lo hi. ground arith, λ lo hi. ground arith, λ lo hi. ground arith)

next_char-trail :
    (c : ℕ) (rest : Bytes) → IsChar c → next_char (lead c) (trail c ++ rest) ≡ (some c, rest)
unfolding lead trail
next_char-trail c rest h = elim (Bool-cases (ltb c 0x80)) [
  | inl one ↦ rw one (unfold next_char in rw one)
  | inr more ↦ rw more (elim (Bool-cases (ltb c 0x800)) [
    | inl two ↦ rw two (
        (next_char_classes _ _).0 (ground arith) (ground arith)
        ∙ two_bytes_lem c rest (ground arith) (ground arith))
    | inr more' ↦ rw more' (elim (Bool-cases (ltb c 0x10000)) [
      | inl three ↦ rw three (
          (next_char_classes _ _).1 (ground arith) (ground arith)
          ∙ three_bytes_lem c rest (ground arith) (ground arith) h)
      | inr four ↦ rw four (
          (next_char_classes _ _).2 (ground arith) (ground arith)
          ∙ four_bytes_lem c rest (ground arith) (ground arith))
    ])
  ])
]

pub lossy_from-as_bytes :
    (s : Text) (fuel : ℕ)
    → All IsChar s
    → length (as_bytes s) ≤ fuel
    → lossy_from fuel (as_bytes s) ≡ s
unfolding lossy_from as_bytes
lossy_from-as_bytes [] zero h le = refl
lossy_from-as_bytes [] (suc fuel) h le = refl
lossy_from-as_bytes (c ∷ s) zero h le = absurd (omega (arith, shorter))
  where
    shorter : length ((lead c ∷ trail c) ++ as_bytes s) ≤ 0
    shorter = rw encode_utf8-lead at le
lossy_from-as_bytes (c ∷ s) (suc fuel) h le = rw encode_utf8-lead (
    rw (next_char-trail c (as_bytes s) h.0) (
      ap (◌∷◌ c) (
        lossy_from-as_bytes s fuel h.1
          (omega (arith, shorter, length-append (trail c) (as_bytes s))))))
  where
    shorter : length ((lead c ∷ trail c) ++ as_bytes s) ≤ suc fuel
    shorter = rw encode_utf8-lead at le

-- A text comes back from its UTF-8 bytes.
pub from_utf8_lossy-as_bytes : (s : Text) → All IsChar s → from_utf8_lossy (as_bytes s) ≡ s
unfolding from_utf8_lossy
from_utf8_lossy-as_bytes s h = lossy_from-as_bytes s _ h (omega arith)

pub as_bytes-append : (s t : Text) → as_bytes (s ++ t) ≡ as_bytes s ++ as_bytes t
unfolding as_bytes
as_bytes-append [] t = refl
as_bytes-append (c ∷ s) t = rw (as_bytes-append s t) (sym (append_assoc (encode_utf8 c) _ _))

encode_utf8-IsByte : (c : ℕ) → IsChar c → All IsByte (encode_utf8 c)
unfolding encode_utf8
encode_utf8-IsByte c h = ground arith

pub as_bytes-IsByte : (s : Text) → All IsChar s → All IsByte (as_bytes s)
unfolding as_bytes
as_bytes-IsByte [] h = tt
as_bytes-IsByte (c ∷ s) h =
    All-append IsByte (encode_utf8 c) (as_bytes s) (encode_utf8-IsByte c h.0)
      (as_bytes-IsByte s h.1)

-- No byte of an encoded character is 0, unless the character is U+0000.
encode_utf8-ne-nul : (c : ℕ) → 0 < c → All (λ b. 0 < b) (encode_utf8 c)
unfolding encode_utf8
encode_utf8-ne-nul c h = ground arith

pub as_bytes-ne-nul : (s : Text) → All (λ c. 0 < c) s → All (λ b. 0 < b) (as_bytes s)
unfolding as_bytes
as_bytes-ne-nul [] h = tt
as_bytes-ne-nul (c ∷ s) h =
    All-append (λ b. 0 < b) (encode_utf8 c) (as_bytes s) (encode_utf8-ne-nul c h.0)
      (as_bytes-ne-nul s h.1)

-- An ASCII text is its own encoding.
pub as_bytes_ascii : (s : Text) → All (λ c. c < 0x80) s → as_bytes s ≡ s
unfolding as_bytes encode_utf8
as_bytes_ascii [] h = refl
as_bytes_ascii (c ∷ s) h = ground (arith, as_bytes_ascii s h.1)

-- The first byte tells an ASCII first character from any other.
pub as_bytes_first :
    (c : ℕ) (s : Text)
    → IsChar c
    → (b : ℕ) × (bs : Bytes) × (as_bytes (c ∷ s) ≡ b ∷ bs)
      × (((c < 0x80) × (b ≡ c)) ⊎ ((0x80 ≤ c) × (0xC2 ≤ b) × (b ≤ 0xF4)))
unfolding as_bytes lead
as_bytes_first c s h = (lead c, trail c ++ as_bytes s, rw encode_utf8-lead, ground arith)

strict_from-as_bytes :
    (s : Text) (fuel : ℕ)
    → All IsChar s
    → length (as_bytes s) ≤ fuel
    → strict_from fuel (as_bytes s) ≡ some s
unfolding strict_from as_bytes
strict_from-as_bytes [] zero h le = refl
strict_from-as_bytes [] (suc fuel) h le = refl
strict_from-as_bytes (c ∷ s) zero h le =
    let size : length ((lead c ∷ trail c) ++ as_bytes s) ≤ 0 = rw encode_utf8-lead at le in
    absurd (omega (arith, size))
strict_from-as_bytes (c ∷ s) (suc fuel) h le =
    let size : length ((lead c ∷ trail c) ++ as_bytes s) ≤ suc fuel = rw encode_utf8-lead at le in
    rw encode_utf8-lead (
      rw (next_char-trail c (as_bytes s) h.0) (
        ap (cons_char (some c)) (
          strict_from-as_bytes s fuel h.1
            (omega (arith, size, length-append (trail c) (as_bytes s))))))

-- A text is accepted as UTF-8, and comes back.
pub from_utf8-as_bytes : (s : Text) → All IsChar s → from_utf8 (as_bytes s) ≡ some s
unfolding from_utf8
from_utf8-as_bytes s h = strict_from-as_bytes s _ h (omega arith)
