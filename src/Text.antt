-- ===== src/Text.antt =====
-- Rust's `str` and `String`, as the source uses them. A text is the list of its characters (Unicode
-- scalar values); `as_bytes` is its UTF-8 form and `from_utf8_lossy` reads bytes back, with U+FFFD
-- for each ill-formed sequence, as the standard library does.
pub mod Utf8
pub mod Ops
pub mod Decimal
pub mod Words
pub mod Equal
pub mod Table
use modem2sip.Common.{
  ℕ, suc, ◌+◌, ◌-◌, ◌*◌, ◌/◌, ◌%◌, ◌<◌, ◌≤◌, ◌⊎◌, Bool, true, false, ◌&&◌, ◌||◌, List, [], ◌∷◌,
  ◌++◌, Option, none, some, if◌then◌else◌, ltb, leb, ◌==◌, within, length, zero,
}
use Prim.Native.Char.{code}
use Prim.Native.String.{String}

abbrev pub Bytes : Type 0
Bytes = List ℕ

abbrev pub Text : Type 0
Text = List ℕ

-- The characters of a literal.
abbrev pub codes : String → Text
codes String.[] = []
codes (String.◌∷◌ c s) = code c ∷ codes s

abbrev pub IsByte : ℕ → Type 0
IsByte b = b < 256

-- A Unicode scalar value, Rust's `char`.
abbrev pub IsChar : ℕ → Type 0
IsChar c = (c < 0xD800) ⊎ ((0xE000 ≤ c) × (c < 0x110000))

-- `char::encode_utf8`.
unfoldable pub encode_utf8 : ℕ → Bytes
encode_utf8 c =
    if ltb c 0x80
    then c ∷ []
    else if ltb c 0x800
    then (0xC0 + c / 64) ∷ (0x80 + c % 64) ∷ []
    else if ltb c 0x10000
    then (0xE0 + c / 4096) ∷ (0x80 + c / 64 % 64) ∷ (0x80 + c % 64) ∷ []
    else (0xF0 + c / 262144) ∷ (0x80 + c / 4096 % 64) ∷ (0x80 + c / 64 % 64) ∷ (0x80 + c % 64) ∷ []

-- `str::as_bytes`.
unfoldable pub as_bytes : Text → Bytes
as_bytes [] = []
as_bytes (c ∷ s) = encode_utf8 c ++ as_bytes s

abbrev is_continuation : ℕ → Bool
is_continuation b = within 0x80 0xBF b

-- The rest of a sequence behind its first bytes: the character, or `none` for an ill-formed
-- sequence, and the bytes that are not part of it.
pub two_bytes : ℕ → Bytes → Option ℕ × Bytes
two_bytes a [] = (none, [])
two_bytes a (b ∷ bs) =
    if is_continuation b then (some (a % 32 * 64 + b % 64), bs) else (none, b ∷ bs)

pub three_bytes_end : ℕ → ℕ → Bytes → Option ℕ × Bytes
three_bytes_end a b [] = (none, [])
three_bytes_end a b (c ∷ cs) =
    if is_continuation c then (some (a % 16 * 4096 + b % 64 * 64 + c % 64), cs) else (none, c ∷ cs)

second_of_three : ℕ → ℕ → Bool
second_of_three a b =
    if a == 0xE0
    then within 0xA0 0xBF b
    else if a == 0xED
    then within 0x80 0x9F b
    else is_continuation b

pub three_bytes : ℕ → Bytes → Option ℕ × Bytes
three_bytes a [] = (none, [])
three_bytes a (b ∷ bs) = if second_of_three a b then three_bytes_end a b bs else (none, b ∷ bs)

pub four_bytes_end : ℕ → ℕ → ℕ → Bytes → Option ℕ × Bytes
four_bytes_end a b c [] = (none, [])
four_bytes_end a b c (d ∷ ds) =
    if is_continuation d
    then (some (a % 8 * 262144 + b % 64 * 4096 + c % 64 * 64 + d % 64), ds)
    else (none, d ∷ ds)

pub four_bytes_middle : ℕ → ℕ → Bytes → Option ℕ × Bytes
four_bytes_middle a b [] = (none, [])
four_bytes_middle a b (c ∷ cs) =
    if is_continuation c then four_bytes_end a b c cs else (none, c ∷ cs)

second_of_four : ℕ → ℕ → Bool
second_of_four a b =
    if a == 0xF0
    then within 0x90 0xBF b
    else if a == 0xF4
    then within 0x80 0x8F b
    else is_continuation b

pub four_bytes : ℕ → Bytes → Option ℕ × Bytes
four_bytes a [] = (none, [])
four_bytes a (b ∷ bs) = if second_of_four a b then four_bytes_middle a b bs else (none, b ∷ bs)

pub next_char : ℕ → Bytes → Option ℕ × Bytes
next_char a bs =
    if ltb a 0x80
    then (some a, bs)
    else if within 0xC2 0xDF a
    then two_bytes a bs
    else if within 0xE0 0xEF a
    then three_bytes a bs
    else if within 0xF0 0xF4 a
    then four_bytes a bs
    else (none, bs)

abbrev pub or_replacement : Option ℕ → ℕ
or_replacement none = 0xFFFD
or_replacement (some c) = c

pub lossy_from : ℕ → Bytes → Text
lossy_from zero bs = []
lossy_from (suc fuel) [] = []
lossy_from (suc fuel) (b ∷ bs) =
    let (c, rest) = next_char b bs in or_replacement c ∷ lossy_from fuel rest

-- `String::from_utf8_lossy`. Each round takes a byte at least.
unfoldable pub from_utf8_lossy : Bytes → Text
unfolding next_char two_bytes three_bytes_end second_of_three three_bytes four_bytes_end
    four_bytes_middle second_of_four four_bytes lossy_from
from_utf8_lossy bs = lossy_from (length bs) bs
