-- ===== src/Text/Ops.antt =====
-- The methods of `str` that the source calls.
use Prim.Native.Nat.{ℕ, zero, suc, ◌+◌, ◌-◌, ◌*◌, ◌/◌, ◌%◌}
use modem2sip.Common.{
  Bool, true, false, ◌&&◌, ◌||◌, List, [], ◌∷◌, ◌++◌, Option, none, some, if◌then◌else◌, leb, ltb,
  ◌==◌, within,
}

-- `==` on texts.
unfoldable pub equal : List ℕ → List ℕ → Bool
equal [] [] = true
equal (x ∷ xs) (y ∷ ys) = x == y && equal xs ys
equal _ _ = false

-- `u8::to_ascii_lowercase`, on one character.
abbrev pub lower : ℕ → ℕ
lower c = if within b'A' b'Z' c then c + 32 else c

unfoldable pub to_ascii_lowercase : List ℕ → List ℕ
to_ascii_lowercase [] = []
to_ascii_lowercase (c ∷ s) = lower c ∷ to_ascii_lowercase s

unfoldable pub eq_ignore_ascii_case : List ℕ → List ℕ → Bool
unfolding equal to_ascii_lowercase
eq_ignore_ascii_case s t = equal (to_ascii_lowercase s) (to_ascii_lowercase t)

unfoldable pub starts_with : List ℕ → List ℕ → Bool
starts_with s [] = true
starts_with [] (p ∷ ps) = false
starts_with (c ∷ s) (p ∷ ps) = c == p && starts_with s ps

unfoldable pub strip_prefix : List ℕ → List ℕ → Option (List ℕ)
strip_prefix s [] = some s
strip_prefix [] (p ∷ ps) = none
strip_prefix (c ∷ s) (p ∷ ps) = let rest = strip_prefix s ps in if c == p then rest else none

-- `contains` of a text, and of one character.
unfoldable pub contains : List ℕ → List ℕ → Bool
unfolding starts_with
contains [] p = starts_with [] p
contains (c ∷ s) p = starts_with (c ∷ s) p || contains s p

unfoldable pub contains_char : List ℕ → ℕ → Bool
contains_char [] x = false
contains_char (c ∷ s) x = c == x || contains_char s x

-- `char::is_whitespace`: the Unicode property White_Space.
unfoldable pub is_whitespace : ℕ → Bool
is_whitespace c =
    within 9 13 c
    || c == 0x20
    || c == 0x85
    || c == 0xA0
    || c == 0x1680
    || within 0x2000 0x200A c
    || c == 0x2028
    || c == 0x2029
    || c == 0x202F
    || c == 0x205F
    || c == 0x3000

unfoldable pub trim_start : (ℕ → Bool) → List ℕ → List ℕ
trim_start test [] = []
trim_start test (c ∷ s) = let rest = trim_start test s in if test c then rest else c ∷ s

-- Drops the last characters that pass the test.
unfoldable pub trim_end_with : (ℕ → Bool) → ℕ → List ℕ → List ℕ
trim_end_with test c [] = if test c then [] else c ∷ []
trim_end_with test c (d ∷ r) = c ∷ d ∷ r

unfoldable pub trim_end : (ℕ → Bool) → List ℕ → List ℕ
trim_end test [] = []
trim_end test (c ∷ s) = trim_end_with test c (trim_end test s)

-- `trim_matches` and `trim`.
unfoldable pub trim_matches : (ℕ → Bool) → List ℕ → List ℕ
unfolding trim_start trim_end
trim_matches test s = trim_end test (trim_start test s)

unfoldable pub trim : List ℕ → List ℕ
unfolding trim_matches is_whitespace
trim = trim_matches is_whitespace

-- `split_once` at a character: the parts before and behind its first occurrence.
abbrev pub cons_first : ℕ → Option (List ℕ × List ℕ) → Option (List ℕ × List ℕ)
cons_first c none = none
cons_first c (some (a, b)) = some (c ∷ a, b)

unfoldable pub split_once : ℕ → List ℕ → Option (List ℕ × List ℕ)
split_once x [] = none
split_once x (c ∷ s) = if c == x then some ([], s) else cons_first c (split_once x s)

-- The first item of `split` at a character.
unfoldable pub split_first : ℕ → List ℕ → List ℕ
split_first x [] = []
split_first x (c ∷ s) = let rest = split_first x s in if c == x then [] else c ∷ rest

-- `s.split(x)`: the first item and the others.
abbrev pub split_cons : ℕ → Bool → List ℕ × List (List ℕ) → List ℕ × List (List ℕ)
split_cons c true (first, others) = ([], first ∷ others)
split_cons c false (first, others) = (c ∷ first, others)

unfoldable pub split_items : ℕ → List ℕ → List ℕ × List (List ℕ)
split_items x [] = ([], [])
split_items x (c ∷ s) = split_cons c (c == x) (split_items x s)

unfoldable pub split : ℕ → List ℕ → List (List ℕ)
split x s = let (first, others) = split_items x s in first ∷ others

-- `rsplit_once` at a character: the parts before and behind its last occurrence.
abbrev pub split_last : ℕ → ℕ → List ℕ → Option (List ℕ × List ℕ) → Option (List ℕ × List ℕ)
split_last x c s (some (a, b)) = some (c ∷ a, b)
split_last x c s none = if c == x then some ([], s) else none

unfoldable pub rsplit_once : ℕ → List ℕ → Option (List ℕ × List ℕ)
rsplit_once x [] = none
rsplit_once x (c ∷ s) = split_last x c s (rsplit_once x s)

-- `str::parse` at an unsigned type whose largest value is `largest`: digits behind an optional plus.
unfoldable pub digits_from : ℕ → ℕ → List ℕ → Option ℕ
digits_from largest acc [] = some acc
digits_from largest acc (c ∷ s) =
    let rest = digits_from largest (acc * 10 + (c - b'0')) s in
    if within b'0' b'9' c && leb (acc * 10 + (c - b'0')) largest then rest else none

unfoldable pub parse_unsigned : ℕ → List ℕ → Option ℕ
parse_unsigned largest [] = none
parse_unsigned largest (c ∷ []) = digits_from largest 0 (c ∷ [])
parse_unsigned largest (c ∷ d ∷ s) =
    if c == b'+' then digits_from largest 0 (d ∷ s) else digits_from largest 0 (c ∷ d ∷ s)

-- `Display` of an unsigned number.
unfoldable pub decimal_from : ℕ → ℕ → List ℕ
decimal_from zero n = []
decimal_from (suc fuel) n =
    let higher = decimal_from fuel (n / 10) in
    if ltb n 10 then (b'0' + n) ∷ [] else higher ++ (b'0' + n % 10) ∷ []

unfoldable pub decimal : ℕ → List ℕ
decimal n = decimal_from (suc n) n
