-- ===== src/Text/Words.antt =====
-- More methods of `str`: words, upper case, line ends, and strict UTF-8.
use modem2sip.Common.{
  ℕ, zero, suc, ◌-◌, Bool, ◌&&◌, List, [], ◌∷◌, Option, none, some, if◌then◌else◌, ◌==◌, within,
  length,
}
use modem2sip.Text.{Bytes, Text, next_char}
use modem2sip.Text.Ops.{is_whitespace, cons_first}

abbrev pub push_word : Text → List Text → List Text
push_word [] words = words
push_word (c ∷ w) words = (c ∷ w) ∷ words

-- `split_whitespace`: the word that a text starts with, and those behind it.
abbrev pub end_word : Text × List Text → Text × List Text
end_word (word, others) = ([], push_word word others)

abbrev pub longer_word : ℕ → Text × List Text → Text × List Text
longer_word c (word, others) = (c ∷ word, others)

unfoldable pub words_from : Text → Text × List Text
words_from [] = ([], [])
words_from (c ∷ s) =
    let behind = words_from s in if is_whitespace c then end_word behind else longer_word c behind

unfoldable pub split_whitespace : Text → List Text
split_whitespace s = let (word, others) = words_from s in push_word word others

-- `split_once` at the first character that passes a test.
unfoldable pub split_once_where : (ℕ → Bool) → Text → Option (Text × Text)
split_once_where test [] = none
split_once_where test (c ∷ s) =
    if test c then some ([], s) else cons_first c (split_once_where test s)

-- `u8::to_ascii_uppercase`, on one character.
abbrev pub upper : ℕ → ℕ
upper c = if within b'a' b'z' c then c - 32 else c

unfoldable pub to_ascii_uppercase : Text → Text
to_ascii_uppercase [] = []
to_ascii_uppercase (c ∷ s) = upper c ∷ to_ascii_uppercase s

-- `s.replace("\r\n", "\n")`.
unfoldable pub replace_crlf : Text → Text
replace_crlf [] = []
replace_crlf (c ∷ []) = c ∷ []
replace_crlf (c ∷ d ∷ s) =
    let pair = replace_crlf s in
    let rest = replace_crlf (d ∷ s) in if c == 13 && d == 10 then 10 ∷ pair else c ∷ rest

-- `s.split("\r\n")`: the first item and the others.
abbrev pub new_item : Text × List Text → Text × List Text
new_item (first, others) = ([], first ∷ others)

abbrev pub cons_item : ℕ → Text × List Text → Text × List Text
cons_item c (first, others) = (c ∷ first, others)

unfoldable pub crlf_items : Text → Text × List Text
crlf_items [] = ([], [])
crlf_items (c ∷ []) = (c ∷ [], [])
crlf_items (c ∷ d ∷ s) =
    let pair = new_item (crlf_items s) in
    let rest = cons_item c (crlf_items (d ∷ s)) in if c == 13 && d == 10 then pair else rest

unfoldable pub split_crlf : Text → List Text
split_crlf s = let (first, others) = crlf_items s in first ∷ others

-- `std::str::from_utf8`, without the error. Each round takes a byte at least.
abbrev pub cons_char : Option ℕ → Option Text → Option Text
cons_char (some c) (some s) = some (c ∷ s)
cons_char (some c) none = none
cons_char none rest = none

unfoldable pub strict_from : ℕ → Bytes → Option Text
strict_from zero bs = some []
strict_from (suc fuel) [] = some []
strict_from (suc fuel) (b ∷ bs) =
    let (c, rest) = next_char b bs in cons_char c (strict_from fuel rest)

unfoldable pub from_utf8 : Bytes → Option Text
from_utf8 bs = strict_from (length bs) bs
