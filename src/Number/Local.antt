-- ===== src/Number/Local.antt =====
-- Numbers in international and in national form.
use modem2sip.Common.{
  ℕ, ◌≡◌, refl, Bool, true, false, ◌≢◌, [], ◌∷◌, ◌++◌, none, some, ◌==◌, within, arith, All,
  All-append,
}
use modem2sip.Text.{Text}
use modem2sip.Text.Ops.{
  strip_prefix, trim, trim_matches, trim_start, trim_end, trim_end_with, is_whitespace,
}
use modem2sip.Number.{strip_plus, country_digits, to_national}

abbrev pub IsDigits : Text → Type 0
IsDigits = All (λ c. within b'0' b'9' c ≡ true)

-- With or without a plus in front.
abbrev pub plus : Bool → Text → Text
plus true s = b'+' ∷ s
plus false s = s

abbrev pub NoSpace : Text → Type 0
NoSpace = All (λ c. is_whitespace c ≡ false)

digit-not-space : (c : ℕ) → within b'0' b'9' c ≡ true → is_whitespace c ≡ false
unfolding is_whitespace
digit-not-space c h = ground arith

pub digits-NoSpace : (s : Text) → IsDigits s → NoSpace s
digits-NoSpace [] h = tt
digits-NoSpace (c ∷ s) h = (digit-not-space c h.0, digits-NoSpace s h.1)

plus-NoSpace : (p : Bool) (s : Text) → IsDigits s → NoSpace (plus p s)
unfolding is_whitespace
plus-NoSpace true s h = (refl, digits-NoSpace s h)
plus-NoSpace false s h = digits-NoSpace s h

trim_start_id : (s : Text) → NoSpace s → trim_start is_whitespace s ≡ s
unfolding trim_start
trim_start_id [] h = refl
trim_start_id (c ∷ s) h = rw (h.0)

trim_end_id : (s : Text) → NoSpace s → trim_end is_whitespace s ≡ s
unfolding trim_end trim_end_with
trim_end_id [] h = refl
trim_end_id (c ∷ []) h = rw (h.0)
trim_end_id (c ∷ d ∷ s) h = rw (trim_end_id (d ∷ s) h.1)

pub trim_id : (s : Text) → NoSpace s → trim s ≡ s
unfolding trim trim_matches
trim_id s h = rw (trim_start_id s h) (trim_end_id s h)

==_self : (c : ℕ) → (c == c) ≡ true
==_self c = ground arith

strip_prefix-append : (p s : Text) → strip_prefix (p ++ s) p ≡ some s
unfolding strip_prefix
strip_prefix-append [] [] = refl
strip_prefix-append [] (c ∷ s) = refl
strip_prefix-append (c ∷ p) s = rw (==_self c) (strip_prefix-append p s)

no_plus : (c : ℕ) → within b'0' b'9' c ≡ true → (c == b'+') ≡ false
no_plus c h = ground arith

strip_plus-plus : (p : Bool) (s : Text) → IsDigits s → strip_plus (plus p s) ≡ s
unfolding strip_plus strip_prefix
strip_plus-plus true [] h = refl
strip_plus-plus true (c ∷ s) h = refl
strip_plus-plus false [] h = refl
strip_plus-plus false (c ∷ s) h = rw (no_plus c h.0)

country_digits-plus :
    (p : Bool) (c : ℕ) (code : Text)
    → IsDigits (c ∷ code)
    → country_digits (some (plus p (c ∷ code))) ≡ some (c ∷ code)
unfolding country_digits
country_digits-plus p c code h =
    rw (trim_id (plus p (c ∷ code)) (plus-NoSpace p (c ∷ code) h), strip_plus-plus p (c ∷ code) h)

-- A number of digits that starts with the country code and goes on behind it, if only by one
-- digit, is written with the national prefix in place of the code, whether or not the configured
-- code and the number have a plus in front: also a short code that starts with those digits.
pub to_national-international :
    (configured wire : Bool) (c d : ℕ) (code rest national_prefix : Text)
    → IsDigits (c ∷ code)
    → IsDigits (d ∷ rest)
    → to_national
        (plus wire (c ∷ code ++ d ∷ rest))
        (some (plus configured (c ∷ code)))
        national_prefix
      ≡ national_prefix ++ d ∷ rest
unfolding to_national
to_national-international configured wire c d code rest national_prefix code_digits digits =
    let all =
      All-append (λ x. within b'0' b'9' x ≡ true) (c ∷ code) (d ∷ rest) code_digits digits in
    rw (
      country_digits-plus configured c code code_digits,
      trim_id (plus wire (c ∷ code ++ d ∷ rest)) (plus-NoSpace wire (c ∷ code ++ d ∷ rest) all),
      strip_plus-plus wire (c ∷ code ++ d ∷ rest) all,
      strip_prefix-append (c ∷ code) (d ∷ rest),
    )

strip_prefix-other :
    (n c : ℕ) (number code : Text) → (n == c) ≡ false → strip_prefix (n ∷ number) (c ∷ code) ≡ none
unfolding strip_prefix
strip_prefix-other n c number code h = rw h

-- A number of digits whose first digit is not that of the country code is left as it is,
-- whether or not the configured code has a plus in front.
pub to_national-national :
    (configured : Bool) (c n : ℕ) (code number national_prefix : Text)
    → IsDigits (c ∷ code)
    → IsDigits (n ∷ number)
    → n ≢ c
    → to_national (n ∷ number) (some (plus configured (c ∷ code))) national_prefix ≡ n ∷ number
unfolding to_national
to_national-national configured c n code number national_prefix code_digits digits other =
    let differ : (n == c) ≡ false = ground arith in
    rw (
      country_digits-plus configured c code code_digits,
      trim_id (n ∷ number) (digits-NoSpace (n ∷ number) digits),
      strip_plus-plus false (n ∷ number) digits,
      strip_prefix-other n c number code differ,
    )
