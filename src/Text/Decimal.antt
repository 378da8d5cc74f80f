-- ===== src/Text/Decimal.antt =====
-- A number that is printed reads back.
use modem2sip.Common.{
  ℕ, zero, suc, ◌+◌, ◌-◌, ◌*◌, ◌/◌, ◌%◌, ◌<◌, ◌≤◌, ◌≡◌, ◌≢◌, refl, arith, true, false, List, [],
  ◌∷◌, ◌++◌, some, ltb, leb, ◌==◌, within, All, All-append, Bool-cases, inl, inr, append_assoc,
  append-nil, subst,
}
use modem2sip.Text.Ops.{digits_from, parse_unsigned, decimal_from, decimal}

abbrev pub IsDigit : ℕ → Type 0
IsDigit c = within b'0' b'9' c ≡ true

decimal_from-IsDigit : (fuel n : ℕ) → All IsDigit (decimal_from fuel n)
unfolding decimal_from
decimal_from-IsDigit zero n = tt
decimal_from-IsDigit (suc fuel) n = elim (Bool-cases (ltb n 10)) [
  | inl small ↦ rw (small, All) (ground arith, tt)
  | inr large ↦ rw large (
      All-append IsDigit (decimal_from fuel (n / 10)) ((b'0' + n % 10) ∷ [])
        (decimal_from-IsDigit fuel (n / 10)) (ground arith, tt))
]

pub decimal-IsDigit : (n : ℕ) → All IsDigit (decimal n)
unfolding decimal
decimal-IsDigit n = decimal_from-IsDigit (suc n) n

-- A digit more.
digit_in : (d : ℕ) → d < 10 → within b'0' b'9' (b'0' + d) ≡ true
digit_in d small = ground arith

digits_from-digit :
    (largest acc d : ℕ) (s : List ℕ)
    → d < 10
    → acc * 10 + d ≤ largest
    → digits_from largest acc ((b'0' + d) ∷ s) ≡ digits_from largest (acc * 10 + d) s
unfolding digits_from
digits_from-digit largest acc d s small fits =
    let value : b'0' + d - b'0' ≡ d = omega arith in
    let below : leb (acc * 10 + d) largest ≡ true = ground arith in
    rw (digit_in d small, value, below)

digits_from-decimal_from :
    (largest fuel n : ℕ) (s : List ℕ)
    → n < fuel
    → n ≤ largest
    → digits_from largest 0 (decimal_from fuel n ++ s) ≡ digits_from largest n s
unfolding decimal_from
digits_from-decimal_from largest zero n s enough fits = elim enough [ ]
digits_from-decimal_from largest (suc fuel) n s enough fits = elim (Bool-cases (ltb n 10)) [
  | inl small ↦
      let value : 0 * 10 + n ≡ n = omega arith in
      rw (small, digits_from-digit largest 0 n s (ground arith) (omega arith), value)
  | inr large ↦
      let ten : 10 ≤ n = ground arith in
      let whole : n / 10 * 10 + n % 10 ≡ n = omega arith in
      rw (
        large,
        append_assoc (decimal_from fuel (n / 10)) ((b'0' + n % 10) ∷ []) s,
        digits_from-decimal_from largest fuel (n / 10) ((b'0' + n % 10) ∷ s) (omega arith)
            (omega arith),
        digits_from-digit largest (n / 10) (n % 10) s (omega arith) (omega arith),
        whole,
      )
]

-- `parse_unsigned` is `digits_from` on a text of digits.
parse_unsigned-digits :
    (largest : ℕ) (s : List ℕ)
    → s ≢ []
    → All IsDigit s
    → parse_unsigned largest s ≡ digits_from largest 0 s
unfolding parse_unsigned
parse_unsigned-digits largest [] some_digit digits = elim (some_digit refl) [ ]
parse_unsigned-digits largest (c ∷ []) some_digit digits = refl
parse_unsigned-digits largest (c ∷ d ∷ s) some_digit digits =
    let no_plus : (c == b'+') ≡ false = ground (arith, digits.0) in rw no_plus

append-ne-nil : (s : List ℕ) (c : ℕ) → (s ++ c ∷ []) ≢ []
append-ne-nil [] c e = ground arith
append-ne-nil (d ∷ s) c e = ground arith

decimal-ne-nil : (n : ℕ) → decimal n ≢ []
unfolding decimal decimal_from
decimal-ne-nil n = elim (Bool-cases (ltb n 10)) [
  | inl small ↦ rw small (λ e. ground arith)
  | inr large ↦ rw large (λ e. append-ne-nil (decimal_from n (n / 10)) (b'0' + n % 10) e)
]

printed : (largest n : ℕ) → n ≤ largest → digits_from largest 0 (decimal n ++ []) ≡ some n
unfolding digits_from decimal
printed largest n fits = digits_from-decimal_from largest (suc n) n [] (omega arith) fits

-- A number within the type's range, printed in decimal, parses to itself.
pub parse_unsigned-decimal :
    (largest n : ℕ) → n ≤ largest → parse_unsigned largest (decimal n) ≡ some n
unfolding digits_from
parse_unsigned-decimal largest n fits =
    rw (parse_unsigned-digits largest (decimal n) (decimal-ne-nil n) (decimal-IsDigit n)) (
      subst (λ s. digits_from largest 0 s ≡ some n) (append-nil (decimal n))
        (printed largest n fits))
