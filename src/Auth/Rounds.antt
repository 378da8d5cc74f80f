-- ===== src/Auth/Rounds.antt =====
-- The rounds of `parse_params` are enough.
use modem2sip.Common.{
  ℕ, zero, suc, ◌+◌, ◌<◌, ◌≤◌, ◌≡◌, sym, arith, Bool, false, [], ◌∷◌, ◌==◌, length, Bool-cases, inl,
  inr,
}
use modem2sip.Text.{Text}
use modem2sip.Text.Ops.{equal, to_ascii_lowercase, trim, trim_matches, trim_start, trim_end}
use modem2sip.Text.Table.{Table, insert}
use modem2sip.Auth.Params.{
  is_ascii_whitespace, is_separator, ends_key, scan, behind_quote, param_value, key_value,
  param_round, params_from, parse_params,
}

length-trim_start : (test : ℕ → Bool) (s : Text) → length (trim_start test s) ≤ length s
unfolding trim_start
length-trim_start test [] = omega arith
length-trim_start test (c ∷ s) =
    let rest = length-trim_start test s in
    elim (Bool-cases (test c)) [
      | inl drops ↦ rw drops (omega (arith, rest))
      | inr keeps ↦ rw keeps (omega arith)
    ]

length-scan :
    (test : ℕ → Bool) (s : Text) → length (scan test s).0 + length (scan test s).1 ≡ length s
unfolding scan
length-scan test [] = omega arith
length-scan test (c ∷ s) =
    let rest = length-scan test s in
    elim (Bool-cases (test c)) [
      | inl ends ↦ rw ends (omega arith)
      | inr goes ↦ rw goes (omega (arith, rest))
    ]

length-behind_quote : (p : Text × Text) → length (behind_quote p).1 ≤ length p.1
length-behind_quote (v, []) = omega arith
length-behind_quote (v, q ∷ rest) = omega arith

length-param_value : (s : Text) → length (param_value s).1 ≤ length s
unfolding param_value
length-param_value [] = omega arith
length-param_value (c ∷ s) = elim (Bool-cases (c == b'"')) [
  | inl quoted ↦
      rw quoted (
        omega
          (arith, length-behind_quote (scan (λ d. d == b'"') s), length-scan (λ d. d == b'"') s))
  | inr plain ↦ rw plain (omega (arith, length-scan (λ d. d == b',') (c ∷ s)))
]

length-key_value : (s : Text) → length (key_value s).1 ≤ length s
length-key_value [] = omega arith
length-key_value (c ∷ s) = elim (Bool-cases (c == b',')) [
  | inl comma ↦ rw comma (omega arith)
  | inr other ↦ rw other (
      omega (
        arith,
        length-param_value (trim_start is_ascii_whitespace s),
        length-trim_start is_ascii_whitespace s,
      ))
]

-- A key that is not empty takes a character.
key_some : (a : Text) → equal (to_ascii_lowercase (trim a)) [] ≡ false → 0 < length a
unfolding equal to_ascii_lowercase trim trim_matches trim_start trim_end
key_some [] h = ground (arith, h)
key_some (c ∷ a) h = omega arith

length-param_round :
    (s : Text) → equal (param_round s).0 [] ≡ false → length (param_round s).2 < length s
length-param_round s h =
    let start = trim_start is_separator s in
    omega (
      arith,
      key_some (scan ends_key start).0 h,
      length-scan ends_key start,
      length-trim_start is_separator s,
      length-key_value (scan ends_key start).1,
    )

-- More rounds than characters change nothing.
params_from_enough :
    (fuel more : ℕ) (s : Text) (table : Table Text)
    → length s < fuel
    → fuel ≤ more
    → params_from fuel s table ≡ params_from more s table
unfolding params_from
params_from_enough zero more s table enough le = absurd (omega (arith, enough))
params_from_enough (suc fuel) zero s table enough le = absurd (omega (arith, le))
params_from_enough (suc fuel) (suc more) s table enough le =
    elim (Bool-cases (equal (param_round s).0 [])) [
      | inl over ↦ rw over
      | inr key ↦ rw key (
          params_from_enough fuel more (param_round s).2
            (insert (param_round s).0 (param_round s).1 table)
            (omega (arith, length-param_round s key, enough)) (omega (arith, le)))
    ]

-- However many rounds the loop is given beyond those of the model, the table is the same.
pub parse_params-rounds :
    (s : Text) (rounds : ℕ) → length s < rounds → params_from rounds s [] ≡ parse_params s
unfolding parse_params
parse_params-rounds s rounds enough =
    sym (params_from_enough (suc (length s)) rounds s [] (omega arith) enough)
