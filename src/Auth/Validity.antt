-- ===== src/Auth/Validity.antt =====
-- Which nonces are valid.
use modem2sip.Common.{
  ℕ, ◌-◌, ◌≤◌, ◌≡◌, refl, ap, ◌∙◌, arith, false, ◌&&◌, [], ◌∷◌, some, leb, ◌==◌, All,
}
use modem2sip.Text.{Bytes, Text}
use modem2sip.Text.Ops.{decimal, parse_unsigned}
use modem2sip.Text.Equal.{equal_self}
use modem2sip.Text.Decimal.{IsDigit, decimal-IsDigit, parse_unsigned-decimal}
use modem2sip.Uri.HostPort.{split_once-append, digits_no_colon}
use modem2sip.Auth.Digest.{text_digest}
use modem2sip.Auth.Nonce.{
  pos, i64_max, positive, parse_i64, issue, valid_stamp, valid_parts, is_valid,
}

-- Digits have no sign.
parse_i64-digits : (s : Text) → All IsDigit s → parse_i64 s ≡ positive (parse_unsigned i64_max s)
unfolding parse_i64 parse_unsigned
parse_i64-digits [] digits = refl
parse_i64-digits (c ∷ []) digits = refl
parse_i64-digits (c ∷ d ∷ s) digits =
    let no_sign : (c == b'-') ≡ false = ground (arith, digits.0) in rw no_sign

parse_i64-decimal : (n : ℕ) → n ≤ i64_max → parse_i64 (decimal n) ≡ some (pos n)
parse_i64-decimal n fits =
    parse_i64-digits (decimal n) (decimal-IsDigit n)
    ∙ ap positive (parse_unsigned-decimal i64_max n fits)

-- A nonce that issue made at a second of the clock is valid for the same secret exactly from
-- that second on and for as many seconds as the caller allows, for every hash function.
pub is_valid-issue :
    (md5 : Bytes → Bytes) (secret : Text) (issued now max_age : ℕ)
    → issued ≤ i64_max
    → is_valid md5 secret (issue md5 secret issued) max_age now
      ≡ (leb issued now && leb (now - issued) max_age)
unfolding is_valid issue
is_valid-issue md5 secret issued now max_age fits =
    let digest = text_digest md5 (decimal issued ∷ secret ∷ []) in
    rw (
      split_once-append b':' (decimal issued) digest
          (digits_no_colon (decimal issued) (decimal-IsDigit issued)),
      valid_parts,
      parse_i64-decimal issued fits,
      valid_stamp,
      equal_self digest,
    )
