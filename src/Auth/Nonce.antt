-- ===== src/Auth/Nonce.antt =====
-- `NonceFactory`: a nonce is a time, in seconds, and a digest of it with a secret.
use modem2sip.Common.{
  ℕ, zero, suc, ◌+◌, ◌-◌, Bool, false, ◌&&◌, [], ◌∷◌, ◌++◌, Option, none, some, if◌then◌else◌, ◌==◌,
  leb,
}
use modem2sip.Text.{Bytes, Text}
use modem2sip.Text.Ops.{equal, split_once, decimal, parse_unsigned}
use modem2sip.Text.Ops.{digits_from}
use modem2sip.Auth.Digest.{text_digest}

-- `i64`, in the range that its parser accepts.
pub data ℤ : Type 0 where
  pos : ℕ → ℤ
  negsuc : ℕ → ℤ

abbrev pub i64_max : ℕ
i64_max = 9223372036854775807

abbrev pub negated : Option ℕ → Option ℤ
negated none = none
negated (some zero) = some (pos 0)
negated (some (suc n)) = some (negsuc n)

abbrev pub positive : Option ℕ → Option ℤ
positive none = none
positive (some n) = some (pos n)

-- `parse::<i64>()`.
unfoldable pub parse_i64 : Text → Option ℤ
parse_i64 [] = none
parse_i64 (c ∷ []) = positive (parse_unsigned i64_max (c ∷ []))
parse_i64 (c ∷ d ∷ s) =
    if c == b'-'
    then negated (digits_from (i64_max + 1) 0 (d ∷ s))
    else positive (parse_unsigned i64_max (c ∷ d ∷ s))

abbrev pub ℤ_text : ℤ → Text
ℤ_text (pos n) = decimal n
ℤ_text (negsuc n) = b'-' ∷ decimal (suc n)

-- `(0..=max_age).contains(&(now - ts))`. A difference beyond `i64` is not in the range either.
abbrev pub in_age : ℕ → ℤ → ℕ → Bool
in_age now (pos ts) max_age = leb ts now && leb (now - ts) max_age
in_age now (negsuc n) max_age = leb (now + suc n) max_age

module _ (md5 : Bytes → Bytes) where
  -- The argument `secret` is the factory's only field.
  unfoldable pub issue : Text → ℕ → Text
  issue secret now = decimal now ++ (b':' ∷ text_digest md5 (decimal now ∷ secret ∷ []))

  abbrev pub valid_stamp : Text → Option ℤ → Text → ℕ → ℕ → Bool
  valid_stamp secret none digest max_age now = false
  valid_stamp secret (some ts) digest max_age now =
      equal (text_digest md5 (ℤ_text ts ∷ secret ∷ [])) digest && in_age now ts max_age

  abbrev pub valid_parts : Text → Option (Text × Text) → ℕ → ℕ → Bool
  valid_parts secret none max_age now = false
  valid_parts secret (some (ts, digest)) max_age now =
      valid_stamp secret (parse_i64 ts) digest max_age now

  unfoldable pub is_valid : Text → Text → ℕ → ℕ → Bool
  is_valid secret nonce max_age now = valid_parts secret (split_once b':' nonce) max_age now
