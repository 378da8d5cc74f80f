-- ===== src/Core/Nonces.antt =====
-- `claim_nonce`: each count of a nonce is accepted once.
use modem2sip.Common.{
  ℕ, ◌+◌, ◌-◌, ◌*◌, Bool, true, false, [], ◌∷◌, Option, none, some, if◌then◌else◌, ◌==◌, leb, ltb,
  within, length,
}
use modem2sip.Text.{Text}
use modem2sip.Text.Ops.{trim}
use modem2sip.Text.Table.{Table, lookup, insert, keep_values}
use modem2sip.Registrar.{from_secs}
use modem2sip.Sip.Via.{and_then, u32_max}
use modem2sip.Auth.Params.{Credentials}

abbrev pub hex_value : ℕ → Option ℕ
hex_value c =
    if within b'0' b'9' c
    then some (c - b'0')
    else if within b'a' b'f' c
    then some (c - b'a' + 10)
    else if within b'A' b'F' c
    then some (c - b'A' + 10)
    else none

abbrev pub in_u32 : ℕ → Option ℕ
in_u32 n = if leb n u32_max then some n else none

-- `u32::from_str_radix(s, 16)`: digits behind an optional plus.
unfoldable pub hex_digits_from : ℕ → Text → Option ℕ
hex_digits_from acc [] = some acc
hex_digits_from acc (c ∷ s) =
    and_then (hex_value c) (λ d. and_then (in_u32 (acc * 16 + d)) (λ n. hex_digits_from n s))

unfoldable pub parse_hex : Text → Option ℕ
parse_hex [] = none
parse_hex (c ∷ []) = hex_digits_from 0 (c ∷ [])
parse_hex (c ∷ d ∷ s) =
    if c == b'+' then hex_digits_from 0 (d ∷ s) else hex_digits_from 0 (c ∷ d ∷ s)

abbrev pub or_zero : Option ℕ → ℕ
or_zero none = 0
or_zero (some n) = n

unfoldable pub nonce_count : Credentials → ℕ
nonce_count creds = or_zero (and_then creds.nc (λ v. parse_hex (trim v)))

-- The highest count of each nonce, and when the nonce was first used.
abbrev pub Seen : Type 0
Seen = Table (ℕ × ℕ)

abbrev pub claim_count : Seen → Text → ℕ → ℕ → Option (ℕ × ℕ) → Bool × Seen
claim_count seen nonce nc now none = (true, insert nonce (nc, now) seen)
claim_count seen nonce nc now (some (highest, since)) =
    if ltb highest nc then (true, insert nonce (nc, since) seen) else (false, seen)

unfoldable pub claim_nonce : Seen → Credentials → ℕ → Bool × Seen
claim_nonce seen creds now =
    claim_count seen creds.nonce (nonce_count creds) now (lookup creds.nonce seen)

abbrev pub is_remembered : ℕ → ℕ × ℕ → Bool
is_remembered now (highest, since) = ltb (now - since) (from_secs 600)

-- The part of `gc` on the nonces.
unfoldable pub gc_nonces : Seen → ℕ → Seen
gc_nonces seen now = if ltb 64 (length seen) then keep_values (is_remembered now) seen else seen
