-- ===== src/Dns/Names.antt =====
-- Reading and writing of domain names and 16-bit numbers.
use modem2sip.Common.{
  ℕ, zero, suc, ◌+◌, ◌-◌, ◌*◌, ◌/◌, ◌%◌, Bool, [], ◌∷◌, ◌++◌, Option, none, some, length, get_elem?,
  take, drop, if◌then◌else◌, leb, ◌==◌,
}
use modem2sip.Text.{Bytes, Text, from_utf8_lossy}

-- The errors of the module; `out_of_fuel` is the model's.
pub data DnsError : Type 0 where
  truncated_name name_too_long truncated_pointer compression_loop truncated_label : DnsError
  invalid_host_name short_response id_mismatch not_a_response nxdomain : DnsError
  truncated_record truncated_rdata no_answer no_server no_address timed_out : DnsError
  answered_rcode : ℕ → DnsError
  out_of_fuel : DnsError

pub data Result {ℓ} (A : Type ℓ) : Type ℓ where
  ok : A → Result A
  err : DnsError → Result A

-- `?`.
abbrev pub and_then {ℓ κ} : {A : Type ℓ} {B : Type κ} → Result A → (A → Result B) → Result B
and_then (ok a) f = f a
and_then (err e) f = err e

abbrev pub ok_or {ℓ} : {A : Type ℓ} → Option A → DnsError → Result A
ok_or none e = err e
ok_or (some a) e = ok a

-- `.ok()`.
abbrev pub result_ok {ℓ} : {A : Type ℓ} → Result A → Option A
result_ok (ok a) = some a
result_ok (err e) = none

-- `msg.get(start..end)`.
unfoldable pub get_range : Bytes → ℕ → ℕ → Option Bytes
get_range msg start end_ =
    if leb start end_
    then if leb end_ (length msg) then some (take (end_ - start) (drop start msg)) else none
    else none

-- `xs[i]`, behind a check of the length.
abbrev pub byte_at : Bytes → ℕ → ℕ
byte_at [] i = 0
byte_at (b ∷ bs) zero = b
byte_at (b ∷ bs) (suc i) = byte_at bs i

-- `u16::from_be_bytes` of two neighbours, and `to_be_bytes`.
abbrev pub u16_at : Bytes → ℕ → ℕ
u16_at xs i = byte_at xs i * 256 + byte_at xs (i + 1)

abbrev pub to_be_bytes : ℕ → Bytes
to_be_bytes n = n / 256 % 256 ∷ n % 256 ∷ []

-- `len & 0xC0 == 0xC0`.
abbrev pub is_pointer : ℕ → Bool
is_pointer len = len / 64 % 4 == 3

-- The round of the loop of `skip_name`, with the rounds left.
unfoldable pub skip_name_loop : ℕ → Bytes → ℕ → Result ℕ
skip_name_loop zero msg pos = err DnsError.name_too_long
skip_name_loop (suc rounds) msg pos = elim (get_elem? msg pos) [
  | none ↦ err DnsError.truncated_name
  | some len ↦
      let rest = skip_name_loop rounds msg (pos + 1 + len) in
      if len == 0 then ok (pos + 1) else if is_pointer len then ok (pos + 2) else rest
]

unfoldable pub skip_name : Bytes → ℕ → Result ℕ
skip_name msg pos = skip_name_loop 128 msg pos

-- `out`, with a dot behind it unless it is empty.
abbrev pub push_dot : Text → Text
push_dot [] = []
push_dot (c ∷ out) = c ∷ out ++ b'.' ∷ []

-- What a round of the loop of `read_name` leads to: its end, or another round with `out`, the
-- pointers that may still be followed, and the position.
pub data NameRound : Type 0 where
  finished : Result Text → NameRound
  again : Text → ℕ → ℕ → NameRound

-- `hops` counts the pointers that may still be followed, 16 at first.
abbrev pub follow_pointer : Text → ℕ → ℕ → Option ℕ → NameRound
follow_pointer out hops len none = NameRound.finished (err DnsError.truncated_pointer)
follow_pointer out zero len (some lo) = NameRound.finished (err DnsError.compression_loop)
follow_pointer out (suc hops) len (some lo) = NameRound.again out hops (len % 64 * 256 + lo)

abbrev pub push_label : Text → ℕ → ℕ → Option Bytes → NameRound
push_label out hops end_ none = NameRound.finished (err DnsError.truncated_label)
push_label out hops end_ (some label) =
    NameRound.again (push_dot out ++ from_utf8_lossy label) hops end_

abbrev pub name_byte : Bytes → Text → ℕ → ℕ → Option ℕ → NameRound
name_byte msg out hops pos none = NameRound.finished (err DnsError.truncated_name)
name_byte msg out hops pos (some len) =
    if len == 0
    then NameRound.finished (ok out)
    else if is_pointer len
    then follow_pointer out hops len (get_elem? msg (pos + 1))
    else push_label out hops (pos + 1 + len) (get_range msg (pos + 1) (pos + 1 + len))

unfoldable pub read_name_round : Bytes → Text → ℕ → ℕ → NameRound
read_name_round msg out hops pos = name_byte msg out hops pos (get_elem? msg pos)

unfoldable pub read_name_loop : ℕ → Bytes → Text → ℕ → ℕ → Result Text
read_name_loop zero msg out hops pos = err DnsError.out_of_fuel
read_name_loop (suc fuel) msg out hops pos = elim (read_name_round msg out hops pos) [
  | NameRound.finished result ↦ result
  | NameRound.again out2 hops2 pos2 ↦ read_name_loop fuel msg out2 hops2 pos2
]

-- Between two pointers the position grows, up to the end of the message.
unfoldable pub name_budget : ℕ → ℕ → ℕ
name_budget zero size = size + 1
name_budget (suc hops) size = name_budget hops size + size + 1

unfoldable pub read_name : Bytes → ℕ → Result Text
read_name msg pos = read_name_loop (suc (name_budget 16 (length msg))) msg [] 16 pos
