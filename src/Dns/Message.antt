-- ===== src/Dns/Message.antt =====
-- Queries, and what an answer holds.
use modem2sip.Common.{
  ℕ, zero, suc, ◌+◌, ◌/◌, ◌%◌, Bool, true, false, ◌&&◌, ◌||◌, List, [], ◌∷◌, ◌++◌, Option, none,
  some, length, if◌then◌else◌, ltb, ◌==◌,
}
use modem2sip.Text.{Bytes, Text, as_bytes}
use modem2sip.Text.Ops.{split, trim_end, eq_ignore_ascii_case}
use modem2sip.Dns.Names.{
  DnsError, Result, ok, err, and_then, ok_or, result_ok, get_range, byte_at, u16_at, to_be_bytes,
  skip_name, read_name,
}

unfoldable pub trim_dots : Text → Text
trim_dots host = trim_end (λ c. c == b'.') host

unfoldable pub push_labels : List Text → Result Bytes
push_labels [] = ok []
push_labels (label ∷ labels) =
    let bytes = as_bytes label in
    let rest = push_labels labels in
    if length bytes == 0 || ltb 63 (length bytes)
    then err DnsError.invalid_host_name
    else and_then rest (λ more. ok (length bytes ∷ bytes ++ more))

unfoldable pub build_query : ℕ → Text → ℕ → Result Bytes
build_query id host qtype = and_then (push_labels (split b'.' (trim_dots host))) (λ name. ok (
    to_be_bytes id
    ++ to_be_bytes 0x0100
    ++ to_be_bytes 1
    ++ (0 ∷ 0 ∷ 0 ∷ 0 ∷ 0 ∷ 0 ∷ [])
    ++ name
    ++ 0 ∷ to_be_bytes qtype
    ++ to_be_bytes 1))

pub data Reply : Type 0 where
  ours not_ours : Reply
  rejected : ℕ → Reply

-- The question that stands behind the name at 12.
abbrev pub question_matches : Text → Text → ℕ → Option Bytes → Bool
question_matches host name qtype none = false
question_matches host name qtype (some q) =
    u16_at q 0 == qtype && u16_at q 2 == 1 && eq_ignore_ascii_case name (trim_dots host)

abbrev pub question_at : Bytes → Text → ℕ → Result Text → Result ℕ → Bool
question_at msg host qtype (ok name) (ok after) =
    question_matches host name qtype (get_range msg after (after + 4))
question_at msg host qtype _ _ = false

unfoldable pub echoed : Bytes → Text → ℕ → Bool
echoed msg host qtype =
    u16_at msg 4 == 1 && question_at msg host qtype (read_name msg 12) (skip_name msg 12)

abbrev pub reply_for : Bool → ℕ → Reply
reply_for true rcode = Reply.ours
reply_for false zero = Reply.not_ours
reply_for false (suc n) = Reply.rejected (suc n)

unfoldable pub classify : Bytes → ℕ → Text → ℕ → Reply
classify msg want_id host qtype =
    if ltb (length msg) 12
    then Reply.not_ours
    else if u16_at msg 0 == want_id
    then if u16_at msg 2 / 0x8000 % 2 == 0
      then Reply.not_ours
      else reply_for (echoed msg host qtype) (u16_at msg 2 % 16)
    else Reply.not_ours

pub data IpAddr : Type 0 where
  v4 : ℕ → ℕ → ℕ → ℕ → IpAddr
  v6 : Bytes → IpAddr

pub record Answer : Type 0 where
  pub addrs : List IpAddr
  pub cname : Option Text

abbrev pub type_a : ℕ
type_a = 1

abbrev pub type_cname : ℕ
type_cname = 5

abbrev pub type_aaaa : ℕ
type_aaaa = 28

-- `if answer.cname.is_none() { answer.cname = read_name(msg, pos).ok() }`.
abbrev pub first_cname : Option Text → Result Text → Option Text
first_cname none name = result_ok name
first_cname (some c) name = some c

-- The `match` on the record's type; `pos` is that of the data.
unfoldable pub add_record : Bytes → ℕ → ℕ → Bytes → ℕ → Answer → Answer
add_record msg qtype rtype rdata pos answer =
    if rtype == type_a && length rdata == 4 && qtype == type_a
    then record answer {
      addrs =
          answer.addrs
          ++ v4 (byte_at rdata 0) (byte_at rdata 1) (byte_at rdata 2) (byte_at rdata 3) ∷ [];
    }
    else if rtype == type_aaaa && length rdata == 16 && qtype == type_aaaa
    then record answer { addrs = answer.addrs ++ v6 rdata ∷ [] }
    else if rtype == type_cname
    then record answer { cname = first_cname answer.cname (read_name msg pos) }
    else answer

-- One record: the answer with it, and the position behind it.
unfoldable pub parse_record : Bytes → ℕ → ℕ → Answer → Result (Answer × ℕ)
parse_record msg qtype start answer = and_then (skip_name msg start) (λ pos.
    and_then (ok_or (get_range msg pos (pos + 10)) DnsError.truncated_record) (λ header.
      and_then
        (ok_or (get_range msg (pos + 10) (pos + 10 + u16_at header 8)) DnsError.truncated_rdata)
        (λ rdata. ok (
          add_record msg qtype (u16_at header 0) rdata (pos + 10) answer,
          pos + 10 + u16_at header 8,
        ))))

unfoldable pub parse_records : ℕ → Bytes → ℕ → ℕ → Answer → Result Answer
parse_records zero msg qtype pos answer = ok answer
parse_records (suc n) msg qtype pos answer =
    and_then (parse_record msg qtype pos answer) (λ r. parse_records n msg qtype r.1 r.0)

unfoldable pub skip_questions : ℕ → Bytes → ℕ → Result ℕ
skip_questions zero msg pos = ok pos
skip_questions (suc n) msg pos =
    and_then (skip_name msg pos) (λ after. skip_questions n msg (after + 4))

abbrev pub check_rcode {ℓ} : {A : Type ℓ} → ℕ → Result A → Result A
check_rcode rcode k =
    if rcode == 0
    then k
    else if rcode == 3
    then err DnsError.nxdomain
    else err (DnsError.answered_rcode rcode)

abbrev pub no_records : Answer
no_records = record { addrs = []; cname = none }

unfoldable pub parse_answer : Bytes → ℕ → ℕ → Result Answer
parse_answer msg want_id qtype =
    if ltb (length msg) 12
    then err DnsError.short_response
    else if u16_at msg 0 == want_id
    then if u16_at msg 2 / 0x8000 % 2 == 0
      then err DnsError.not_a_response
      else check_rcode (u16_at msg 2 % 16) (
          and_then (skip_questions (u16_at msg 4) msg 12)
            (λ pos. parse_records (u16_at msg 6) msg qtype pos no_records))
    else err DnsError.id_mismatch
