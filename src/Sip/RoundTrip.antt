-- ===== src/Sip/RoundTrip.antt =====
-- A response that is sent is the response that is received.
use modem2sip.Common.{
  ◌≤◌, ◌≡◌, refl, ap, ◌∙◌, arith, true, false, List, [], ◌∷◌, ◌++◌, some, ◌==◌, leb, All,
  All-append, append_assoc, length, take, Bool-cases, inl, inr,
}
use modem2sip.Text.{Bytes, Text, codes, as_bytes, encode_utf8, IsChar}
use modem2sip.Text.Utf8.{as_bytes-append}
use modem2sip.Text.Ops.{
  equal, to_ascii_lowercase, starts_with, trim, trim_matches, trim_start, trim_end, trim_end_with,
  is_whitespace, contains_char, decimal,
}
use modem2sip.Text.Decimal.{IsDigit, decimal-IsDigit, parse_unsigned-decimal}
use modem2sip.Number.Local.{trim_id, digits-NoSpace}
use modem2sip.Uri.HostPort.{split_once-append}
use modem2sip.Sip.Headers.{Target, Headers, canonical, full_form, get, find_header}
use modem2sip.Sip.Via.{and_then}
use modem2sip.Sip.Message.{
  Response, response, crlf, u16_max, message_of, response_of, cut_body, declared_length,
  parse_message,
}
use modem2sip.Sip.Encode.{
  has_control_byte, header_safe, header_lines, head_text, with_line_ends, serialize,
  encode_response,
}
use modem2sip.Sip.Lines.{untouched-has_break}
use modem2sip.Sip.Wire.{starts_plain, joined, with_line_ends-joined}
use modem2sip.Sip.WireBytes.{parse_message-joined}
use modem2sip.Sip.Sent.{
  size_name, IsSent, header_safe_id, is_ascii, ascii-IsChar, digits-IsChar, received, sent_lines,
}

module _ (target : Target) (body : Bytes) where
  -- The length that the peer reads.
  find_header-received :
      (hs : Headers) → find_header size_name (received false body hs) ≡ some (decimal (length body))
  unfolding find_header received equal
  find_header-received [] = refl
  find_header-received ((k, v) ∷ hs) = elim (Bool-cases (equal k size_name)) [
    | inl size ↦ rw size
    | inr other ↦ rw other (find_header-received hs)
  ]

  take_all : (bs : Bytes) → take (length bs) bs ≡ bs
  take_all [] = refl
  take_all (b ∷ bs) = ap (◌∷◌ b) (take_all bs)

  cut_body-received :
      (hs : Headers)
      → length body ≤ target.usize_max
      → cut_body target body (declared_length target (received false body hs)) ≡ body
  unfolding get canonical full_form to_ascii_lowercase equal trim trim_matches trim_start trim_end
      trim_end_with is_whitespace
  cut_body-received hs fits =
      let n = decimal (length body) in
      let digits : trim n ≡ n = trim_id n (digits-NoSpace n (decimal-IsDigit (length body))) in
      let whole : leb (length body) (length body) ≡ true = ground arith in
      rw
        (
          find_header-received hs,
          and_then,
          digits,
          parse_unsigned-decimal target.usize_max (length body) fits,
          cut_body,
          whole,
        )
        (take_all body)

  joined-IsChar :
      (l : Text) (ls : List Text) → All IsChar l → All (All IsChar) ls → All IsChar (joined l ls)
  joined-IsChar l [] h hs = h
  joined-IsChar l (m ∷ ls) h (first, rest) =
      All-append IsChar l (crlf ++ joined m ls) h
        (inl (omega arith), (inl (omega arith), joined-IsChar m ls first rest))

  serialize-joined :
      (start : Text) (hs : Headers)
      → header_safe start ≡ start
      → serialize target start hs body
        ≡ as_bytes (joined start (header_lines target false body hs))
          ++ ((13 ∷ 10 ∷ 13 ∷ 10 ∷ []) ++ body)
  unfolding serialize head_text as_bytes encode_utf8
  serialize-joined start hs safe =
      let J = joined start (header_lines target false body hs) in
      let head : head_text target start hs body ≡ J ++ (crlf ++ crlf) =
        ap (λ (s : Text). with_line_ends target (s ∷ header_lines target false body hs) ++ crlf)
          safe
        ∙ ap (λ (s : Text). s ++ crlf)
            (with_line_ends-joined target start (header_lines target false body hs))
        ∙ append_assoc J crlf crlf in
      ap (λ (s : Text). as_bytes s ++ body) head
      ∙ ap (λ (s : Bytes). s ++ body) (as_bytes-append J (crlf ++ crlf))
      ∙ append_assoc (as_bytes J) (13 ∷ 10 ∷ 13 ∷ 10 ∷ []) body

  pub parse_message-serialize :
      (start : Text) (hs : Headers)
      → has_control_byte (as_bytes start) ≡ false
      → starts_plain start ≡ true
      → All IsChar start
      → All (IsSent target) hs
      → length body ≤ target.usize_max
      → parse_message target (serialize target start hs body)
        ≡ message_of start (received false body hs) body
  parse_message-serialize start hs clean plain chars sent fits =
      let (lines, line_chars, back) = sent_lines target body false hs sent in
      ap (parse_message target) (serialize-joined start hs (header_safe_id start clean))
      ∙ parse_message-joined target start (header_lines target false body hs) body
          (untouched-has_break start clean, plain) lines
          (joined-IsChar start (header_lines target false body hs) chars line_chars)
      ∙ ap (λ (h : Headers). message_of start h (cut_body target body (declared_length target h)))
          back
      ∙ ap (message_of start (received false body hs)) (cut_body-received hs fits)

abbrev pub status_line : Response → Text
status_line r = codes "SIP/2.0 " ++ (decimal r.code ++ (b' ' ∷ r.reason))

-- A response that can be read back.
pub record IsSendable (target : Target) (r : Response) : Type 0 where
  pub code_fits : r.code ≤ u16_max
  pub clean : has_control_byte (as_bytes (status_line r)) ≡ false
  pub chars : All IsChar r.reason
  pub headers_sent : All (IsSent target) r.headers
  pub body_fits : length r.body ≤ target.usize_max

digits_no_space : (s : Text) → All IsDigit s → contains_char s b' ' ≡ false
unfolding contains_char
digits_no_space [] h = refl
digits_no_space (c ∷ s) (d, ds) =
    let other : (c == b' ') ≡ false = ground (arith, d) in rw other (digits_no_space s ds)

message_of-status_line :
    (r : Response) (hs : Headers) (body : Bytes)
    → r.code ≤ u16_max
    → message_of (status_line r) hs body
      ≡ some (response (record { code = r.code; reason = r.reason; headers = hs; body = body }))
unfolding starts_with contains_char
message_of-status_line r hs body fits =
    let rest = decimal r.code ++ (b' ' ∷ r.reason) in
    ap (response_of hs body) (split_once-append b' ' (codes "SIP/2.0") rest refl)
    ∙ rw (
      split_once-append b' ' (decimal r.code) r.reason
          (digits_no_space (decimal r.code) (decimal-IsDigit r.code)),
      and_then,
      parse_unsigned-decimal u16_max r.code fits,
    )

pub parse_message-encode_response :
    (target : Target) (r : Response)
    → IsSendable target r
    → parse_message target (encode_response target r)
      ≡ some (
          response (record {
            code = r.code;
            reason = r.reason;
            headers = received false r.body r.headers;
            body = r.body;
          }))
unfolding encode_response is_ascii
parse_message-encode_response target r sendable =
    let chars =
      All-append IsChar (codes "SIP/2.0 ") (decimal r.code ++ (b' ' ∷ r.reason))
        (ascii-IsChar (codes "SIP/2.0 ") refl)
        (All-append IsChar (decimal r.code) (b' ' ∷ r.reason)
          (digits-IsChar (decimal r.code) (decimal-IsDigit r.code))
          (inl (omega arith), sendable.chars)) in
    parse_message-serialize target r.body (status_line r) r.headers sendable.clean refl chars
      sendable.headers_sent sendable.body_fits
    ∙ message_of-status_line r (received false r.body r.headers) r.body sendable.code_fits
