-- ===== src/Sip/Message.antt =====
-- `Message::parse`: from the bytes of a datagram to a request or a response.
use modem2sip.Common.{
  ℕ, suc, ◌+◌, ◌||◌, List, [], ◌∷◌, ◌++◌, Option, none, some, if◌then◌else◌, leb, length, take,
  drop,
}
use modem2sip.Text.{Bytes, Text, codes}
use modem2sip.Text.Ops.{
  starts_with, trim, trim_start, is_whitespace, split, split_once, parse_unsigned,
}
use modem2sip.Text.Words.{split_whitespace, replace_crlf, split_crlf, from_utf8}
use modem2sip.Uri.{Uri}
use modem2sip.Uri.Parse.{parse}
use modem2sip.Sip.Method.{Method, parse_method}
use modem2sip.Sip.Headers.{Target, Headers, canonical, get}
use modem2sip.Sip.Via.{and_then}

pub record Request : Type 0 where
  pub method : Method
  pub uri : Uri
  pub headers : Headers
  pub body : Bytes

pub record Response : Type 0 where
  pub code : ℕ
  pub reason : Text
  pub headers : Headers
  pub body : Bytes

pub data Message : Type 0 where
  request : Request → Message
  response : Response → Message

abbrev pub crlf : Text
crlf = 13 ∷ 10 ∷ []

abbrev pub plus_one : Option ℕ → Option ℕ
plus_one none = none
plus_one (some n) = some (suc n)

-- Where the needle, which is not empty, stands first.
unfoldable pub find_sub : Bytes → Bytes → Option ℕ
find_sub needle [] = none
find_sub needle (b ∷ bs) =
    let rest = plus_one (find_sub needle bs) in if starts_with (b ∷ bs) needle then some 0 else rest

abbrev pub after_lf : Bytes → Option ℕ → ℕ × ℕ
after_lf buf (some pos) = (pos, pos + 2)
after_lf buf none = (length buf, length buf)

abbrev pub after_crlf : Bytes → Option ℕ → ℕ × ℕ
after_crlf buf (some pos) = (pos, pos + 4)
after_crlf buf none = after_lf buf (find_sub (10 ∷ 10 ∷ []) buf)

unfoldable pub find_body_start : Bytes → ℕ × ℕ
find_body_start buf = after_crlf buf (find_sub (13 ∷ 10 ∷ 13 ∷ 10 ∷ []) buf)

-- A line behind the first: the continuation of the one before it, or a line of its own.
unfoldable pub later_line : Text → Text
later_line line =
    if starts_with line (b' ' ∷ []) || starts_with line (9 ∷ [])
    then b' ' ∷ trim_start is_whitespace line
    else crlf ++ line

unfoldable pub later_lines : List Text → Text
later_lines [] = []
later_lines (l ∷ ls) = later_line l ++ later_lines ls

abbrev pub joined_lines : List Text → Text
joined_lines [] = []
joined_lines (l ∷ ls) = l ++ later_lines ls

unfoldable pub unfold_head : Text → Text
unfold_head head = joined_lines (split 10 (replace_crlf head))

-- `.filter(|l| !l.is_empty())`.
unfoldable pub non_empty_lines : List Text → List Text
non_empty_lines [] = []
non_empty_lines ([] ∷ ls) = non_empty_lines ls
non_empty_lines ((c ∷ l) ∷ ls) = (c ∷ l) ∷ non_empty_lines ls

-- A line without a colon is left out.
abbrev pub header_of : Option (Text × Text) → Headers → Headers
header_of none hs = hs
header_of (some (name, value)) hs = (canonical name, trim value) ∷ hs

unfoldable pub parse_headers : List Text → Headers
parse_headers [] = []
parse_headers (l ∷ ls) = header_of (split_once b':' l) (parse_headers ls)

-- `start.splitn(3, ' ')` behind its first part: the code and the reason.
abbrev pub code_and_reason : Text → Option (Text × Text) → Text × Text
code_and_reason rest none = (rest, [])
code_and_reason rest (some (code, reason)) = (code, reason)

abbrev pub u16_max : ℕ
u16_max = 65535

abbrev pub response_of : Headers → Bytes → Option (Text × Text) → Option Message
response_of headers body none = none
response_of headers body (some (version, rest)) =
    let (code, reason) = code_and_reason rest (split_once b' ' rest) in
    and_then (parse_unsigned u16_max code)
      (λ n. some (response (record { code = n; reason = reason; headers = headers; body = body })))

abbrev pub request_of : Headers → Bytes → List Text → Option Message
request_of headers body (method ∷ uri ∷ rest) = and_then (parse_method method) (λ m.
    and_then (parse uri)
      (λ u. some (request (record { method = m; uri = u; headers = headers; body = body }))))
request_of headers body _ = none

abbrev pub message_of : Text → Headers → Bytes → Option Message
message_of start headers body =
    if starts_with start (codes "SIP/")
    then response_of headers body (split_once b' ' start)
    else request_of headers body (split_whitespace start)

module _ (target : Target) where
  -- The body up to `Content-Length`, when that many bytes have arrived.
  abbrev pub cut_body : Bytes → Option ℕ → Bytes
  cut_body body none = body
  cut_body body (some len) = if leb len (length body) then take len body else body

  abbrev pub declared_length : Headers → Option ℕ
  declared_length hs =
      and_then (get hs (codes "content-length")) (λ v. parse_unsigned target.usize_max (trim v))

  abbrev pub message_in : Bytes → List Text → Option Message
  message_in body [] = none
  message_in body (start ∷ lines) =
      let headers = parse_headers lines in
      message_of start headers (cut_body body (declared_length headers))

  unfoldable pub parse_message : Bytes → Option Message
  parse_message buf =
      let (end_, start) = find_body_start buf in
      and_then (from_utf8 (take end_ buf))
        (λ head. message_in (drop start buf) (non_empty_lines (split_crlf (unfold_head head))))
