-- ===== src/Sip/Encode.antt =====
-- Serialisation, and the response that mirrors a request.
use modem2sip.Common.{
  ℕ, Bool, true, false, ◌||◌, List, [], ◌∷◌, ◌++◌, Option, none, some, if◌then◌else◌, ◌==◌, ltb,
  within, length,
}
use modem2sip.Text.{Bytes, Text, codes, as_bytes, from_utf8_lossy}
use modem2sip.Text.Ops.{equal, decimal}
use modem2sip.Uri.{Uri}
use modem2sip.Uri.Parse.{uri_text}
use modem2sip.Sip.Method.{Method, as_str}
use modem2sip.Sip.Headers.{Target, Headers, pretty, get, get_all, set, push}
use modem2sip.Sip.Message.{Request, Response, crlf}

-- `b < 0x20 || b == 0x7F`, on bytes.
unfoldable pub has_control_byte : Bytes → Bool
has_control_byte [] = false
has_control_byte (b ∷ bs) = (ltb b 0x20 || b == 0x7F) || has_control_byte bs

-- `char::is_control`: the general category Cc.
abbrev pub is_control : ℕ → Bool
is_control c = ltb c 0x20 || within 0x7F 0x9F c

unfoldable pub drop_control : Text → Text
drop_control [] = []
drop_control (c ∷ s) = let rest = drop_control s in if is_control c then rest else c ∷ rest

unfoldable pub header_safe : Text → Text
header_safe value = if has_control_byte (as_bytes value) then drop_control value else value

module _ (target : Target) where
  unfoldable pub length_line : Bytes → Text
  length_line body = codes "Content-Length: " ++ decimal (length body)

  unfoldable pub header_line : Bytes → Text × Text → Text
  header_line body (k, v) =
      if equal k (codes "content-length")
      then length_line body
      else pretty target k ++ (b':' ∷ b' ' ∷ header_safe v)

  -- The lines of the loop, and the length behind them when no header gave it: `wrote_len` is the
  -- first argument.
  unfoldable pub header_lines : Bool → Bytes → Headers → List Text
  header_lines true body [] = []
  header_lines false body [] = length_line body ∷ []
  header_lines wrote body ((k, v) ∷ hs) =
      header_line body (k, v) ∷ header_lines (wrote || equal k (codes "content-length")) body hs

  unfoldable pub with_line_ends : List Text → Text
  with_line_ends [] = []
  with_line_ends (l ∷ ls) = l ++ (crlf ++ with_line_ends ls)

  -- The start line, the headers and the empty line.
  unfoldable pub head_text : Text → Headers → Bytes → Text
  head_text start_line headers body =
      with_line_ends (header_safe start_line ∷ header_lines false body headers) ++ crlf

  unfoldable pub serialize : Text → Headers → Bytes → Bytes
  serialize start_line headers body = as_bytes (head_text start_line headers body) ++ body

  unfoldable pub encode_request : Request → Bytes
  encode_request req =
      serialize (as_str req.method ++ (b' ' ∷ (uri_text req.uri ++ codes " SIP/2.0"))) req.headers
        req.body

  unfoldable pub encode_response : Response → Bytes
  encode_response resp =
      serialize (codes "SIP/2.0 " ++ (decimal resp.code ++ (b' ' ∷ resp.reason))) resp.headers
        resp.body

abbrev pub new_request : Method → Uri → Request
new_request method uri = record { method = method; uri = uri; headers = []; body = [] }

-- `for v in values { headers.push(name, v) }`.
unfoldable pub push_all : Headers → Text → List Text → Headers
push_all hs name [] = hs
push_all hs name (v ∷ vs) = push_all (push hs name v) name vs

-- `if let Some(v) = ... { headers.set(name, v) }`.
abbrev pub set_some : Headers → Text → Option Text → Headers
set_some hs name none = hs
set_some hs name (some v) = set hs name v

unfoldable pub reply_headers : Headers → Headers
reply_headers from =
    let vias = push_all [] (codes "via") (get_all from (codes "via")) in
    let routes = push_all vias (codes "record-route") (get_all from (codes "record-route")) in
    let h1 = set_some routes (codes "from") (get from (codes "from")) in
    let h2 = set_some h1 (codes "to") (get from (codes "to")) in
    let h3 = set_some h2 (codes "call-id") (get from (codes "call-id")) in
    set_some h3 (codes "cseq") (get from (codes "cseq"))

unfoldable pub reply : Request → ℕ → Text → Response
reply req code reason = record {
  code = code;
  reason = reason;
  headers = reply_headers req.headers;
  body = [];
}

abbrev pub is_provisional : Response → Bool
is_provisional resp = within 100 199 resp.code

abbrev pub is_success : Response → Bool
is_success resp = within 200 299 resp.code

abbrev pub body_str : Bytes → Text
body_str body = from_utf8_lossy body

unfoldable pub reason_phrase : ℕ → Text
reason_phrase code =
    if code == 100
    then codes "Trying"
    else if code == 180
    then codes "Ringing"
    else if code == 183
    then codes "Session Progress"
    else if code == 200
    then codes "OK"
    else if code == 202
    then codes "Accepted"
    else if code == 400
    then codes "Bad Request"
    else if code == 401
    then codes "Unauthorized"
    else if code == 403
    then codes "Forbidden"
    else if code == 404
    then codes "Not Found"
    else if code == 405
    then codes "Method Not Allowed"
    else if code == 408
    then codes "Request Timeout"
    else if code == 415
    then codes "Unsupported Media Type"
    else if code == 420
    then codes "Bad Extension"
    else if code == 423
    then codes "Interval Too Brief"
    else if code == 480
    then codes "Temporarily Unavailable"
    else if code == 481
    then codes "Call/Transaction Does Not Exist"
    else if code == 486
    then codes "Busy Here"
    else if code == 487
    then codes "Request Terminated"
    else if code == 488
    then codes "Not Acceptable Here"
    else if code == 491
    then codes "Request Pending"
    else if code == 500
    then codes "Server Internal Error"
    else if code == 502
    then codes "Bad Gateway"
    else if code == 503
    then codes "Service Unavailable"
    else if code == 504
    then codes "Server Time-out"
    else if code == 600
    then codes "Busy Everywhere"
    else if code == 603
    then codes "Decline"
    else if code == 604
    then codes "Does Not Exist Anywhere"
    else codes "Unknown"
