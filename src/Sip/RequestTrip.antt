-- ===== src/Sip/RequestTrip.antt =====
-- A request that is sent is the request that is received.
use modem2sip.Common.{
  ◌≤◌, ◌≡◌, refl, ap, ◌∙◌, arith, Bool, true, false, ◌&&◌, not, List, [], ◌∷◌, ◌++◌, some, All,
  length,
}
use modem2sip.Text.{Bytes, Text, codes, as_bytes, IsChar}
use modem2sip.Text.Ops.{
  equal, starts_with, is_whitespace, trim, trim_matches, trim_start, trim_end, split_once,
}
use modem2sip.Text.Words.{push_word, words_from, split_whitespace, to_ascii_uppercase}
use modem2sip.Number.Local.{NoSpace}
use modem2sip.Uri.{Uri}
use modem2sip.Uri.Parse.{parse, uri_text}
use modem2sip.Sip.Method.{
  Method, invite, ack, bye, cancel, register, options, info, message, notify, subscribe, update,
  prack, refer, as_str, named, parse_method,
}
use modem2sip.Sip.Headers.{Target, Headers}
use modem2sip.Sip.Via.{and_then}
use modem2sip.Sip.Message.{
  Request, Response, request, response, message_of, request_of, parse_message,
}
use modem2sip.Sip.Encode.{has_control_byte, encode_request, encode_response}
use modem2sip.Sip.Wire.{starts_plain}
use modem2sip.Sip.Sent.{IsSent, received}
use modem2sip.Sip.RoundTrip.{IsSendable, parse_message-serialize, parse_message-encode_response}

pub parse_method-as_str : (m : Method) → parse_method (as_str m) ≡ some m
unfolding parse_method named as_str to_ascii_uppercase equal
parse_method-as_str invite = refl
parse_method-as_str ack = refl
parse_method-as_str bye = refl
parse_method-as_str cancel = refl
parse_method-as_str register = refl
parse_method-as_str options = refl
parse_method-as_str info = refl
parse_method-as_str message = refl
parse_method-as_str notify = refl
parse_method-as_str subscribe = refl
parse_method-as_str update = refl
parse_method-as_str prack = refl
parse_method-as_str refer = refl

abbrev pub request_line : Method → Uri → Text
request_line m u = as_str m ++ (b' ' ∷ (uri_text u ++ codes " SIP/2.0"))

words_from-word : (w s : Text) → NoSpace w → words_from (w ++ b' ' ∷ s) ≡ (w, split_whitespace s)
unfolding words_from split_whitespace is_whitespace
words_from-word [] s h = refl
words_from-word (c ∷ w) s (here, later) = rw (here, words_from-word w s later)

version_words : split_whitespace (codes "SIP/2.0") ≡ codes "SIP/2.0" ∷ []
unfolding words_from split_whitespace is_whitespace
version_words = refl

has_no_space : Text → Bool
has_no_space [] = true
has_no_space (c ∷ s) = not (is_whitespace c) && has_no_space s

has_no_space-NoSpace : (s : Text) → has_no_space s ≡ true → NoSpace s
unfolding has_no_space
has_no_space-NoSpace [] h = tt
has_no_space-NoSpace (c ∷ s) h = (ground (arith, h), has_no_space-NoSpace s (ground (arith, h)))

-- A method is a word, which does not start a response.
method_word :
    (m : Method) (words : List Text) (s : Text)
    → (push_word (as_str m) words ≡ as_str m ∷ words)
      × (has_no_space (as_str m) ≡ true)
      × (starts_with (as_str m ++ s) (codes "SIP/") ≡ false)
unfolding as_str has_no_space starts_with is_whitespace
method_word invite words s = (refl, refl, refl)
method_word ack words s = (refl, refl, refl)
method_word bye words s = (refl, refl, refl)
method_word cancel words s = (refl, refl, refl)
method_word register words s = (refl, refl, refl)
method_word options words s = (refl, refl, refl)
method_word info words s = (refl, refl, refl)
method_word message words s = (refl, refl, refl)
method_word notify words s = (refl, refl, refl)
method_word subscribe words s = (refl, refl, refl)
method_word update words s = (refl, refl, refl)
method_word prack words s = (refl, refl, refl)
method_word refer words s = (refl, refl, refl)

-- What parses is not empty.
uri_word-parse :
    (w : Text) (u : Uri) (words : List Text) → parse w ≡ some u → push_word w words ≡ w ∷ words
unfolding parse trim trim_matches trim_start trim_end split_once
uri_word-parse [] u words h = ground (arith, h)
uri_word-parse (c ∷ w) u words h = refl

split_whitespace-request_line :
    (m : Method) (u : Uri)
    → parse (uri_text u) ≡ some u
    → NoSpace (uri_text u)
    → split_whitespace (request_line m u) ≡ as_str m ∷ uri_text u ∷ codes "SIP/2.0" ∷ []
unfolding split_whitespace
split_whitespace-request_line m u back word =
    let first = has_no_space-NoSpace (as_str m) ((method_word m [] []).1) in
    rw (words_from-word (as_str m) (uri_text u ++ codes " SIP/2.0") first) (
      (method_word m (split_whitespace (uri_text u ++ codes " SIP/2.0")) []).0
      ∙ ap (◌∷◌ (as_str m)) (
          rw (words_from-word (uri_text u) (codes "SIP/2.0") word, version_words)
            (uri_word-parse (uri_text u) u (codes "SIP/2.0" ∷ []) back)))

-- A request that can be read back: its URI is printed as a word that parses to it.
pub record IsSendableRequest (target : Target) (req : Request) : Type 0 where
  pub uri_back : parse (uri_text req.uri) ≡ some req.uri
  pub uri_word : NoSpace (uri_text req.uri)
  pub clean : has_control_byte (as_bytes (request_line req.method req.uri)) ≡ false
  pub chars : All IsChar (request_line req.method req.uri)
  pub headers_sent : All (IsSent target) req.headers
  pub body_fits : length req.body ≤ target.usize_max

message_of-request_line :
    (m : Method) (u : Uri) (hs : Headers) (body : Bytes)
    → parse (uri_text u) ≡ some u
    → NoSpace (uri_text u)
    → message_of (request_line m u) hs body
      ≡ some (request (record { method = m; uri = u; headers = hs; body = body }))
message_of-request_line m u hs body back word =
    let start = (method_word m [] (b' ' ∷ (uri_text u ++ codes " SIP/2.0"))).2 in
    rw start (
      ap (request_of hs body) (split_whitespace-request_line m u back word)
      ∙ rw (parse_method-as_str m, and_then, back))

request_line_plain : (m : Method) (s : Text) → starts_plain (as_str m ++ s) ≡ true
unfolding as_str
request_line_plain invite s = refl
request_line_plain ack s = refl
request_line_plain bye s = refl
request_line_plain cancel s = refl
request_line_plain register s = refl
request_line_plain options s = refl
request_line_plain info s = refl
request_line_plain message s = refl
request_line_plain notify s = refl
request_line_plain subscribe s = refl
request_line_plain update s = refl
request_line_plain prack s = refl
request_line_plain refer s = refl

parse_message-encode_request :
    (target : Target) (req : Request)
    → IsSendableRequest target req
    → parse_message target (encode_request target req)
      ≡ some (request (record req { headers = received false req.body req.headers }))
unfolding encode_request
parse_message-encode_request target req sendable =
    parse_message-serialize target req.body (request_line req.method req.uri) req.headers
      sendable.clean (request_line_plain req.method (b' ' ∷ (uri_text req.uri ++ codes " SIP/2.0")))
      sendable.chars sendable.headers_sent sendable.body_fits
    ∙ message_of-request_line req.method req.uri (received false req.body req.headers) req.body
        sendable.uri_back sendable.uri_word

-- For a request and a response that can be sent (a code of 16 bits, or a URI whose text is a
-- word that parses to it; a start line without control characters; headers whose names are
-- spelled back into themselves and have no colon or line break and start with neither space nor
-- tab, whose values are trimmed and free of control characters; Unicode characters throughout;
-- a body whose length fits usize), parsing the encoded message succeeds and gives back the
-- method and URI, or the code and reason, the headers in order with the length of the body in
-- the place of a declared one or behind the others, and the whole body, whatever bytes it
-- holds.
pub parse_message-encode :
    (target : Target) (req : Request) (resp : Response)
    → IsSendableRequest target req
    → IsSendable target resp
    → (parse_message target (encode_request target req)
        ≡ some (request (record req { headers = received false req.body req.headers })))
      × (parse_message target (encode_response target resp)
          ≡ some (response (record resp { headers = received false resp.body resp.headers })))
parse_message-encode target req resp good_request good_response = (
  parse_message-encode_request target req good_request,
  parse_message-encode_response target resp good_response,
)
