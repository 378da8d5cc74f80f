-- ===== src/Tests/Message.antt =====
-- A response on the wire.
use modem2sip.Common.{◌≡◌, refl, arith, false, [], ◌∷◌, none, some, inl}
use modem2sip.Text.{codes, as_bytes, encode_utf8}
use modem2sip.Text.Ops.{
  equal, to_ascii_lowercase, trim, trim_matches, trim_start, trim_end, trim_end_with, is_whitespace,
  contains_char, decimal, decimal_from, split_once, rsplit_once, starts_with, strip_prefix,
}
use modem2sip.Sip.Headers.{canonical, full_form, pretty, title_case}
use modem2sip.Sip.Message.{Request, Response, request, response, parse_message}
use modem2sip.Sip.Encode.{encode_request, encode_response, has_control_byte}
use modem2sip.Sip.Sent.{IsSent, is_ascii, ascii-IsChar, received}
use modem2sip.Sip.RoundTrip.{IsSendable}
use modem2sip.Sip.RequestTrip.{IsSendableRequest, request_line, parse_message-encode}
use modem2sip.Sip.Method.{bye, as_str}
use modem2sip.Uri.{new}
use modem2sip.Uri.Host.{host_for_wire, split_host_port}
use modem2sip.Uri.Parse.{
  parse, uri_of, uri_text, uri_params_text, parse_uri_params, parse_uri_headers, cut,
}
use modem2sip.Tests.Core.{target}

abbrev ringing : Response
ringing = record {
  code = 180;
  reason = codes "Hi";
  headers = (codes "cseq", codes "7 B") ∷ [];
  body = codes "v=";
}

cseq-IsSent : IsSent target (codes "cseq", codes "7 B")
unfolding pretty canonical full_form to_ascii_lowercase trim trim_matches trim_start trim_end
    trim_end_with is_whitespace equal title_case contains_char has_control_byte as_bytes encode_utf8
cseq-IsSent = record {
  name_back = refl;
  no_colon = refl;
  name_line = (refl, refl);
  name_chars =
      (inl (omega arith), (inl (omega arith), (inl (omega arith), (inl (omega arith), tt))));
  trimmed = refl;
  no_control = refl;
  value_chars = (inl (omega arith), (inl (omega arith), (inl (omega arith), tt)));
}

ringing-IsSendable : IsSendable target ringing
unfolding has_control_byte as_bytes encode_utf8 decimal decimal_from
ringing-IsSendable = record {
  code_fits = omega arith;
  clean = refl;
  chars = (inl (omega arith), (inl (omega arith), tt));
  headers_sent = (cseq-IsSent, tt);
  body_fits = omega arith;
}

abbrev bye_now : Request
bye_now = record {
  method = bye;
  uri = new none (codes "g") none;
  headers = (codes "cseq", codes "7 B") ∷ [];
  body = [];
}

bye_now-IsSendableRequest : IsSendableRequest target bye_now
unfolding has_control_byte as_bytes encode_utf8 as_str is_ascii uri_text parse_uri_params
    parse_uri_headers uri_of parse split_once rsplit_once split_host_port cut contains_char
    starts_with to_ascii_lowercase trim trim_matches trim_start trim_end trim_end_with is_whitespace
    equal host_for_wire uri_params_text strip_prefix
bye_now-IsSendableRequest = record {
  uri_back = refl;
  uri_word = (refl, (refl, (refl, (refl, (refl, tt)))));
  clean = refl;
  chars = ascii-IsChar (request_line bye (new none (codes "g") none)) refl;
  headers_sent = (cseq-IsSent, tt);
  body_fits = omega arith;
}

parse_message-encode_example :
    (parse_message target (encode_request target bye_now)
      ≡ some (request (record bye_now { headers = received false bye_now.body bye_now.headers })))
    × (parse_message target (encode_response target ringing)
        ≡ some
            (response (record ringing { headers = received false ringing.body ringing.headers })))
parse_message-encode_example =
    parse_message-encode target bye_now ringing bye_now-IsSendableRequest ringing-IsSendable
