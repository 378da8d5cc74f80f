-- ===== src/Tests/Pdu.antt =====
-- The theorems on the PDU code at concrete inputs.
use modem2sip.Common.{◌≡◌, refl, arith, true, false, [], ◌∷◌, none, some}
use modem2sip.Text.{Bytes, codes, as_bytes, encode_utf8}
use modem2sip.Text.Ops.{
  equal, starts_with, trim, trim_matches, trim_start, trim_end, trim_end_with, is_whitespace,
  contains, contains_char, eq_ignore_ascii_case, to_ascii_lowercase,
}
use modem2sip.Wsp.Tables.{content_type_code, find_code, content_types}
use modem2sip.Wsp.Writer.{
  write_value_length, write_text_string, write_integer_value, write_encoded_string, is_ascii,
}
use modem2sip.Pdu.Message.{MmsPart, name, is_text, find_param}
use modem2sip.Pdu.Encode.{
  SendReq, encode_send_req, format_address, part_headers, part_content_type, encode_multipart,
  message_content_type,
}
use modem2sip.Wsp.Values.{content_type}
use modem2sip.Pdu.Decode.{ok, decode, decode_multipart}
use modem2sip.Pdu.PartHeaders.{IsSendable, received_part}
use modem2sip.Pdu.Parts.{decode_multipart-encode_multipart}
use modem2sip.Pdu.RoundTrip.{IsDeliverable, received, decode-encode_send_req}
use modem2sip.Tests.Wsp.{env64, laws64}

abbrev hello : MmsPart
hello = record {
  content_type = codes "text/plain";
  params = [];
  content_id = some (codes "text0");
  content_location = none;
  payload = codes "hello";
}

abbrev request : SendReq
request = record {
  transaction_id = codes "T1";
  from = some (codes "+8210");
  to = codes "+8211" ∷ [];
  subject = some (codes "subject");
  parts = hello ∷ hello ∷ [];
  delivery_report = false;
  read_report = true;
}

hello-IsSendable : IsSendable env64 hello
unfolding part_headers part_content_type content_type_code find_code content_types name is_text
    starts_with equal find_param eq_ignore_ascii_case to_ascii_lowercase write_value_length
    write_text_string write_integer_value as_bytes encode_utf8
hello-IsSendable = record {
  type_plain = record { chars = omega arith; no_nul = omega arith; unquoted = omega arith };
  name_encodable = tt;
  id_plain = record { chars = omega arith; no_nul = omega arith; unquoted = omega arith };
  location_plain = tt;
  headers_short = omega arith;
  headers_fit = omega arith;
  payload_short = omega arith;
  payload_fits = omega arith;
}

-- A content type with a charset, and the headers of a part with a content id.
abbrev typed : Bytes
typed = 0x83 ∷ 0x81 ∷ 0xEA ∷ []

abbrev part_head : Bytes
part_head = 0x83 ∷ 0xC0 ∷ b'a' ∷ 0 ∷ []

address_plan :
    (format_address (codes "+8210") ≡ codes "+8210/TYPE=PLMN")
    × (format_address (codes " a@b ") ≡ codes "a@b")
unfolding format_address trim trim_matches trim_start trim_end trim_end_with is_whitespace
    contains_char contains starts_with
address_plan = (refl, refl)

request-IsDeliverable : IsDeliverable env64 request
unfolding format_address trim trim_matches trim_start trim_end trim_end_with is_whitespace
    contains_char contains starts_with as_bytes encode_utf8 write_encoded_string is_ascii
    write_text_string message_content_type
request-IsDeliverable = record {
  wide = omega arith;
  id_plain = omega arith;
  from_address = omega arith;
  from_fits = omega arith;
  to_addresses = omega arith;
  subject_encodable = omega arith;
  parts_sendable = (hello-IsSendable, (hello-IsSendable, tt));
  few_parts = omega arith;
  start_encodable = omega arith;
  type_fits = omega arith;
}

decode-encode_send_req_example : decode env64 (encode_send_req request) ≡ ok (received request)
decode-encode_send_req_example = decode-encode_send_req env64 laws64 request request-IsDeliverable

decode_multipart-encode_multipart_example :
    decode_multipart env64 (encode_multipart (hello ∷ hello ∷ []))
    ≡ received_part hello ∷ received_part hello ∷ []
decode_multipart-encode_multipart_example =
    decode_multipart-encode_multipart env64 laws64 (hello ∷ hello ∷ [])
      (hello-IsSendable, (hello-IsSendable, tt)) (omega arith)
