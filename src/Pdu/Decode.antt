-- ===== src/Pdu/Decode.antt =====
-- The decoding half of src/mms/pdu.rs.
use modem2sip.Common.{
  ℕ, zero, suc, ◌-◌, min, Bool, true, false, ◌||◌, List, [], ◌∷◌, ◌++◌, Option, none, some, length,
  drop, if◌then◌else◌, ltb, leb, ◌==◌,
}
use mathlib.Core.Option
use modem2sip.Text.{Bytes, Text, codes}
use modem2sip.Text.Ops.{starts_with, trim_matches}
use modem2sip.Wsp.Env.{Env}
use modem2sip.Wsp.Tables.{unwrap_or, octet_stream}
use modem2sip.Wsp.Reader.{
  Reader, Read, ◌>>=◌, ◌>>◌, return, fail, bump, new, advance, inner_of, eof, peek, u8, take_bytes,
  uintvar, text_string, bounded_value_length, high_bit, low_bits,
}
use modem2sip.Wsp.Values.{
  ContentType, long_int, integer_value, encoded_string, content_type, skip_value,
}
use modem2sip.Pdu.Fields
use modem2sip.Pdu.Message.{MmsPart, MmsMessage, empty_message}

-- What one round of the header loop leads to: the next round, the end of the loop, the content
-- type (always the last header; the position is that of the body), or the error that `decode`
-- returns.
pub data Round : Type 0 where
  next : MmsMessage → Reader → Round
  stop : MmsMessage → Round
  body : MmsMessage → ℕ → Round
  malformed : Round

-- `msg.field = r.method()`.
unfoldable pub store {ℓ} : {A : Type ℓ} → (Option A → MmsMessage) → Option A × Reader → Round
store f (v, r) = next (f v) r

-- `if let Some(v) = r.encoded_string() { list.push(v) }`.
abbrev pub push : Option Text → List Text → List Text
push none l = l
push (some v) l = l ++ v ∷ []

abbrev pub skipped : MmsMessage → Option (Unit {0}) × Reader → Round
skipped msg (none, r) = stop msg
skipped msg (some _, r) = next msg r

abbrev pub class_name : ℕ → Text
class_name c =
    if c == 0x00
    then codes "personal"
    else if c == 0x01
    then codes "advertisement"
    else if c == 0x02
    then codes "informational"
    else if c == 0x03
    then codes "auto"
    else codes "unknown"

abbrev pub message_class_at : Option ℕ → Read Text
message_class_at none = text_string
message_class_at (some v) =
    if high_bit v then (do bump 1; return (class_name (low_bits v))) else text_string

-- The sender is given only behind the address-present token.
abbrev pub address_of : Env → Option ℕ × Reader → Option Text
address_of env (none, inner) = none
address_of env (some token, inner) = if token == 0x80 then (encoded_string env inner).0 else none

abbrev pub expiry_of : Option ℕ × Reader → Option ℕ
expiry_of (token, inner) = (integer_value inner).0

-- A field whose value is a slice of its own: `f` reads the slice, and the reader is left behind it.
unfoldable pub sized {ℓ} :
    {A : Type ℓ} → (Reader → Option A) → Option ℕ × Reader → Option A × Reader
sized f (len, r) = let n : ℕ = unwrap_or len 0 in (f (inner_of n r), advance n r)

abbrev pub content_type_round : MmsMessage → Option ContentType × Reader → Round
content_type_round msg (none, r) = malformed
content_type_round msg (some (ct, params), r) =
    body (record msg { content_type = some ct; content_type_params = params }) r.pos

module _ (env : Env) where
  -- The value of the field `b`; the reader stands behind the field's code.
  unfoldable pub decode_field : ℕ → MmsMessage → Reader → Round
  decode_field b msg r =
      if b == Fields.message_type
      then store (λ v. record msg { message_type = unwrap_or v 0 }) (u8 r)
      else if b == Fields.transaction_id
      then store (λ v. record msg { transaction_id = v }) (text_string r)
      else if b == Fields.mms_version
      then store (λ v. record msg { version = v }) (u8 r)
      else if b == Fields.from
      then store (λ v. record msg { from = v })
          (sized (λ inner. address_of env (u8 inner)) (bounded_value_length env r))
      else if b == Fields.to
      then store (λ v. record msg { to = push v msg.to }) (encoded_string env r)
      else if b == Fields.cc
      then store (λ v. record msg { cc = push v msg.cc }) (encoded_string env r)
      else if b == Fields.subject
      then store (λ v. record msg { subject = v }) (encoded_string env r)
      else if b == Fields.message_id
      then store (λ v. record msg { message_id = v }) (text_string r)
      else if b == Fields.content_location
      then store (λ v. record msg { content_location = v }) (text_string r)
      else if b == Fields.date
      then store (λ v. record msg { date = v }) (long_int r)
      else if b == Fields.message_size
      then store (λ v. record msg { message_size = v }) (integer_value r)
      else if b == Fields.message_class
      then store (λ v. record msg { message_class = v }) (message_class_at (peek r) r)
      else if b == Fields.expiry
      then store (λ v. record msg { expiry = v })
          (sized (λ inner. expiry_of (u8 inner)) (bounded_value_length env r))
      else if b == Fields.response_status
      then store (λ v. record msg { response_status = v }) (u8 r)
      else if b == Fields.retrieve_status
      then store (λ v. record msg { retrieve_status = v }) (u8 r)
      else if b == Fields.response_text || b == Fields.retrieve_text
      then store (λ v. record msg { response_text = v }) (encoded_string env r)
      else if b == Fields.content_type
      then content_type_round msg (content_type env r)
      else skipped msg (skip_value env r)

  abbrev pub decode_at : Option ℕ → MmsMessage → Reader → Round
  decode_at none msg r = stop msg
  decode_at (some b) msg r =
      if ltb b 0x80
      then skipped msg (skip_value env (text_string r).1)
      else decode_field b msg (advance 1 r)

  unfoldable pub decode_header : MmsMessage → Reader → Round
  decode_header msg r = decode_at (peek r) msg r

-- `Content-ID` and `Content-Location` of a part, and whatever else stands there.
abbrev pub strip_angles : Text → Text
strip_angles s = trim_matches (λ c. c == b'<' || c == b'>') s

pub data PartRound : Type 0 where
  next_header : MmsPart → Reader → PartRound
  end_headers : MmsPart → PartRound

abbrev pub part_store : (Option Text → MmsPart) → Option Text × Reader → PartRound
part_store f (v, r) = next_header (f v) r

abbrev pub part_skipped : MmsPart → Option (Unit {0}) × Reader → PartRound
part_skipped part (none, r) = end_headers part
part_skipped part (some _, r) = next_header part r

module _ (env : Env) where
  abbrev pub part_header_at : MmsPart → Option ℕ × Reader → PartRound
  part_header_at part (none, r) = end_headers part
  part_header_at part (some h, r) =
      if h == 0xC0
      then part_store (λ v. record part { content_id = Option.map strip_angles v }) (text_string r)
      else if h == 0x8E
      then part_store (λ v. record part { content_location = v }) (text_string r)
      else if ltb h 0x80
      then part_skipped part (skip_value env (text_string (record r { pos = r.pos - 1 })).1)
      else part_skipped part (skip_value env r)

  unfoldable pub part_header : MmsPart → Reader → PartRound
  part_header part r = part_header_at part (u8 r)

  abbrev pub after_part_header : (MmsPart → Reader → MmsPart) → PartRound → MmsPart
  after_part_header k (next_header part r) = k part r
  after_part_header k (end_headers part) = part

  -- A header takes a byte at least, so the length of the headers is enough rounds.
  unfoldable pub part_headers_loop : ℕ → MmsPart → Reader → MmsPart
  part_headers_loop zero part r = part
  part_headers_loop (suc fuel) part r = elim (eof r) [
    | true ↦ part
    | false ↦ after_part_header (part_headers_loop fuel) (part_header part r)
  ]

  abbrev pub part_of : Bytes → Bytes → Option ContentType × Reader → MmsPart
  part_of headers payload (ct, hr) =
      let (t, params) = unwrap_or ct (octet_stream, []) in
      part_headers_loop (length headers)
        (record {
          content_type = t;
          params = params;
          content_id = none;
          content_location = none;
          payload = payload;
        })
        hr

  -- `usize::try_from(v).ok()`.
  abbrev pub usize : ℕ → Read ℕ
  usize v = if leb v env.usize_max then return v else fail

  unfoldable pub decode_part : Read MmsPart
  decode_part = do
    headers_len ← uintvar
    headers_len' ← usize headers_len
    payload_len ← uintvar
    payload_len' ← usize payload_len
    headers ← take_bytes headers_len'
    payload ← take_bytes payload_len'
    return (part_of headers payload (content_type env (new headers)))

  abbrev pub push_part :
      (Reader → List MmsPart → List MmsPart) → List MmsPart → Option MmsPart × Reader → List MmsPart
  push_part k parts (none, r) = parts
  push_part k parts (some p, r) = k r (parts ++ p ∷ [])

  -- `for _ in 0..rounds`.
  unfoldable pub decode_parts : ℕ → Reader → List MmsPart → List MmsPart
  decode_parts zero r parts = parts
  decode_parts (suc rounds) r parts = push_part (decode_parts rounds) parts (decode_part r)

  abbrev pub counted_parts : Option ℕ × Reader → List MmsPart
  counted_parts (none, r) = []
  counted_parts (some count, r) = decode_parts (min count 256) r []

  unfoldable pub decode_multipart : Bytes → List MmsPart
  decode_multipart xs = counted_parts (uintvar (new xs))

unfoldable pub is_multipart : Text → Bool
is_multipart ct =
    starts_with ct (codes "multipart/") || starts_with ct (codes "application/vnd.wap.multipart")

-- `decode` returns a message or the error for a malformed content type. `stuck` is no value of
-- the program: the header loop ran out of fuel.
pub data Decoded : Type 0 where
  ok : MmsMessage → Decoded
  err : Decoded
  stuck : Decoded

module _ (env : Env) where
  abbrev pub single_part : MmsMessage → Text → Bytes → List MmsPart
  single_part msg ct [] = []
  single_part msg ct (b ∷ bs) =
      (record {
        content_type = ct;
        params = msg.content_type_params;
        content_id = none;
        content_location = none;
        payload = b ∷ bs;
      })
      ∷ []

  unfoldable pub body_parts : MmsMessage → Bytes → List MmsPart
  body_parts msg xs =
      let ct = unwrap_or msg.content_type [] in
      if is_multipart ct then decode_multipart env xs else single_part msg ct xs

  abbrev pub after_round : (MmsMessage → Reader → Decoded) → Bytes → Round → Decoded
  after_round k xs (next msg r) = k msg r
  after_round k xs (stop msg) = ok msg
  after_round k xs (body msg start) = ok (record msg { parts = body_parts msg (drop start xs) })
  after_round k xs malformed = err

  unfoldable pub decode_loop : ℕ → Bytes → MmsMessage → Reader → Decoded
  decode_loop zero xs msg r = stuck
  decode_loop (suc fuel) xs msg r = elim (eof r) [
    | true ↦ ok msg
    | false ↦ after_round (decode_loop fuel xs) xs (decode_header env msg r)
  ]

  -- A round takes a byte at least, so one round for each byte and one for the end are enough.
  unfoldable pub decode : Bytes → Decoded
  decode xs = decode_loop (suc (length xs)) xs empty_message (new xs)
