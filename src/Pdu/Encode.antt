-- ===== src/Pdu/Encode.antt =====
-- The encoding half of src/mms/pdu.rs. As in Wsp/Writer, a writer is given as the bytes that it
-- appends to `out`.
use modem2sip.Common.{
  ℕ, Bool, true, false, ◌||◌, List, [], ◌∷◌, ◌++◌, Option, none, some, length, if◌then◌else◌, ltb,
}
use modem2sip.Text.{Bytes, Text, codes}
use modem2sip.Text.Ops.{contains, contains_char, trim}
use modem2sip.Wsp.Tables.{content_type_code}
use modem2sip.Wsp.Reader.{with_high_bit}
use modem2sip.Wsp.Writer.{
  write_uintvar, write_text_string, write_value_length, write_integer_value, charset_utf8,
  write_encoded_string,
}
use modem2sip.Pdu.Fields.{
  message_type, send_req, transaction_id, mms_version, version_1_2, from, to, subject,
  message_class, delivery_report, read_report, content_type, notifyresp_ind, acknowledge_ind,
  status, report_allowed,
}
use modem2sip.Pdu.Message.{MmsPart, name, is_text}

-- Format a recipient the way MMSCs expect.
unfoldable pub format_address : Text → Text
format_address addr =
    let addr' = trim addr in
    if contains_char addr' b'@' || contains addr' (codes "/TYPE=")
    then addr'
    else addr' ++ codes "/TYPE=PLMN"

pub record SendReq : Type 0 where
  pub transaction_id : Text
  pub from : Option Text
  pub to : List Text
  pub subject : Option Text
  pub parts : List MmsPart
  pub delivery_report : Bool
  pub read_report : Bool

abbrev pub yes_no : Bool → ℕ
yes_no true = 0x80
yes_no false = 0x81

-- `format!("<{cid}>")`.
abbrev pub in_angles : Text → Text
in_angles cid = b'<' ∷ (cid ++ b'>' ∷ [])

unfoldable pub encode_from : Option Text → Bytes
encode_from none = write_value_length 1 ++ 0x81 ∷ []
encode_from (some addr) =
    let inner : Bytes = 0x80 ∷ write_encoded_string (format_address addr) in
    write_value_length (length inner) ++ inner

unfoldable pub encode_to : List Text → Bytes
encode_to [] = []
encode_to (t ∷ ts) = to ∷ (write_encoded_string (format_address t) ++ encode_to ts)

-- An empty subject is left out.
unfoldable pub encode_subject : Option Text → Bytes
encode_subject none = []
encode_subject (some []) = []
encode_subject (some (c ∷ s)) = subject ∷ write_encoded_string (c ∷ s)

abbrev pub first_content_id : List MmsPart → Option Text
first_content_id [] = none
first_content_id (p ∷ ps) = p.content_id

abbrev pub start_param : Option Text → Bytes
start_param none = []
start_param (some cid) = with_high_bit 0x19 ∷ write_text_string (in_angles cid)

unfoldable pub message_content_type : List MmsPart → Bytes
message_content_type parts =
    if ltb 1 (length parts)
    then with_high_bit 0x33
      ∷ (with_high_bit 0x09
          ∷ (write_text_string (codes "application/smil") ++ start_param (first_content_id parts)))
    else with_high_bit 0x23 ∷ []

abbrev pub content_type_token : Option ℕ → Text → Bytes
content_type_token none t = write_text_string t
content_type_token (some code) t = with_high_bit code ∷ []

abbrev pub name_param : Option Text → Bytes
name_param none = []
name_param (some n) = with_high_bit 0x17 ∷ write_text_string n

-- The content type of a part with its parameters.
unfoldable pub part_content_type : MmsPart → Bytes
part_content_type part =
    content_type_token (content_type_code part.content_type) part.content_type
    ++ ((if is_text part then with_high_bit 0x01 ∷ write_integer_value charset_utf8 else [])
        ++ name_param (name part))

abbrev pub id_header : Option Text → Bytes
id_header none = []
id_header (some cid) = 0xC0 ∷ write_text_string (in_angles cid)

abbrev pub location_header : Option Text → Bytes
location_header none = []
location_header (some loc) = 0x8E ∷ write_text_string loc

unfoldable pub part_headers : MmsPart → Bytes
part_headers part =
    let ct = part_content_type part in
    write_value_length (length ct)
    ++ (ct ++ (id_header part.content_id ++ location_header part.content_location))

unfoldable pub encode_part : MmsPart → Bytes
encode_part part =
    let headers = part_headers part in
    write_uintvar (length headers)
    ++ (write_uintvar (length part.payload) ++ (headers ++ part.payload))

unfoldable pub encode_parts : List MmsPart → Bytes
encode_parts [] = []
encode_parts (p ∷ ps) = encode_part p ++ encode_parts ps

unfoldable pub encode_multipart : List MmsPart → Bytes
encode_multipart parts = write_uintvar (length parts) ++ encode_parts parts

-- An M-Send.req PDU, ready to be POSTed to the MMSC.
unfoldable pub encode_send_req : SendReq → Bytes
encode_send_req req =
    let ct = message_content_type req.parts in
    message_type
    ∷ (send_req
        ∷ (transaction_id
            ∷ (write_text_string req.transaction_id
                ++ (mms_version
                    ∷ (version_1_2
                        ∷ (from
                            ∷ (encode_from req.from
                                ++ (encode_to req.to
                                    ++ (encode_subject req.subject
                                        ++ (message_class
                                            ∷ (0x80
                                                ∷ (delivery_report
                                                    ∷ (yes_no req.delivery_report
                                                        ∷ (read_report
                                                            ∷ (yes_no req.read_report
                                                            ∷ (content_type
                                                            ∷ (write_value_length (length ct)
                                                            ++ (ct
                                                            ++ encode_multipart
                                                            req.parts))))))))))))))))))

-- M-NotifyResp.ind: tell the MMSC what happened to a notification.
unfoldable pub encode_notify_resp_ind : Text → ℕ → Bool → Bytes
encode_notify_resp_ind tid st allowed =
    message_type
    ∷ (notifyresp_ind
        ∷ (transaction_id
            ∷ (write_text_string tid
                ++ (mms_version
                    ∷ (version_1_2 ∷ (status ∷ (st ∷ (report_allowed ∷ (yes_no allowed ∷ [])))))))))

-- M-Acknowledge.ind, sent after a successful retrieval.
unfoldable pub encode_acknowledge_ind : Text → Bool → Bytes
encode_acknowledge_ind tid allowed =
    message_type
    ∷ (acknowledge_ind
        ∷ (transaction_id
            ∷ (write_text_string tid
                ++ (mms_version ∷ (version_1_2 ∷ (report_allowed ∷ (yes_no allowed ∷ [])))))))
