-- ===== src/Pdu/Fields.antt =====
-- The field codes and message types of src/mms/pdu.rs.
use modem2sip.Common.{ℕ, if◌then◌else◌, ◌==◌}
use modem2sip.Text.{Text, codes}

abbrev pub bcc : ℕ
bcc = 0x81

abbrev pub cc : ℕ
cc = 0x82

abbrev pub content_location : ℕ
content_location = 0x83

abbrev pub content_type : ℕ
content_type = 0x84

abbrev pub date : ℕ
date = 0x85

abbrev pub delivery_report : ℕ
delivery_report = 0x86

abbrev pub delivery_time : ℕ
delivery_time = 0x87

abbrev pub expiry : ℕ
expiry = 0x88

abbrev pub from : ℕ
from = 0x89

abbrev pub message_class : ℕ
message_class = 0x8A

abbrev pub message_id : ℕ
message_id = 0x8B

abbrev pub message_type : ℕ
message_type = 0x8C

abbrev pub mms_version : ℕ
mms_version = 0x8D

abbrev pub message_size : ℕ
message_size = 0x8E

abbrev pub priority : ℕ
priority = 0x8F

abbrev pub read_report : ℕ
read_report = 0x90

abbrev pub report_allowed : ℕ
report_allowed = 0x91

abbrev pub response_status : ℕ
response_status = 0x92

abbrev pub response_text : ℕ
response_text = 0x93

abbrev pub sender_visibility : ℕ
sender_visibility = 0x94

abbrev pub status : ℕ
status = 0x95

abbrev pub subject : ℕ
subject = 0x96

abbrev pub to : ℕ
to = 0x97

abbrev pub transaction_id : ℕ
transaction_id = 0x98

abbrev pub retrieve_status : ℕ
retrieve_status = 0x99

abbrev pub retrieve_text : ℕ
retrieve_text = 0x9A

abbrev pub send_req : ℕ
send_req = 0x80

abbrev pub send_conf : ℕ
send_conf = 0x81

abbrev pub notification_ind : ℕ
notification_ind = 0x82

abbrev pub notifyresp_ind : ℕ
notifyresp_ind = 0x83

abbrev pub retrieve_conf : ℕ
retrieve_conf = 0x84

abbrev pub acknowledge_ind : ℕ
acknowledge_ind = 0x85

abbrev pub delivery_ind : ℕ
delivery_ind = 0x86

abbrev pub read_rec_ind : ℕ
read_rec_ind = 0x87

abbrev pub read_orig_ind : ℕ
read_orig_ind = 0x88

-- `msg_type::name`.
unfoldable pub message_type_name : ℕ → Text
message_type_name t =
    if t == 0x80
    then codes "m-send-req"
    else if t == 0x81
    then codes "m-send-conf"
    else if t == 0x82
    then codes "m-notification-ind"
    else if t == 0x83
    then codes "m-notifyresp-ind"
    else if t == 0x84
    then codes "m-retrieve-conf"
    else if t == 0x85
    then codes "m-acknowledge-ind"
    else if t == 0x86
    then codes "m-delivery-ind"
    else if t == 0x87
    then codes "m-read-rec-ind"
    else if t == 0x88
    then codes "m-read-orig-ind"
    else codes "unknown"

-- `VERSION_1_2`.
abbrev pub version_1_2 : ℕ
version_1_2 = 0x92
