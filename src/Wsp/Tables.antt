-- ===== src/Wsp/Tables.antt =====
-- The assigned numbers of src/mms/wsp.rs: content types, parameter names and character sets.
use modem2sip.Common.{ℕ, List, [], ◌∷◌, Option, none, some, if◌then◌else◌, ◌==◌, ◌||◌}
use modem2sip.Text.{Text, codes}
use modem2sip.Text.Ops.{eq_ignore_ascii_case}

-- `CONTENT_TYPES`.
unfoldable pub content_types : List (ℕ × Text)
content_types =
    (0x00, codes "*/*")
    ∷ (0x01, codes "text/*")
    ∷ (0x02, codes "text/html")
    ∷ (0x03, codes "text/plain")
    ∷ (0x04, codes "text/x-hdml")
    ∷ (0x05, codes "text/x-ttml")
    ∷ (0x06, codes "text/x-vCalendar")
    ∷ (0x07, codes "text/x-vCard")
    ∷ (0x08, codes "text/vnd.wap.wml")
    ∷ (0x09, codes "text/vnd.wap.wmlscript")
    ∷ (0x0A, codes "text/vnd.wap.wta-event")
    ∷ (0x0B, codes "multipart/*")
    ∷ (0x0C, codes "multipart/mixed")
    ∷ (0x0D, codes "multipart/form-data")
    ∷ (0x0E, codes "multipart/byteranges")
    ∷ (0x0F, codes "multipart/alternative")
    ∷ (0x10, codes "application/*")
    ∷ (0x11, codes "application/java-vm")
    ∷ (0x12, codes "application/x-www-form-urlencoded")
    ∷ (0x13, codes "application/x-hdmlc")
    ∷ (0x14, codes "application/vnd.wap.wmlc")
    ∷ (0x15, codes "application/vnd.wap.wmlscriptc")
    ∷ (0x16, codes "application/vnd.wap.wta-eventc")
    ∷ (0x17, codes "application/vnd.wap.uaprof")
    ∷ (0x18, codes "application/vnd.wap.wtls-ca-certificate")
    ∷ (0x19, codes "application/vnd.wap.wtls-user-certificate")
    ∷ (0x1A, codes "application/x-x509-ca-cert")
    ∷ (0x1B, codes "application/x-x509-user-cert")
    ∷ (0x1C, codes "image/*")
    ∷ (0x1D, codes "image/gif")
    ∷ (0x1E, codes "image/jpeg")
    ∷ (0x1F, codes "image/tiff")
    ∷ (0x20, codes "image/png")
    ∷ (0x21, codes "image/vnd.wap.wbmp")
    ∷ (0x22, codes "application/vnd.wap.multipart.*")
    ∷ (0x23, codes "application/vnd.wap.multipart.mixed")
    ∷ (0x24, codes "application/vnd.wap.multipart.form-data")
    ∷ (0x25, codes "application/vnd.wap.multipart.byteranges")
    ∷ (0x26, codes "application/vnd.wap.multipart.alternative")
    ∷ (0x27, codes "application/xml")
    ∷ (0x28, codes "text/xml")
    ∷ (0x29, codes "application/vnd.wap.wbxml")
    ∷ (0x2A, codes "application/x-x968-cross-cert")
    ∷ (0x2B, codes "application/x-x968-ca-cert")
    ∷ (0x2C, codes "application/x-x968-user-cert")
    ∷ (0x2D, codes "text/vnd.wap.si")
    ∷ (0x2E, codes "application/vnd.wap.sic")
    ∷ (0x2F, codes "text/vnd.wap.sl")
    ∷ (0x30, codes "application/vnd.wap.slc")
    ∷ (0x31, codes "text/vnd.wap.co")
    ∷ (0x32, codes "application/vnd.wap.coc")
    ∷ (0x33, codes "application/vnd.wap.multipart.related")
    ∷ (0x34, codes "application/vnd.wap.sia")
    ∷ (0x35, codes "text/vnd.wap.connectivity-xml")
    ∷ (0x36, codes "application/vnd.wap.connectivity-wbxml")
    ∷ (0x37, codes "application/pkcs7-mime")
    ∷ (0x3E, codes "application/vnd.wap.mms-message")
    ∷ []

-- `PARAM_NAMES`.
unfoldable pub param_names : List (ℕ × Text)
param_names =
    (0x00, codes "q")
    ∷ (0x01, codes "charset")
    ∷ (0x02, codes "level")
    ∷ (0x03, codes "type")
    ∷ (0x05, codes "name")
    ∷ (0x06, codes "filename")
    ∷ (0x07, codes "differences")
    ∷ (0x08, codes "padding")
    ∷ (0x09, codes "type")
    ∷ (0x0A, codes "start")
    ∷ (0x0B, codes "start-info")
    ∷ (0x0C, codes "comment")
    ∷ (0x0D, codes "domain")
    ∷ (0x0E, codes "max-age")
    ∷ (0x0F, codes "path")
    ∷ (0x10, codes "secure")
    ∷ (0x11, codes "sec")
    ∷ (0x12, codes "mac")
    ∷ (0x13, codes "creation-date")
    ∷ (0x14, codes "modification-date")
    ∷ (0x15, codes "read-date")
    ∷ (0x16, codes "size")
    ∷ (0x17, codes "name")
    ∷ (0x18, codes "filename")
    ∷ (0x19, codes "start")
    ∷ (0x1A, codes "start-info")
    ∷ (0x1B, codes "comment")
    ∷ (0x1C, codes "domain")
    ∷ (0x1D, codes "path")
    ∷ []

-- `iter().find(|(c, _)| *c == code).map(|(_, n)| n)`.
unfoldable pub find_name : ℕ → List (ℕ × Text) → Option Text
find_name code [] = none
find_name code ((c, n) ∷ rows) = if c == code then some n else find_name code rows

unfoldable pub find_code : Text → List (ℕ × Text) → Option ℕ
find_code name [] = none
find_code name ((c, n) ∷ rows) = if eq_ignore_ascii_case n name then some c else find_code name rows

abbrev pub octet_stream : Text
octet_stream = codes "application/octet-stream"

abbrev pub unwrap_or {ℓ} : {A : Type ℓ} → Option A → A → A
unwrap_or none d = d
unwrap_or (some a) d = a

unfoldable pub content_type_name : ℕ → Text
content_type_name code = unwrap_or (find_name code content_types) octet_stream

unfoldable pub content_type_code : Text → Option ℕ
content_type_code name = find_code name content_types

unfoldable pub param_name : ℕ → Option Text
param_name code = find_name code param_names

-- The encodings of `encoding_rs` that `charset_for` names.
pub data Charset : Type 0 where
  windows_1252 utf_8 utf_16be utf_16le euc_kr shift_jis euc_jp big5 gbk gb18030 : Charset

unfoldable pub charset_for : ℕ → Charset
charset_for mib =
    if mib == 3
    then windows_1252
    else if mib == 4
    then windows_1252
    else if mib == 106
    then utf_8
    else if mib == 1000 || mib == 1015
    then utf_16be
    else if mib == 1013
    then utf_16be
    else if mib == 1014
    then utf_16le
    else if mib == 36 || mib == 38
    then euc_kr
    else if mib == 17 || mib == 2024
    then shift_jis
    else if mib == 18
    then euc_jp
    else if mib == 2026
    then big5
    else if mib == 57 || mib == 113 || mib == 2025
    then gbk
    else if mib == 2085
    then gb18030
    else utf_8
