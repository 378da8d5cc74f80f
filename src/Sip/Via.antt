-- ===== src/Sip/Via.antt =====
-- `Via`, and the headers that have a structure of their own.
use modem2sip.Common.{ℕ, Bool, true, false, List, [], ◌∷◌, ◌++◌, Option, none, some}
use modem2sip.Text.{Text, codes}
use modem2sip.Text.Ops.{trim, is_whitespace, split_first, parse_unsigned}
use modem2sip.Text.Words.{split_whitespace, split_once_where}
use modem2sip.Uri.{NameAddr}
use modem2sip.Uri.Host.{split_host_port}
use modem2sip.Uri.Parse.{
  cut, uri_param, items, find_param, without_param, value_of, parse_name_addr, port_text,
  uri_params_text,
}
use modem2sip.Sip.Method.{Method, parse_method}
use modem2sip.Sip.Headers.{Headers, get}

pub record Via : Type 0 where
  pub protocol : Text
  pub host : Text
  pub port : Option ℕ
  pub params : List (Text × Option Text)

abbrev pub push_via_param : Text → List (Text × Option Text) → List (Text × Option Text)
push_via_param [] ps = ps
push_via_param (c ∷ p) ps = uri_param (cut b'=' (c ∷ p)) ∷ ps

unfoldable pub parse_via_params : List Text → List (Text × Option Text)
parse_via_params [] = []
parse_via_params (p ∷ ps) = push_via_param (trim p) (parse_via_params ps)

-- The parameters' text, if there is one.
abbrev pub trim_before : Text × Option Text → Text × Option Text
trim_before (a, none) = (a, none)
trim_before (a, some b) = (trim a, some b)

abbrev pub via_of : Option (Text × Text) → Option Via
via_of none = none
via_of (some (proto, rest)) =
    let (hostport, params) = trim_before (cut b';' (trim rest)) in
    let (host, port) = split_host_port hostport in
    some (record {
      protocol = proto;
      host = host;
      port = port;
      params = parse_via_params (items b';' params);
    })

unfoldable pub parse_via : Text → Option Via
parse_via s = via_of (split_once_where is_whitespace (trim (split_first b',' s)))

unfoldable pub via_param : Via → Text → Option Text
via_param v name = value_of (find_param name v.params)

unfoldable pub branch : Via → Option Text
branch v = via_param v (codes "branch")

abbrev pub is_some {ℓ} : {A : Type ℓ} → Option A → Bool
is_some none = false
is_some (some a) = true

-- `.any(|(k, _)| k.eq_ignore_ascii_case(name))`.
unfoldable pub has_param : Via → Text → Bool
has_param v name = is_some (find_param name v.params)

unfoldable pub set_via_param : Via → Text → Option Text → Via
set_via_param v name value = record v { params = without_param name v.params ++ (name, value) ∷ [] }

-- `Display` for `Via`.
unfoldable pub via_text : Via → Text
via_text v = v.protocol ++ (b' ' ∷ (v.host ++ (port_text v.port ++ uri_params_text v.params)))

-- `.and_then(f)`.
abbrev pub and_then {ℓ κ} : {A : Type ℓ} {B : Type κ} → Option A → (A → Option B) → Option B
and_then none f = none
and_then (some a) f = f a

unfoldable pub from_header : Headers → Option NameAddr
from_header hs = and_then (get hs (codes "from")) parse_name_addr

unfoldable pub to_header : Headers → Option NameAddr
to_header hs = and_then (get hs (codes "to")) parse_name_addr

unfoldable pub contact_header : Headers → Option NameAddr
contact_header hs = and_then (get hs (codes "contact")) parse_name_addr

unfoldable pub call_id : Headers → Option Text
call_id hs = get hs (codes "call-id")

abbrev pub u32_max : ℕ
u32_max = 4294967295

abbrev pub cseq_words : List Text → Option (ℕ × Method)
cseq_words (num ∷ method ∷ rest) =
    and_then (parse_unsigned u32_max num) (λ n. and_then (parse_method method) (λ m. some (n, m)))
cseq_words _ = none

unfoldable pub cseq : Headers → Option (ℕ × Method)
cseq hs = and_then (get hs (codes "cseq")) (λ raw. cseq_words (split_whitespace raw))

unfoldable pub top_via : Headers → Option Via
top_via hs = and_then (get hs (codes "via")) parse_via

unfoldable pub content_type_header : Headers → Option Text
content_type_header hs = get hs (codes "content-type")
