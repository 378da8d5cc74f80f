-- ===== src/Pdu/Message.antt =====
-- `MmsPart` and `MmsMessage`.
use modem2sip.Common.{
  ℕ, Bool, not, ◌&&◌, ◌||◌, List, [], ◌∷◌, ◌++◌, Option, none, some, if◌then◌else◌,
}
use mathlib.Core.Option
use modem2sip.Text.{Bytes, Text, codes, as_bytes}
use modem2sip.Text.Ops.{equal, starts_with, contains, split_first, trim}
use modem2sip.Wsp.Env.{Env}
use modem2sip.Wsp.Tables.{Charset, utf_8, unwrap_or}

pub record MmsPart : Type 0 where
  pub content_type : Text
  pub params : List (Text × Text)
  pub content_id : Option Text
  pub content_location : Option Text
  pub payload : Bytes

pub record MmsMessage : Type 0 where
  pub message_type : ℕ
  pub transaction_id : Option Text
  pub version : Option ℕ
  pub from : Option Text
  pub to : List Text
  pub cc : List Text
  pub subject : Option Text
  pub date : Option ℕ
  pub message_id : Option Text
  pub message_class : Option Text
  pub content_location : Option Text
  pub message_size : Option ℕ
  pub expiry : Option ℕ
  pub response_status : Option ℕ
  pub retrieve_status : Option ℕ
  pub response_text : Option Text
  pub content_type : Option Text
  pub content_type_params : List (Text × Text)
  pub parts : List MmsPart

-- `MmsMessage::default()`.
abbrev pub empty_message : MmsMessage
empty_message = record {
  message_type = 0;
  transaction_id = none;
  version = none;
  from = none;
  to = [];
  cc = [];
  subject = none;
  date = none;
  message_id = none;
  message_class = none;
  content_location = none;
  message_size = none;
  expiry = none;
  response_status = none;
  retrieve_status = none;
  response_text = none;
  content_type = none;
  content_type_params = [];
  parts = [];
}

-- `MmsPart::new`.
abbrev pub new_part : Text → Bytes → MmsPart
new_part content_type payload = record {
  content_type = content_type;
  params = [];
  content_id = none;
  content_location = none;
  payload = payload;
}

unfoldable pub find_param : (Text → Bool) → List (Text × Text) → Option Text
find_param test [] = none
find_param test ((k, v) ∷ rest) = if test k then some v else find_param test rest

abbrev pub or_else_option : Option Text → Option Text → Option Text
or_else_option none b = b
or_else_option (some a) b = some a

unfoldable pub name : MmsPart → Option Text
name part =
    or_else_option
      (find_param (λ k. equal k (codes "name") || equal k (codes "filename")) part.params)
      part.content_location

unfoldable pub is_text : MmsPart → Bool
is_text part = starts_with part.content_type (codes "text/")

abbrev pub label_charset : Env → Option Text → Charset
label_charset env none = utf_8
label_charset env (some v) = unwrap_or (env.for_label (as_bytes v)) utf_8

unfoldable pub text : Env → MmsPart → Option Text
text env part =
    if not (is_text part)
    then none
    else some (
        env.decode (label_charset env (find_param (λ k. equal k (codes "charset")) part.params))
          part.payload)

-- The parts that carry text, SMIL left out.
unfoldable pub body_texts : Env → List MmsPart → List Text
body_texts env [] = []
body_texts env (p ∷ ps) =
    let rest = body_texts env ps in
    if is_text p && not (contains p.content_type (codes "smil"))
    then add (text env p) rest
    else rest
  where
    add : Option Text → List Text → List Text
    add none ts = ts
    add (some t) ts = t ∷ ts

-- `join("\n")`.
unfoldable pub join_lines : List Text → Text
join_lines [] = []
join_lines (t ∷ []) = t
join_lines (t ∷ u ∷ ts) = t ++ (b'\n' ∷ join_lines (u ∷ ts))

abbrev some_joined : List Text → Option Text
some_joined [] = none
some_joined (t ∷ ts) = some (join_lines (t ∷ ts))

unfoldable pub body_text : Env → MmsMessage → Option Text
body_text env msg = some_joined (body_texts env msg.parts)

unfoldable pub strip_address_type : Text → Text
strip_address_type addr = trim (split_first b'/' addr)

unfoldable pub sender : MmsMessage → Option Text
sender msg = Option.map strip_address_type msg.from
