-- ===== src/Sdp/Parse.antt =====
-- `Sdp::parse`: the loop over the lines, as a state and a step for each.
use modem2sip.Common.{
  ℕ, Bool, true, false, ◌&&◌, ◌||◌, not, List, [], ◌∷◌, ◌++◌, Option, none, some, if◌then◌else◌,
  ◌==◌,
}
use modem2sip.Text.{Text, codes}
use modem2sip.Text.Ops.{
  equal, split, split_first, split_once, strip_prefix, starts_with, trim, trim_end,
  to_ascii_lowercase, eq_ignore_ascii_case, parse_unsigned,
}
use modem2sip.Text.Words.{split_whitespace}
use modem2sip.Wsp.Tables.{unwrap_or}
use modem2sip.Sdp.{Direction, send_recv, send_only, recv_only, inactive, Addresses, Sdp}

unfoldable pub parse_u8s : List Text → List ℕ
parse_u8s [] = []
parse_u8s (w ∷ ws) =
    let rest = parse_u8s ws in elim (parse_unsigned 255 w) [ some v ↦ v ∷ rest | none ↦ rest ]

module _ (net : Addresses) where
  pub record State : Type 0 where
    pub address : Option net.IpAddr
    pub media_address : Option net.IpAddr
    pub port : ℕ
    pub payload_types : List ℕ
    pub telephone_event : Option ℕ
    pub ptime : Option ℕ
    pub direction : Direction
    pub in_audio : Bool
    pub seen_media : Bool

  abbrev pub start : State
  start = record {
    address = none;
    media_address = none;
    port = 0;
    payload_types = [];
    telephone_event = none;
    ptime = none;
    direction = send_recv;
    in_audio = false;
    seen_media = false;
  }

  -- Without a suffix behind `/`.
  unfoldable pub parse_ip : Text → Option net.IpAddr
  parse_ip s = net.from_str (split_first b'/' s)

  -- `.nth(2).and_then(parse_ip)`.
  abbrev pub third_ip : List Text → Option net.IpAddr
  third_ip (a ∷ b ∷ c ∷ rest) = parse_ip c
  third_ip _ = none

  unfoldable pub connection_line : State → Text → State
  connection_line st value =
      let ip = third_ip (split_whitespace value) in
      if st.seen_media
      then if st.in_audio then record st { media_address = ip } else st
      else record st { address = ip }

  abbrev pub port_at : List Text → ℕ
  port_at [] = 0
  port_at (p ∷ rest) = unwrap_or (parse_unsigned 65535 p) 0

  -- Behind the port and the protocol.
  abbrev pub formats : List Text → List Text
  formats (port ∷ proto ∷ pts) = pts
  formats _ = []

  abbrev pub media_words : State → List Text → State
  media_words st [] = record st { seen_media = true; in_audio = false }
  media_words st (kind ∷ rest) =
      if equal kind (codes "audio") && (elim st.payload_types [ [] ↦ true | p ∷ ps ↦ false ])
      then record st {
        seen_media = true;
        in_audio = true;
        port = port_at rest;
        payload_types = st.payload_types ++ parse_u8s (formats rest);
      }
      else record st { seen_media = true; in_audio = false }

  unfoldable pub media_line : State → Text → State
  media_line st value = media_words st (split_whitespace value)

  abbrev pub rtpmap_words : State → List Text → State
  rtpmap_words st (pt ∷ enc ∷ rest) =
      if starts_with (to_ascii_lowercase enc) (codes "telephone-event")
      then record st { telephone_event = parse_unsigned 255 pt }
      else st
  rtpmap_words st _ = st

  abbrev pub direction_named : State → Text → State
  direction_named st attr =
      if eq_ignore_ascii_case attr (codes "sendonly")
      then record st { direction = send_only }
      else if eq_ignore_ascii_case attr (codes "recvonly")
      then record st { direction = recv_only }
      else if eq_ignore_ascii_case attr (codes "inactive")
      then record st { direction = inactive }
      else if eq_ignore_ascii_case attr (codes "sendrecv")
      then record st { direction = send_recv }
      else st

  abbrev pub other_attribute : State → Text → Option Text → State
  other_attribute st attr (some rest) = record st { ptime = parse_unsigned 4294967295 (trim rest) }
  other_attribute st attr none = direction_named st attr

  abbrev pub attribute : State → Text → Option Text → State
  attribute st attr (some rest) = rtpmap_words st (split_whitespace rest)
  attribute st attr none = other_attribute st attr (strip_prefix attr (codes "ptime:"))

  unfoldable pub attribute_line : State → Text → State
  attribute_line st value =
      if st.in_audio || not st.seen_media
      then attribute st (trim value) (strip_prefix (trim value) (codes "rtpmap:"))
      else st

  abbrev pub keyed_line : State → Option (Text × Text) → State
  keyed_line st none = st
  keyed_line st (some (key, value)) =
      if equal key (codes "c")
      then connection_line st value
      else if equal key (codes "m")
      then media_line st value
      else if equal key (codes "a")
      then attribute_line st value
      else st

  unfoldable pub parse_line : State → Text → State
  parse_line st line = keyed_line st (split_once b'=' (trim_end (λ c. c == 13) line))

  unfoldable pub parse_lines : State → List Text → State
  parse_lines st [] = st
  parse_lines st (l ∷ ls) = parse_lines (parse_line st l) ls

  abbrev pub or_address : Option net.IpAddr → Option net.IpAddr → net.IpAddr
  or_address (some a) b = a
  or_address none b = unwrap_or b net.unspecified

  abbrev pub finish : State → List ℕ → Option (Sdp net)
  finish st [] = none
  finish st (pt ∷ pts) = some (record {
    origin_user = codes "-";
    session_id = 0;
    session_version = 0;
    address = or_address st.media_address st.address;
    port = st.port;
    payload_types = pt ∷ pts;
    telephone_event = st.telephone_event;
    ptime = st.ptime;
    sendrecv = st.direction;
  })

  -- `lines` gives no empty line at the end; a line without `=` changes nothing, so the split may.
  unfoldable pub parse : Text → Option (Sdp net)
  parse text = let st = parse_lines start (split 10 text) in finish st st.payload_types
