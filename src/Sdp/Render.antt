-- ===== src/Sdp/Render.antt =====
-- `Sdp::render`.
use modem2sip.Common.{ℕ, List, [], ◌∷◌, ◌++◌, Option, none, some, if◌then◌else◌}
use modem2sip.Text.{Text, codes}
use modem2sip.Text.Ops.{decimal}
use modem2sip.Sdp.{Codec, rtpmap, from_payload_type, as_str, Addresses, Sdp}

abbrev pub crlf : Text
crlf = 13 ∷ 10 ∷ []

-- The payload types behind their spaces; `join` puts none in front of the first.
unfoldable pub joined : List ℕ → Text
joined [] = []
joined (p ∷ []) = decimal p
joined (p ∷ q ∷ ps) = decimal p ++ b' ' ∷ joined (q ∷ ps)

abbrev pub chained : List ℕ → Option ℕ → List ℕ
chained pts none = pts
chained pts (some te) = pts ++ te ∷ []

abbrev pub rtpmap_line : ℕ → Option Codec → Text
rtpmap_line pt none = []
rtpmap_line pt (some c) = codes "a=rtpmap:" ++ decimal pt ++ b' ' ∷ rtpmap c ++ crlf

unfoldable pub rtpmap_lines : List ℕ → Text
rtpmap_lines [] = []
rtpmap_lines (pt ∷ pts) = rtpmap_line pt (from_payload_type pt) ++ rtpmap_lines pts

abbrev pub event_lines : Option ℕ → Text
event_lines none = []
event_lines (some te) =
    codes "a=rtpmap:"
    ++ decimal te
    ++ codes " telephone-event/8000"
    ++ crlf
    ++ codes "a=fmtp:"
    ++ decimal te
    ++ codes " 0-16"
    ++ crlf

abbrev pub ptime_line : Option ℕ → Text
ptime_line none = []
ptime_line (some pt) = codes "a=ptime:" ++ decimal pt ++ crlf

module _ (net : Addresses) where
  unfoldable pub render : Sdp net → Text
  render s =
      let ipver = if net.is_ipv6 s.address then codes "IP6" else codes "IP4" in
      codes "v=0"
      ++ crlf
      ++ codes "o="
      ++ s.origin_user
      ++ b' ' ∷ decimal s.session_id
      ++ b' ' ∷ decimal s.session_version
      ++ codes " IN "
      ++ ipver
      ++ b' ' ∷ net.to_text s.address
      ++ crlf
      ++ codes "s=modem2sip"
      ++ crlf
      ++ codes "c=IN "
      ++ ipver
      ++ b' ' ∷ net.to_text s.address
      ++ crlf
      ++ codes "t=0 0"
      ++ crlf
      ++ codes "m=audio "
      ++ decimal s.port
      ++ codes " RTP/AVP "
      ++ joined (chained s.payload_types s.telephone_event)
      ++ crlf
      ++ rtpmap_lines s.payload_types
      ++ event_lines s.telephone_event
      ++ ptime_line s.ptime
      ++ codes "a="
      ++ as_str s.sendrecv
      ++ crlf
