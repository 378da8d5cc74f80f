-- ===== src/Tests/Sdp.antt =====
-- An answer to a held call.
use modem2sip.Common.{ℕ, ◌≡◌, ◌⊎◌, refl, true, false, [], ◌∷◌, none, some}
use modem2sip.Text.{codes}
use modem2sip.Sdp.{pcma, send_only, Addresses, Sdp, negotiate, answer}
use modem2sip.Sdp.Answer.{may_send, may_receive, negotiate-answer}
use modem2sip.Sdp.Parse.{State, start, parse_lines}
use modem2sip.Sdp.FirstStream.{parse_lines-Stream}

-- Addresses as numbers.
abbrev net : Addresses
net = record {
  IpAddr = ℕ;
  from_str = λ s. none;
  to_text = λ a. codes "10.0.0.1";
  is_ipv6 = λ a. false;
  is_unspecified = λ a. false;
  unspecified = 0;
}

abbrev hold : Sdp net
hold = record {
  origin_user = codes "-";
  session_id = 0;
  session_version = 0;
  address = 1;
  port = 4000;
  payload_types = 3 ∷ 8 ∷ [];
  telephone_event = some 101;
  ptime = some 20;
  sendrecv = send_only;
}

negotiate-answer_example :
    (negotiate (answer 7 hold 2 5000 pcma (some 96) 20) ≡ some pcma)
    × (may_send (answer 7 hold 2 5000 pcma (some 96) 20).sendrecv ≡ may_receive send_only)
    × (may_receive (answer 7 hold 2 5000 pcma (some 96) 20).sendrecv ≡ may_send send_only)
    × (((answer 7 hold 2 5000 pcma (some 96) 20).telephone_event ≡ none)
        ⊎ ((answer 7 hold 2 5000 pcma (some 96) 20).telephone_event ≡ some 101))
negotiate-answer_example = negotiate-answer {net = net} 7 hold 2 5000 pcma (some 96) 20

-- The state behind a first audio stream.
abbrev streaming : State net
streaming = record (start net) {
  port = 4000;
  payload_types = 8 ∷ [];
  in_audio = true;
  seen_media = true;
}

parse_lines-Stream_example :
    ((parse_lines net streaming (codes "m=audio 9 RTP/AVP 0" ∷ [])).port ≡ 4000)
    × ((parse_lines net streaming (codes "m=audio 9 RTP/AVP 0" ∷ [])).payload_types ≡ 8 ∷ [])
parse_lines-Stream_example =
    parse_lines-Stream net streaming (codes "m=audio 9 RTP/AVP 0" ∷ []) 4000 8 [] refl refl
