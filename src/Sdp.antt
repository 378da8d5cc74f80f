-- ===== src/Sdp.antt =====
-- src/sip/sdp.rs: session descriptions of a G.711 call.
pub mod Parse
pub mod Render
pub mod Answer
pub mod FirstStream
use modem2sip.Common.{
  ℕ, Bool, true, false, ◌&&◌, not, List, [], ◌∷◌, Option, none, some, if◌then◌else◌, ◌==◌,
}
use modem2sip.Text.{Text, codes}

pub data Codec : Type 0 where
  pcmu pcma : Codec

unfoldable pub payload_type : Codec → ℕ
payload_type pcmu = 0
payload_type pcma = 8

abbrev pub rtpmap : Codec → Text
rtpmap pcmu = codes "PCMU/8000"
rtpmap pcma = codes "PCMA/8000"

unfoldable pub from_payload_type : ℕ → Option Codec
from_payload_type pt = if pt == 0 then some pcmu else if pt == 8 then some pcma else none

pub data Direction : Type 0 where
  send_recv send_only recv_only inactive : Direction

abbrev pub as_str : Direction → Text
as_str send_recv = codes "sendrecv"
as_str send_only = codes "sendonly"
as_str recv_only = codes "recvonly"
as_str inactive = codes "inactive"

unfoldable pub reversed : Direction → Direction
reversed send_only = recv_only
reversed recv_only = send_only
reversed send_recv = send_recv
reversed inactive = inactive

unfoldable pub peer_sends : Direction → Bool
peer_sends send_recv = true
peer_sends send_only = true
peer_sends recv_only = false
peer_sends inactive = false

-- The standard library's addresses: parsing, printing and the tests that are used.
pub record Addresses : Type 1 where
  pub IpAddr : Type 0
  pub from_str : Text → Option IpAddr
  pub to_text : IpAddr → Text
  pub is_ipv6 : IpAddr → Bool
  pub is_unspecified : IpAddr → Bool
  pub unspecified : IpAddr

pub record Sdp (net : Addresses) : Type 0 where
  pub origin_user : Text
  pub session_id : ℕ
  pub session_version : ℕ
  pub address : net.IpAddr
  pub port : ℕ
  pub payload_types : List ℕ
  pub telephone_event : Option ℕ
  pub ptime : Option ℕ
  pub sendrecv : Direction

-- `Option::and`.
abbrev pub and_option : Option ℕ → Option ℕ → Option ℕ
and_option none b = none
and_option (some a) b = b

unfoldable pub first_codec : List ℕ → Option Codec
first_codec [] = none
first_codec (pt ∷ pts) =
    let rest = first_codec pts in elim (from_payload_type pt) [ some c ↦ some c | none ↦ rest ]

-- `now` is the clock's reading.
module _ {net : Addresses} where
  unfoldable pub offer : ℕ → net.IpAddr → ℕ → Option ℕ → ℕ → Sdp net
  offer now address port telephone_event ptime = record {
    origin_user = codes "modem2sip";
    session_id = now;
    session_version = now;
    address = address;
    port = port;
    payload_types = payload_type pcmu ∷ payload_type pcma ∷ [];
    telephone_event = telephone_event;
    ptime = some ptime;
    sendrecv = send_recv;
  }

  unfoldable pub negotiate : Sdp net → Option Codec
  negotiate s = first_codec s.payload_types

  unfoldable pub has_media : Sdp net → Bool
  has_media s = not (s.port == 0) && not (net.is_unspecified s.address)

  unfoldable pub answer : ℕ → Sdp net → net.IpAddr → ℕ → Codec → Option ℕ → ℕ → Sdp net
  answer now s address port codec dtmf_pt ptime = record {
    origin_user = codes "modem2sip";
    session_id = now;
    session_version = now;
    address = address;
    port = port;
    payload_types = payload_type codec ∷ [];
    telephone_event = and_option dtmf_pt s.telephone_event;
    ptime = some ptime;
    sendrecv = reversed s.sendrecv;
  }
