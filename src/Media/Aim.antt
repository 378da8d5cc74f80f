-- ===== src/Media/Aim.antt =====
-- Where the call audio is sent.
use modem2sip.Common.{
  ℕ, ◌%◌, ◌/◌, ◌≡◌, refl, ap, ◌∙◌, arith, Bool, true, false, ◌&&◌, ◌||◌, not, List, [], ◌∷◌, Option,
  none, some, ◌==◌, leb, length, Bool-cases, inl, inr,
}
use modem2sip.Text.{Bytes}
use modem2sip.Core.Addresses.{IpAddr, v4, v6, same_address}
use modem2sip.Core.State.{SocketAddr, is_unspecified}
use modem2sip.Media.Receiver.{
  Session, MediaConfig, set_remote, stamp, expected_host, same_socket, latch, payload, is_value,
  timestamp_of, dtmf_event, play, receive, byte_at,
}

-- What happens to a session: a datagram arrives, or the signalling moves the peer.
pub data MediaEvent : Type 0 where
  arrives : ℕ → Bytes → SocketAddr → MediaEvent
  moves : SocketAddr → MediaEvent

abbrev pub media_step : MediaConfig → Session → MediaEvent → Session
media_step cfg s (arrives age buf src) = (receive cfg s age buf src).0
media_step cfg s (moves addr) = set_remote s addr

unfoldable pub media_run : MediaConfig → Session → List MediaEvent → Session
media_run cfg s [] = s
media_run cfg s (e ∷ es) = media_run cfg (media_step cfg s e) es

-- The audio goes to the host that the signalling named, unless it named none.
abbrev pub at_host : SocketAddr × SocketAddr → Bool
at_host (remote, signalled) = same_address remote.ip signalled.ip || is_unspecified signalled.ip

abbrev pub aim : Session → SocketAddr × SocketAddr
aim s = (s.remote, s.signalled)

abbrev pub IsAimed : Session → Type 0
IsAimed s = at_host (aim s) ≡ true

same_address_self : (a : IpAddr) → same_address a a ≡ true
same_address_self (v4 n) = ground arith
same_address_self (v6 n) = ground arith

set_remote-IsAimed : (s : Session) (addr : SocketAddr) → IsAimed (set_remote s addr)
unfolding set_remote
set_remote-IsAimed s addr = rw (same_address_self addr.ip)

dtmf_event-aim :
    (s : Session) (timestamp : ℕ) (bs : Bytes) → aim (dtmf_event s timestamp bs).0 ≡ aim s
unfolding dtmf_event
dtmf_event-aim s timestamp bs =
    elim (Bool-cases (leb 4 (length bs) && not (is_value timestamp s.last_dtmf_ts))) [
      | inl new ↦ rw new
      | inr old ↦ rw old
    ]

play-aim :
    (cfg : MediaConfig) (s : Session) (buf : Bytes) (o : Option Bytes)
    → aim (play cfg s buf o).0 ≡ aim s
play-aim cfg s buf none = refl
play-aim cfg s buf (some bs) =
    elim (Bool-cases (is_value (byte_at buf 1 % 128) cfg.dtmf_payload_type)) [
      | inl event ↦ rw event (dtmf_event-aim s (timestamp_of buf) bs)
      | inr other ↦ rw other (elim (Bool-cases (byte_at buf 1 % 128 == cfg.payload_type)) [
        | inl voice ↦ rw voice
        | inr unknown ↦ rw unknown
      ])
    ]

latch-IsAimed :
    (symmetric : Bool) (s : Session) (src : SocketAddr)
    → expected_host s src ≡ true
    → IsAimed s
    → IsAimed (latch symmetric s src)
unfolding latch
latch-IsAimed symmetric s src known aimed = elim (Bool-cases (symmetric && not s.latched)) [
  | inl learns ↦ rw learns (elim (Bool-cases (same_socket src s.signalled)) [
    | inl same ↦ rw same aimed
    | inr moved ↦ rw moved (ground (arith, known))
  ])
  | inr keeps ↦ rw keeps aimed
]

receive-IsAimed :
    (cfg : MediaConfig) (s : Session) (age : ℕ) (buf : Bytes) (src : SocketAddr)
    → IsAimed s
    → IsAimed (receive cfg s age buf src).0
unfolding receive stamp
receive-IsAimed cfg s age buf src aimed =
    elim (Bool-cases (expected_host s src && (leb 12 (length buf) && byte_at buf 0 / 64 == 2))) [
      | inl good ↦ rw good (
          ap at_host (play-aim cfg (latch cfg.symmetric (stamp s age) src) buf (payload buf))
          ∙ latch-IsAimed cfg.symmetric (stamp s age) src (ground (arith, good)) aimed)
      | inr bad ↦ rw bad aimed
    ]

media_run-from :
    (cfg : MediaConfig) (s : Session) (es : List MediaEvent)
    → IsAimed s
    → IsAimed (media_run cfg s es)
unfolding media_run
media_run-from cfg s [] aimed = aimed
media_run-from cfg s (arrives age buf src ∷ es) aimed =
    media_run-from cfg (receive cfg s age buf src).0 es (receive-IsAimed cfg s age buf src aimed)
media_run-from cfg s (moves addr ∷ es) aimed =
    media_run-from cfg (set_remote s addr) es (set_remote-IsAimed s addr)

-- A session as `start` makes it.
abbrev pub started : SocketAddr → Session
started remote = record {
  remote = remote;
  signalled = remote;
  latched = false;
  last_rtp_ms = 0;
  last_dtmf_ts = none;
}

-- From the start of a session, after every sequence of datagrams from anywhere and of moves by
-- the signalling, the address that call audio is sent to has the host that the signalling named
-- last, unless that host is the unspecified address: no packet redirects the audio to another
-- host.
pub media_run-IsAimed :
    (cfg : MediaConfig) (remote : SocketAddr) (es : List MediaEvent)
    → IsAimed (media_run cfg (started remote) es)
media_run-IsAimed cfg remote es =
    media_run-from cfg (started remote) es (rw (same_address_self remote.ip))
