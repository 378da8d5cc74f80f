-- ===== src/Media/Receiver.antt =====
-- `receiver_loop`, and what the session keeps about its peer.
use modem2sip.Common.{
  ℕ, ◌+◌, ◌-◌, ◌*◌, ◌/◌, ◌%◌, Bool, true, false, ◌&&◌, ◌||◌, not, Option, none, some, if◌then◌else◌,
  ◌==◌, leb, ltb, length, take, drop, get_elem?, min,
}
use modem2sip.Text.{Bytes}
use modem2sip.Core.Addresses.{same_address}
use modem2sip.Core.State.{SocketAddr, is_unspecified}

-- `MediaSession` as the receiver sees it.
pub record Session : Type 0 where
  pub remote : SocketAddr
  pub signalled : SocketAddr
  pub latched : Bool
  pub last_rtp_ms : ℕ
  pub last_dtmf_ts : Option ℕ

pub record MediaConfig : Type 0 where
  pub payload_type : ℕ
  pub dtmf_payload_type : Option ℕ
  pub symmetric : Bool

-- What a datagram leads to: a digit, or a payload that is decoded and played.
pub data Heard : Type 0 where
  nothing : Heard
  digit : ℕ → Heard
  audio : Bytes → Heard

unfoldable pub set_remote : Session → SocketAddr → Session
set_remote s addr = record s {
  latched = if same_address s.signalled.ip addr.ip then s.latched else false;
  signalled = addr;
  remote = addr;
}

-- `since_last_rtp`, of a session that is that old in milliseconds, up to the counter's end.
abbrev pub elapsed_ms : ℕ → ℕ
elapsed_ms age = min age 4294967295

unfoldable pub silence : Session → ℕ → ℕ
silence s age = elapsed_ms age - s.last_rtp_ms

unfoldable pub stamp : Session → ℕ → Session
stamp s age = record s { last_rtp_ms = elapsed_ms age }

-- A byte of the buffer, which the code reads below the length only.
abbrev pub or_zero : Option ℕ → ℕ
or_zero none = 0
or_zero (some b) = b

abbrev pub byte_at : Bytes → ℕ → ℕ
byte_at buf i = or_zero (get_elem? buf i)

abbrev pub expected_host : Session → SocketAddr → Bool
expected_host s src = is_unspecified s.signalled.ip || same_address src.ip s.signalled.ip

abbrev pub same_socket : SocketAddr → SocketAddr → Bool
same_socket a b = same_address a.ip b.ip && a.port == b.port

-- The first packet of a symmetric session says where to send.
unfoldable pub latch : Bool → Session → SocketAddr → Session
latch symmetric s src =
    if symmetric && not s.latched
    then record s { latched = true; remote = if same_socket src s.signalled then s.remote else src }
    else s

-- Where the payload starts, behind the contributing sources and the extension.
abbrev pub after_sources : Bytes → ℕ
after_sources buf = 12 + 4 * (byte_at buf 0 % 16)

unfoldable pub payload_start : Bytes → Option ℕ
payload_start buf =
    let offset = after_sources buf in
    let words = byte_at buf (offset + 2) * 256 + byte_at buf (offset + 3) in
    if byte_at buf 0 / 16 % 2 == 0
    then some offset
    else if ltb (length buf) (offset + 4)
    then none
    else some (offset + (4 + 4 * words))

-- Where it ends: the last byte of a padded packet counts the padding.
unfoldable pub payload_end : Bytes → ℕ → Option ℕ
payload_end buf offset =
    let pad = byte_at buf (length buf - 1) in
    if byte_at buf 0 / 32 % 2 == 0
    then some (length buf)
    else if pad == 0 || ltb (length buf - offset) pad
    then none
    else some (length buf - pad)

abbrev pub cut_payload : Bytes → ℕ → Option ℕ → Option Bytes
cut_payload buf offset none = none
cut_payload buf offset (some end_) = some (take (end_ - offset) (drop offset buf))

abbrev pub payload_from : Bytes → Option ℕ → Option Bytes
payload_from buf none = none
payload_from buf (some offset) =
    if leb (length buf) offset then none else cut_payload buf offset (payload_end buf offset)

unfoldable pub payload : Bytes → Option Bytes
payload buf = payload_from buf (payload_start buf)

abbrev pub timestamp_of : Bytes → ℕ
timestamp_of buf =
    byte_at buf 4 * 16777216 + byte_at buf 5 * 65536 + byte_at buf 6 * 256 + byte_at buf 7

unfoldable pub dtmf_char : ℕ → Option ℕ
dtmf_char event =
    if leb event 9
    then some (b'0' + event)
    else if event == 10
    then some b'*'
    else if event == 11
    then some b'#'
    else if leb event 15
    then some (b'A' + (event - 12))
    else none

abbrev pub is_value : ℕ → Option ℕ → Bool
is_value n none = false
is_value n (some m) = n == m

abbrev pub heard_digit : Option ℕ → Heard
heard_digit none = nothing
heard_digit (some d) = digit d

-- An event is reported at its first packet.
unfoldable pub dtmf_event : Session → ℕ → Bytes → Session × Heard
dtmf_event s timestamp data_ =
    if leb 4 (length data_) && not (is_value timestamp s.last_dtmf_ts)
    then (record s { last_dtmf_ts = some timestamp }, heard_digit (dtmf_char (byte_at data_ 0)))
    else (s, nothing)

abbrev pub play : MediaConfig → Session → Bytes → Option Bytes → Session × Heard
play cfg s buf none = (s, nothing)
play cfg s buf (some data_) =
    let pt = byte_at buf 1 % 128 in
    if is_value pt cfg.dtmf_payload_type
    then dtmf_event s (timestamp_of buf) data_
    else if pt == cfg.payload_type
    then (s, audio data_)
    else (s, nothing)

-- A round of the loop, at the session's age. The datagram is what `recv_from` left in the buffer:
-- the system cuts a longer one to the buffer's 2048 bytes before this.
unfoldable pub receive : MediaConfig → Session → ℕ → Bytes → SocketAddr → Session × Heard
receive cfg s age buf src =
    if expected_host s src && (leb 12 (length buf) && byte_at buf 0 / 64 == 2)
    then play cfg (latch cfg.symmetric (stamp s age) src) buf (payload buf)
    else (s, nothing)
