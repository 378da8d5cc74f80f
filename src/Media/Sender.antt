-- ===== src/Media/Sender.antt =====
-- RTP packets as `sender_loop` builds them.
use modem2sip.Common.{ℕ, ◌+◌, ◌/◌, ◌%◌, Bool, true, false, ◌&&◌, not, [], ◌∷◌, ◌++◌, ◌==◌}
use modem2sip.Text.{Bytes}
use modem2sip.Core.State.{SocketAddr, is_unspecified}

pub record Stream : Type 0 where
  pub seq : ℕ
  pub timestamp : ℕ
  pub ssrc : ℕ
  pub marker : Bool

-- `to_be_bytes`.
abbrev pub be16 : ℕ → Bytes
be16 n = n / 256 ∷ n % 256 ∷ []

abbrev pub be32 : ℕ → Bytes
be32 n = n / 16777216 ∷ n / 65536 % 256 ∷ n / 256 % 256 ∷ n % 256 ∷ []

-- `0x80 | payload_type` on a byte.
abbrev pub marked : Bool → ℕ → ℕ
marked true payload_type = 0x80 + payload_type % 0x80
marked false payload_type = payload_type

unfoldable pub packet : Stream → ℕ → Bytes → Bytes
packet s payload_type payload =
    0x80
    ∷ marked s.marker payload_type
    ∷ (be16 s.seq ++ (be32 s.timestamp ++ (be32 s.ssrc ++ payload)))

unfoldable pub next_stream : Stream → ℕ → Stream
next_stream s samples_per_packet = record s {
  seq = (s.seq + 1) % 65536;
  timestamp = (s.timestamp + samples_per_packet) % 4294967296;
  marker = false;
}

-- A held or rejected stream has no address to send to.
abbrev pub has_destination : SocketAddr → Bool
has_destination dest = not (dest.port == 0) && not (is_unspecified dest.ip)
