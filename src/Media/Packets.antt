-- ===== src/Media/Packets.antt =====
-- A packet that the sender builds reaches the audio of a receiver.
use modem2sip.Common.{
  ℕ, ◌-◌, ◌%◌, ◌<◌, ◌≡◌, refl, ap, arith, Bool, true, false, [], ◌∷◌, some, ◌==◌, leb, length, take,
}
use modem2sip.Text.{Bytes}
use modem2sip.Core.State.{SocketAddr}
use modem2sip.Media.Sender.{Stream, marked, packet}
use modem2sip.Media.Receiver.{
  Session, MediaConfig, audio, stamp, expected_host, latch, payload_start, payload_end, payload,
  is_value, play, receive,
}

marked-type : (m : Bool) (t : ℕ) → t < 128 → marked m t % 128 ≡ t
marked-type true t small = omega (arith, small)
marked-type false t small = omega (arith, small)

take_all : (bs : Bytes) → take (length bs) bs ≡ bs
take_all [] = refl
take_all (b ∷ bs) = ap (◌∷◌ b) (take_all bs)

payload-packet : (s : Stream) (t b : ℕ) (bs : Bytes) → payload (packet s t (b ∷ bs)) ≡ some (b ∷ bs)
unfolding payload payload_start payload_end packet
payload-packet s t b bs =
    let long : leb (length (packet s t (b ∷ bs))) 12 ≡ false = ground arith in
    let size : length (packet s t (b ∷ bs)) - 12 ≡ length (b ∷ bs) = omega arith in
    rw (long, size) (ap some (take_all (b ∷ bs)))

-- A packet that the sender builds, with a payload of one byte at least and a payload type below
-- 128 that is not the one for telephone events, is heard by a session that expects its source
-- with the same payload type: its payload comes out whole, whatever the sequence number,
-- timestamp and marker, and the session is stamped and latched.
pub receive-packet :
    (cfg : MediaConfig) (session : Session) (age : ℕ) (src : SocketAddr) (s : Stream) (b : ℕ)
    (bs : Bytes)
    → expected_host session src ≡ true
    → cfg.payload_type < 128
    → is_value cfg.payload_type cfg.dtmf_payload_type ≡ false
    → receive cfg session age (packet s cfg.payload_type (b ∷ bs)) src
      ≡ (latch cfg.symmetric (stamp session age) src, audio (b ∷ bs))
unfolding receive packet
receive-packet cfg session age src s b bs known small apart =
    let long : leb 12 (length (packet s cfg.payload_type (b ∷ bs))) ≡ true = ground arith in
    let own : (cfg.payload_type == cfg.payload_type) ≡ true = ground arith in
    rw (
      known,
      long,
      payload-packet s cfg.payload_type b bs,
      play,
      marked-type s.marker cfg.payload_type small,
      apart,
      own,
    )
