-- ===== src/Sdp/Answer.antt =====
-- Answers agree with offers.
use modem2sip.Common.{ℕ, Bool, true, false, ◌≡◌, refl, ◌⊎◌, inl, inr, [], ◌∷◌, Option, none, some}
use modem2sip.Sdp.{
  Codec, pcmu, pcma, payload_type, from_payload_type, Direction, send_recv, send_only, recv_only,
  inactive, reversed, Addresses, Sdp, and_option, first_codec, negotiate, answer,
}

from_payload_type-payload_type : (c : Codec) → from_payload_type (payload_type c) ≡ some c
unfolding from_payload_type payload_type
from_payload_type-payload_type pcmu = refl
from_payload_type-payload_type pcma = refl

first_codec-payload_type : (c : Codec) → first_codec (payload_type c ∷ []) ≡ some c
unfolding first_codec
first_codec-payload_type c = rw (from_payload_type-payload_type c, first_codec)

-- What RFC 3264 lets the one who states a direction do: send media, and receive it.
abbrev pub may_send : Direction → Bool
may_send send_recv = true
may_send send_only = true
may_send recv_only = false
may_send inactive = false

abbrev pub may_receive : Direction → Bool
may_receive send_recv = true
may_receive send_only = false
may_receive recv_only = true
may_receive inactive = false

reversed-swaps :
    (d : Direction)
    → (may_send (reversed d) ≡ may_receive d) × (may_receive (reversed d) ≡ may_send d)
unfolding reversed
reversed-swaps send_recv = (refl, refl)
reversed-swaps send_only = (refl, refl)
reversed-swaps recv_only = (refl, refl)
reversed-swaps inactive = (refl, refl)

and_option-cases : (a b : Option ℕ) → (and_option a b ≡ none) ⊎ (and_option a b ≡ b)
and_option-cases none b = inl refl
and_option-cases (some a) b = inr refl

-- For every offer and local codec, the answer negotiates to that codec, it sends exactly if the
-- offer receives and receives exactly if the offer sends, and it names either no telephone-event
-- payload type or the one that was offered.
pub negotiate-answer :
    {net : Addresses} (now : ℕ) (s : Sdp net) (address : net.IpAddr) (port : ℕ) (codec : Codec)
    (dtmf_pt : Option ℕ) (ptime : ℕ)
    → (negotiate (answer now s address port codec dtmf_pt ptime) ≡ some codec)
      × (may_send (answer now s address port codec dtmf_pt ptime).sendrecv ≡ may_receive s.sendrecv)
      × (may_receive (answer now s address port codec dtmf_pt ptime).sendrecv ≡ may_send s.sendrecv)
      × (((answer now s address port codec dtmf_pt ptime).telephone_event ≡ none)
          ⊎ ((answer now s address port codec dtmf_pt ptime).telephone_event ≡ s.telephone_event))
unfolding negotiate answer
negotiate-answer now s address port codec dtmf_pt ptime = (
  first_codec-payload_type codec,
  (reversed-swaps s.sendrecv).0,
  (reversed-swaps s.sendrecv).1,
  and_option-cases dtmf_pt s.telephone_event,
)
