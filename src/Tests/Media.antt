-- ===== src/Tests/Media.antt =====
-- Call media, and the head of a message, at concrete inputs.
use modem2sip.Common.{
  ◌-◌, ◌≡◌, refl, arith, true, false, [], ◌∷◌, ◌++◌, some, All, leb, if◌then◌else◌,
}
use modem2sip.Text.{codes}
use modem2sip.Text.Words.{split_crlf}
use modem2sip.Text.Ops.{
  equal, to_ascii_lowercase, trim, trim_matches, trim_start, trim_end, trim_end_with, is_whitespace,
}
use modem2sip.Sip.Headers.{Headers, canonical, full_form, pretty, title_case}
use modem2sip.Sip.Encode.{header_safe, header_lines, head_text}
use modem2sip.Sip.Lines.{has_break, PlainName, split_crlf-head_text}
use modem2sip.Core.Addresses.{v4}
use modem2sip.Media.Ports.{bound, in_use, bind_port}
use modem2sip.Media.PortRange.{IsPair, bind_port-IsPair}
use modem2sip.Media.Detector.{silent}
use modem2sip.Media.Debounce.{reports, held, reports-held}
use modem2sip.Media.Sender.{Stream, packet}
use modem2sip.Media.Receiver.{MediaConfig, audio, latch, receive, stamp}
use modem2sip.Media.Packets.{receive-packet}
use modem2sip.Media.Aim.{IsAimed, arrives, moves, media_run, started, media_run-IsAimed}
use modem2sip.Tests.Core.{target, phone}

abbrev cfg : MediaConfig
cfg = record { payload_type = 8; dtmf_payload_type = some 101; symmetric = true }

abbrev stream : Stream
stream = record { seq = 7; timestamp = 160; ssrc = 9; marker = true }

receive-packet_example :
    receive cfg (started phone) 20 (packet stream 8 (0x55 ∷ 0xD5 ∷ [])) phone
    ≡ (latch true (stamp (started phone) 20) phone, audio (0x55 ∷ 0xD5 ∷ []))
receive-packet_example =
    receive-packet cfg (started phone) 20 phone stream 0x55 (0xD5 ∷ []) refl (omega arith) refl

media_run-IsAimed_example : IsAimed (
    media_run cfg (started phone) (
      arrives 20 (packet stream 8 (0x55 ∷ [])) phone
      ∷ moves (record phone { ip = v4 3 })
      ∷ arrives 40 [] phone
      ∷ []))
media_run-IsAimed_example = media_run-IsAimed cfg phone (
    arrives 20 (packet stream 8 (0x55 ∷ [])) phone
    ∷ moves (record phone { ip = v4 3 })
    ∷ arrives 40 [] phone
    ∷ [])

bind_port-IsPair_example :
    IsPair
      (λ p. if leb p 16385 then in_use else bound)
      16383
      16390
      (bind_port (λ p. if leb p 16385 then in_use else bound) 16383 16390 (λ n. n - 1))
bind_port-IsPair_example =
    bind_port-IsPair (λ p. if leb p 16385 then in_use else bound) 16383 16390 (λ n. n - 1)
      (omega arith) (omega arith) (λ n some_slot. omega (arith, some_slot))

reports-held_example : reports silent (held 4 b'5') ≡ (if leb 3 4 then b'5' ∷ [] else [])
reports-held_example = reports-held 4 b'5'

abbrev injected : Headers
injected = (codes "subject", codes "a\r\nto: x") ∷ []

subject_is_plain : All (PlainName target (codes "hi")) injected
unfolding pretty canonical full_form to_ascii_lowercase trim trim_matches trim_start trim_end
    trim_end_with is_whitespace equal title_case
subject_is_plain = (refl, tt)

split_crlf-head_text_example :
    (split_crlf (head_text target (codes "SIP/2.0 200 OK") injected (codes "hi"))
      ≡ (header_safe (codes "SIP/2.0 200 OK") ∷ header_lines target false (codes "hi") injected)
        ++ [] ∷ [] ∷ [])
    × All
        (λ l. has_break l ≡ false)
        (header_safe (codes "SIP/2.0 200 OK") ∷ header_lines target false (codes "hi") injected)
split_crlf-head_text_example =
    split_crlf-head_text target (codes "hi") (codes "SIP/2.0 200 OK") injected subject_is_plain
