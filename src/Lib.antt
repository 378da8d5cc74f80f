-- ===== src/Lib.antt =====
-- modem2sip: an LTE modem as a SIP endpoint. This library models the parts of the program that
-- interpret bytes and texts from the network and the SIP element and call media that act on them,
-- and shows that they do what they mean to.
--
-- The program receives a binary SMS from the modem, takes the WAP push off it (src/mms/mod.rs),
-- decodes the MMS PDU in it (src/mms/pdu.rs over the primitives of src/mms/wsp.rs), asks the
-- carrier's DNS servers for the message centre (src/mms/dns.rs) and exchanges PDUs with it. On the
-- other side it speaks SIP: addresses are URIs and name-addrs (src/sip/uri.rs), phones register
-- with it (src/sip/registrar.rs), calls are described by SDP (src/sip/sdp.rs), numbers are shown
-- in national form (src/state.rs), and the voice is G.711 (src/audio/codec.rs) in RTP packets
-- (src/media.rs). The SIP element (src/sip/core.rs) parses datagrams into messages
-- (src/sip/message.rs), claims a request's transaction, authenticates it (src/sip/auth.rs), answers
-- it or hands it over, and brings responses to the requests that wait for them.
--
-- - Common: numbers, tests and lists.
-- - Text: Rust's `str` as a list of characters, UTF-8, and the methods of `str` that are used.
--   Text/Decimal prints and parses numbers.
-- - Wsp: src/mms/wsp.rs. Wsp/Reader and Wsp/Values are `Reader` and its methods, as functions from
--   a reader to a result and the reader after it; Wsp/Writer the `write_` functions, as the bytes
--   that they append. Wsp/Env holds what is not in the repository, the character decoders and the
--   width of usize, and Utf8Laws what is assumed of the decoders.
-- - Pdu: src/mms/pdu.rs. Pdu/Decode is `decode`, one function per round of its loops, and
--   Pdu/Encode the encoders.
-- - Push: `is_wap_push`, `parse_wap_push` and `is_mms_push` of src/mms/mod.rs.
-- - Dns: src/mms/dns.rs. Dns/Names reads names, Dns/Message builds queries and parses answers, and
--   Dns/Resolver chooses servers; the network is a state that a parameter `query` passes on.
-- - Uri: src/sip/uri.rs. Uri/Parse has `Uri::parse`, `NameAddr::parse` and their `Display`.
-- - Sdp: src/sip/sdp.rs, with the standard library's addresses as a parameter.
-- - Sip: src/sip/message.rs. Sip/Headers is `Headers`, Sip/Via `Via` and the headers with a structure,
--   Sip/Message `Message::parse`, and Sip/Encode the serialisation and `reply`.
-- - Auth: src/sip/auth.rs. Auth/Params parses and prints, Auth/Digest computes over a parameter for
--   MD5, and Auth/Nonce is `NonceFactory`.
-- - Core: src/sip/core.rs. Core/Transactions is the cache of server transactions, Core/Nonces
--   `claim_nonce`, Core/Timers the loop of both retransmission timers, Core/PendingAcks the answers
--   that wait for an ACK, Core/Addresses `ip_matches` and `split_contacts`, Core/Respond, Core/Authenticate
--   and Core/Requests what `on_request` does, from a core to a core and a list of effects, and
--   Core/Clients the client transactions. Core/State holds the state, the readings of the clocks and
--   what the system provides, with `advertised_ip` of src/sip/transport.rs.
-- - Media: src/media.rs. Media/Ports is `bind_port` over the system's answers, Media/Sender the packets
--   of `sender_loop`, Media/Detector its debouncing of digits, and Media/Receiver `receiver_loop` as a
--   function from a session and a datagram to a session and what was heard.
-- - Registrar: src/sip/registrar.rs, with the clock's readings as arguments.
-- - Number: `to_national` and `local_number` of src/state.rs.
-- - Codec: the A-law and µ-law half of src/audio/codec.rs.
-- - Tests: concrete runs.
--
-- Machine integers are natural numbers with their wrap-around written out where the source can
-- reach it. The loop of `decode` runs on fuel, one round per byte and one more, and that of
-- `read_name` on a fuel for 16 pointers with a pass over the message before each and behind the
-- last; both are shown to be enough. `uintvar` is bounded by the source's eight rounds and
-- `skip_name` by its 128, so they need no fuel.
--
-- The loops over the parameters of a content type and over the headers of a part run on one
-- round per byte of their slice, which is shown to be enough: their results are those of finite
-- runs of the source's loops, as relations that count no fuel (Wsp/Parameters, Pdu/PartLoop). A
-- retransmission timer runs on 65 rounds, since each takes half a second at least of its 32;
-- that is shown too. `parse_params` runs on one round per character and one more. A datagram
-- that cannot be sent changes no state, since sending is the last thing a handler does, so
-- `sends` has no result.
--
-- Not modelled: the receive loop of src/sip/core.rs and its `resolve_target`, the tasks and
-- ring buffers of src/media.rs, the gateway's calls, the MMS manager and its HTTP client;
-- logging and metrics; and what only calls D-Bus, ALSA, SQLite or sockets. `build_smil` of
-- src/mms/pdu.rs, and the gain, DTMF and resampling of src/audio/codec.rs are left out too.
pub mod Common
pub mod Text
pub mod Wsp
pub mod Pdu
pub mod Codec
pub mod Number
pub mod Dns
pub mod Uri
pub mod Registrar
pub mod Push
pub mod Sdp
pub mod Sip
pub mod Auth
pub mod Core
pub mod Media
mod Tests
