-- ===== src/Core/Respond.antt =====
-- `make_response` and `respond`.
use modem2sip.Common.{
  ℕ, ◌&&◌, not, List, [], ◌∷◌, ◌++◌, Option, none, some, if◌then◌else◌, ◌==◌, ltb, within,
}
use modem2sip.Text.{Bytes, Text, codes}
use modem2sip.Text.Ops.{decimal}
use modem2sip.Uri.{NameAddr, new, new_name_addr}
use modem2sip.Uri.Parse.{cut, set_param, tag, with_tag, name_addr_text}
use modem2sip.Sip.Method.{invite, same_method}
use modem2sip.Sip.Headers.{Headers, get, set, replace_first}
use modem2sip.Sip.Via.{
  Via, parse_via, has_param, set_via_param, via_text, and_then, to_header, is_some,
}
use modem2sip.Sip.Message.{Request, Response}
use modem2sip.Sip.Encode.{reply, reason_phrase, encode_response}
use modem2sip.Auth.Digest.{random_hex}
use modem2sip.Core.Transactions.{record_answer, txn_key, dialog_key}
use modem2sip.Core.PendingAcks.{await_ack}
use modem2sip.Core.State.{
  SocketAddr, Env, Config, Core, Readings, Effect, sends, repeats, advertised_ip,
}

-- A To without a tag gets one.
abbrev pub tagged : Headers → Bytes → Option NameAddr → Option Text → Headers
tagged hs drawn none t = hs
tagged hs drawn (some to) none =
    set hs (codes "to") (name_addr_text (with_tag to (random_hex drawn)))
tagged hs drawn (some to) (some t) = hs

abbrev pub tag_of : Option NameAddr → Option Text
tag_of none = none
tag_of (some a) = tag a

abbrev pub with_to_tag : Headers → Bytes → Headers
with_to_tag hs drawn = tagged hs drawn (to_header hs) (tag_of (to_header hs))

-- With the phrase of the code, as all the callers here ask.
unfoldable pub make_response : Config → Request → ℕ → Bytes → Response
make_response cfg req code drawn =
    let resp = reply req code (reason_phrase code) in
    let hs = set resp.headers (codes "user-agent") cfg.user_agent in
    record resp { headers = if code == 100 then hs else with_to_tag hs drawn }

module _ (env : Env) (cfg : Config) where
  abbrev pub with_rport : SocketAddr → Via → Via
  with_rport src via =
      if has_param via (codes "rport")
      then set_via_param via (codes "rport") (some (decimal src.port))
      else via

  abbrev pub received_via : SocketAddr → Via → Via
  received_via src via =
      with_rport src (set_via_param via (codes "received") (some (env.ip_text src.ip)))

  abbrev pub rest_text : Option Text → Text
  rest_text none = []
  rest_text (some rest) = b',' ∷ rest

  -- The first value of a field, and the values behind its first comma.
  abbrev pub received_value : SocketAddr → Text × Option Text → Option Text
  received_value src (first, rest) =
      and_then (parse_via first) (λ via. some (via_text (received_via src via) ++ rest_text rest))

  abbrev pub replaced_via : Headers → Option Text → Headers
  replaced_via hs none = hs
  replaced_via hs (some value) = replace_first hs (codes "via") value

  unfoldable pub with_received : SocketAddr → Headers → Headers
  with_received src hs =
      replaced_via hs (and_then (get hs (codes "via")) (λ raw. received_value src (cut b',' raw)))

  abbrev pub own_contact : Option Text → SocketAddr → Text
  own_contact user dest = name_addr_text (
      new_name_addr (
        set_param (new user (env.ip_text (advertised_ip env cfg dest)) (some cfg.bound.port))
          (codes "transport") (some (codes "udp"))))

  unfoldable pub with_own_contact : Request → SocketAddr → ℕ → Headers → Headers
  with_own_contact req src code hs =
      if not (is_some (get hs (codes "contact"))) && (ltb code 300 && not (code == 100))
      then set hs (codes "contact") (own_contact req.uri.user src)
      else hs

  unfoldable pub answer_bytes : Request → SocketAddr → Response → Bytes
  answer_bytes req src resp = encode_response env.target (record resp {
    headers = with_own_contact req src resp.code (with_received src resp.headers);
  })

  abbrev pub recorded_core : Core → Option Text → ℕ → Bytes → Readings → Core
  recorded_core core none code bytes readings = core
  recorded_core core (some key) code bytes readings = record core {
    server_cache = record_answer core.server_cache key code bytes readings.recorded;
  }

  abbrev pub awaiting : Core → Option Text → Bytes → SocketAddr → Readings → Core × List Effect
  awaiting core none bytes src readings = (core, [])
  awaiting core (some key) bytes src readings = (
    record core { pending_ack = await_ack core.pending_ack key readings.new_flag },
    repeats key readings.new_flag bytes src ∷ [],
  )

  -- `retransmit_until_acked`, for a 2xx to an INVITE.
  abbrev pub repeated : Core → Request → ℕ → Bytes → SocketAddr → Readings → Core × List Effect
  repeated core req code bytes src readings =
      if same_method req.method invite && within 200 299 code
      then awaiting core (dialog_key req) bytes src readings
      else (core, [])

  abbrev pub sent : Bytes → SocketAddr → Core × List Effect → Core × List Effect
  sent bytes src (core, effects) = (core, effects ++ sends bytes src ∷ [])

  unfoldable pub respond : Core → Request → SocketAddr → Response → Readings → Core × List Effect
  respond core req src resp readings =
      let bytes = answer_bytes req src resp in
      sent bytes src (
        repeated (recorded_core core (txn_key req) resp.code bytes readings) req resp.code bytes src
          readings)
