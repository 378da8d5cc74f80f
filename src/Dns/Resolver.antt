-- ===== src/Dns/Resolver.antt =====
-- `Resolver`: the queries to the servers in order, and the wait for the reply to one. `W` is the
-- state of the network, and `query` asks a server over it.
use modem2sip.Common.{ℕ, List, [], ◌∷◌, Option, none, some, map}
use modem2sip.Text.{Bytes, Text}
use modem2sip.Dns.Names.{DnsError, Result, ok, err}
use modem2sip.Dns.Message.{Reply, classify, IpAddr, Answer, parse_answer, type_a, type_aaaa}

-- The loop of `query` over the datagrams that arrive before the deadline.
unfoldable pub await_reply : ℕ → Text → ℕ → List Bytes → Result Answer
await_reply id host qtype [] = err DnsError.timed_out
await_reply id host qtype (msg ∷ later) =
    let rest = await_reply id host qtype later in
    elim (classify msg id host qtype) [
      | Reply.ours ↦ parse_answer msg id qtype
      | Reply.rejected rcode ↦ err (DnsError.answered_rcode rcode)
      | Reply.not_ours ↦ rest
    ]

pub record SocketAddr : Type 0 where
  pub ip : IpAddr
  pub port : ℕ

-- `SocketAddr::new(ip, port)`.
abbrev pub with_port : ℕ → IpAddr → SocketAddr
with_port port a = record { ip = a; port = port }

module _ {W : Type 0} (query : IpAddr → Text → ℕ → W → Result Answer × W) where
  -- The addresses that the CNAME's target has, when the query for it succeeds.
  abbrev pub chased : Result Answer × W → List IpAddr × W
  chased (ok a, w) = (a.addrs, w)
  chased (err e, w) = ([], w)

  abbrev pub chase : IpAddr → ℕ → Option Text → W → List IpAddr × W
  chase server qtype none w = ([], w)
  chase server qtype (some target) w = chased (query server target qtype w)

  abbrev pub answered :
      IpAddr → ℕ → Option DnsError → Answer → W → List IpAddr → List IpAddr × Option DnsError × W
  answered server qtype last answer w [] =
      let (found, w2) = chase server qtype answer.cname w in (found, last, w2)
  answered server qtype last answer w (ip ∷ ips) = (ip ∷ ips, last, w)

  -- What one server gave: addresses, or the error to remember, if any.
  abbrev pub server_result :
      IpAddr → ℕ → Option DnsError → Result Answer × W → List IpAddr × Option DnsError × W
  server_result server qtype last (err e, w) = ([], some e, w)
  server_result server qtype last (ok answer, w) = answered server qtype last answer w answer.addrs

  abbrev pub last_error : Option DnsError → DnsError
  last_error none = DnsError.no_answer
  last_error (some e) = e

  unfoldable pub query_all_servers :
      List IpAddr → Option DnsError → Text → ℕ → W → Result (List IpAddr) × W
  query_all_servers [] last host qtype w = (err (last_error last), w)
  query_all_servers (server ∷ servers) last host qtype w =
      let (found, last2, w2) = server_result server qtype last (query server host qtype w) in
      elim found [
        | [] ↦ query_all_servers servers last2 host qtype w2
        | ip ∷ ips ↦ (ok (ip ∷ ips), w2)
      ]

  -- The addresses that are found; an error is only logged.
  abbrev pub found_in : Result (List IpAddr) → List IpAddr
  found_in (ok ips) = ips
  found_in (err e) = []

  abbrev pub at_port : ℕ → List IpAddr → Result (List SocketAddr)
  at_port port [] = err DnsError.no_address
  at_port port (ip ∷ ips) = ok (map (with_port port) (ip ∷ ips))

  -- The second round of the loop over the types, when the first found nothing.
  abbrev pub after_a :
      List IpAddr → Text → ℕ → Result (List IpAddr) × W → Result (List SocketAddr) × W
  after_a servers host port (ok (ip ∷ ips), w) = (at_port port (ip ∷ ips), w)
  after_a servers host port (_, w) =
      let (found, w2) = query_all_servers servers none host type_aaaa w in
      (at_port port (found_in found), w2)

  -- `parse_ip` is the standard library's `str::parse::<IpAddr>`.
  unfoldable pub lookup :
      (Text → Option IpAddr) → List IpAddr → Text → ℕ → W → Result (List SocketAddr) × W
  lookup parse_ip servers host port w = elim (parse_ip host) [
    | some ip ↦ (ok (with_port port ip ∷ []), w)
    | none ↦ elim servers [
      | [] ↦ (err DnsError.no_server, w)
      | server ∷ others ↦
          after_a (server ∷ others) host port
            (query_all_servers (server ∷ others) none host type_a w)
    ]
  ]
