-- ===== src/Dns/Lookup.antt =====
-- What `lookup` and the wait for a reply promise.
use modem2sip.Common.{ℕ, ◌≡◌, ◌≢◌, refl, arith, List, [], ◌∷◌, Option, none, some, map, All}
use modem2sip.Text.{Text}
use modem2sip.Dns.Names.{Result, ok, err}
use modem2sip.Dns.Message.{IpAddr, Answer, type_a}
use modem2sip.Dns.Resolver.{SocketAddr, with_port, query_all_servers, at_port, after_a, lookup}
use modem2sip.Dns.Family.{Holds, Holds-at}

-- A success: at least one address, each with the port.
abbrev pub Reachable : ℕ → List SocketAddr → Type 0
Reachable port addrs = (addrs ≢ []) × All (λ a. a.port ≡ port) addrs

All-at_port : (port : ℕ) (ips : List IpAddr) → All (λ a. a.port ≡ port) (map (with_port port) ips)
All-at_port port [] = tt
All-at_port port (ip ∷ ips) = (refl, All-at_port port ips)

module _ {W : Type 0} (query : IpAddr → Text → ℕ → W → Result Answer × W) where
  at_port-Reachable :
      (port : ℕ) (ips : List IpAddr) → Holds (Reachable port) (at_port query port ips)
  at_port-Reachable port [] = tt
  at_port-Reachable port (ip ∷ ips) = ((λ e. ground arith), All-at_port port (ip ∷ ips))

  after_a-Reachable :
      (servers : List IpAddr) (host : Text) (port : ℕ) (r : Result (List IpAddr) × W)
      → Holds (Reachable port) (after_a query servers host port r).0
  after_a-Reachable servers host port (ok (ip ∷ ips), w) = at_port-Reachable port (ip ∷ ips)
  after_a-Reachable servers host port (ok [], w) = at_port-Reachable port _
  after_a-Reachable servers host port (err e, w) = at_port-Reachable port _

  after_parse-Reachable :
      (servers : List IpAddr) (host : Text) (port : ℕ) (w : W) (literal : Option IpAddr)
      → (parse_ip : Text → Option IpAddr) → parse_ip host ≡ literal
      → Holds (Reachable port) (lookup query parse_ip servers host port w).0
  unfolding lookup
  after_parse-Reachable servers host port w (some ip) parse_ip e =
      rw (e, Holds) ((λ n. ground arith), (refl, tt))
  after_parse-Reachable [] host port w none parse_ip e = rw (e, Holds) tt
  after_parse-Reachable (server ∷ others) host port w none parse_ip e =
      rw (e, Holds)
        (after_a-Reachable (server ∷ others) host port
          (query_all_servers query (server ∷ others) none host type_a w))

  -- Whatever the servers answer, a lookup that succeeds returns at least one address, and each
  -- with the port that was asked for.
  pub lookup-Reachable :
      (parse_ip : Text → Option IpAddr) (servers : List IpAddr) (host : Text) (port : ℕ) (w : W)
      (addrs : List SocketAddr)
      → (lookup query parse_ip servers host port w).0 ≡ ok addrs
      → (addrs ≢ []) × All (λ a. a.port ≡ port) addrs
  lookup-Reachable parse_ip servers host port w addrs found =
      Holds-at (Reachable port) (lookup query parse_ip servers host port w).0 addrs
        (after_parse-Reachable servers host port w (parse_ip host) parse_ip refl) found
