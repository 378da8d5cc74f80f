-- ===== src/Core/State.antt =====
-- What a request is handled with: the configuration, the state, and what the system reads and draws.
use modem2sip.Common.{ℕ, Bool, List, Option, none, some, if◌then◌else◌, ◌==◌}
use modem2sip.Text.{Bytes, Text}
use modem2sip.Registrar.{Registrar}
use modem2sip.Sip.Headers.{Target}
use modem2sip.Sip.Message.{Request}
use modem2sip.Core.Transactions.{Cache}
use modem2sip.Core.Nonces.{Seen}
use modem2sip.Core.PendingAcks.{Acks}
use modem2sip.Core.Addresses.{IpAddr, v4, v6}

pub record SocketAddr : Type 0 where
  pub ip : IpAddr
  pub port : ℕ

-- What is not in the repository: the hash, the target, the text of an address, and the route to one.
pub record Env : Type 0 where
  pub md5 : Bytes → Bytes
  pub target : Target
  pub parse_ip : Text → Option IpAddr
  pub ip_text : IpAddr → Text
  pub local_ip_for : SocketAddr → Option IpAddr

pub record Login : Type 0 where
  pub username : Text
  pub password : Text

-- The configuration, the bound socket, and the secret of the nonce factory.
pub record Config : Type 0 where
  pub allow : List Text
  pub auth : Option Login
  pub domain : Option Text
  pub user_agent : Text
  pub options_reflect_modem : Bool
  pub retry_after_secs : ℕ
  pub public_ip : Option IpAddr
  pub bound : SocketAddr
  pub secret : Text

-- The parts of `SipCore` that handling a request changes.
pub record Core : Type 0 where
  pub server_cache : Cache
  pub nonce_seen : Seen
  pub pending_ack : Acks
  pub registrar : Registrar SocketAddr

-- The readings of the clocks (instants in nanoseconds, the time of day in seconds), in the order in
-- which a request takes them, those of the loops by round; the modem's flag; the random bytes of a
-- tag; and the name of a new flag.
pub record Readings : Type 0 where
  pub claimed : ℕ
  pub checked : ℕ
  pub counted : ℕ
  pub issued : ℕ
  pub updated : ℕ → ℕ × ℕ
  pub listed : ℕ
  pub remaining : ℕ → ℕ
  pub recorded : ℕ
  pub modem_ready : Bool
  pub drawn : Bytes
  pub new_flag : ℕ

-- Everything that leaves the core: a datagram, a timer that repeats one, a request for the gateway.
pub data Effect : Type 0 where
  sends : Bytes → SocketAddr → Effect
  repeats : Text → ℕ → Bytes → SocketAddr → Effect
  hands_over : Request → SocketAddr → Effect

abbrev pub is_unspecified : IpAddr → Bool
is_unspecified (v4 a) = a == 0
is_unspecified (v6 a) = a == 0

abbrev pub localhost : IpAddr
localhost = v4 2130706433

abbrev pub routed_ip : Option IpAddr → IpAddr
routed_ip none = localhost
routed_ip (some ip) = ip

abbrev pub ip_or_routed : Env → Config → SocketAddr → Option IpAddr → IpAddr
ip_or_routed env cfg dest (some ip) = ip
ip_or_routed env cfg dest none =
    if is_unspecified cfg.bound.ip then routed_ip (env.local_ip_for dest) else cfg.bound.ip

unfoldable pub advertised_ip : Env → Config → SocketAddr → IpAddr
advertised_ip env cfg dest = ip_or_routed env cfg dest cfg.public_ip

abbrev pub or_bound : Env → Config → Option Text → Text
or_bound env cfg none = env.ip_text cfg.bound.ip
or_bound env cfg (some d) = d

unfoldable pub domain_of : Env → Config → Text
domain_of env cfg = or_bound env cfg cfg.domain
