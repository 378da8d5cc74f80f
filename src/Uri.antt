-- ===== src/Uri.antt =====
-- src/sip/uri.rs: SIP URIs and name-addrs.
pub mod Host
pub mod Parse
pub mod Params
pub mod HostPort
use modem2sip.Common.{ℕ, List, [], Option, none}
use modem2sip.Text.{Text, codes}

pub record Uri : Type 0 where
  pub scheme : Text
  pub user : Option Text
  pub password : Option Text
  pub host : Text
  pub port : Option ℕ
  pub params : List (Text × Option Text)
  pub headers : List (Text × Text)

abbrev pub new : Option Text → Text → Option ℕ → Uri
new user host port = record {
  scheme = codes "sip";
  user = user;
  password = none;
  host = host;
  port = port;
  params = [];
  headers = [];
}

-- Without password, parameters and headers.
abbrev pub bare : Uri → Uri
bare u = record u { password = none; params = []; headers = [] }

pub record NameAddr : Type 0 where
  pub display : Option Text
  pub uri : Uri
  pub params : List (Text × Text)

abbrev pub new_name_addr : Uri → NameAddr
new_name_addr uri = record { display = none; uri = uri; params = [] }
