-- ===== src/Tests/Sip.antt =====
-- URIs and the registrar at concrete inputs.
use modem2sip.Common.{ℕ, ◌<◌, ◌≡◌, refl, arith, false, [], ◌∷◌, ◌++◌, none, some, All}
use modem2sip.Text.{codes}
use modem2sip.Text.Ops.{
  is_whitespace, starts_with, contains_char, equal, to_ascii_lowercase, eq_ignore_ascii_case,
}
use modem2sip.Uri.{Uri, NameAddr, new, new_name_addr}
use modem2sip.Uri.Host.{host_for_wire, split_host_port}
use modem2sip.Uri.Parse.{port_text, name_addr_value, set_name_addr_param, tag, with_tag}
use modem2sip.Uri.Params.{name_addr_value-set_name_addr_param}
use modem2sip.Uri.HostPort.{IsHost, split_host_port-host_for_wire}
use modem2sip.Registrar.{Binding, Registrar, values, update, remove_all, contacts, newest}
use modem2sip.Registrar.Lookup.{Newest, newest-Newest}
use modem2sip.Registrar.Invariant.{Distinct, IsRegistrar, update-IsRegistrar}

loopback-IsHost : IsHost (codes "::1")
unfolding is_whitespace starts_with contains_char
loopback-IsHost = record {
  no_space = (refl, (refl, (refl, tt)));
  no_opening = refl;
  no_closing = refl;
}

split_host_port-host_for_wire_example :
    split_host_port (host_for_wire (codes "::1") ++ port_text (some 5060))
    ≡ (codes "::1", some 5060)
split_host_port-host_for_wire_example =
    split_host_port-host_for_wire (codes "::1") (some 5060) loopback-IsHost (omega arith)

abbrev alice : Uri
alice = new (some (codes "alice")) (codes "example.org") none

other_name : eq_ignore_ascii_case (codes "expires") (codes "q") ≡ false
unfolding eq_ignore_ascii_case equal to_ascii_lowercase
other_name = refl

abbrev contact : NameAddr
contact = new_name_addr alice

name_addr_value-set_name_addr_param_example :
    (name_addr_value
        (set_name_addr_param contact (codes "expires") (some (codes "60")))
        (codes "expires")
      ≡ some (codes "60"))
    × (name_addr_value
          (set_name_addr_param contact (codes "expires") (some (codes "60")))
          (codes "q")
        ≡ name_addr_value contact (codes "q"))
    × (tag (with_tag contact (codes "60")) ≡ some (codes "60"))
name_addr_value-set_name_addr_param_example =
    name_addr_value-set_name_addr_param contact (codes "expires") (codes "q") (codes "60")
      other_name

abbrev binding : Binding ℕ
binding = record { contact = contact; source = 5060; expires_at = 90; registered_at = 30 }

abbrev registered : Registrar ℕ
registered = (codes "alice", binding ∷ []) ∷ []

registered-IsRegistrar : IsRegistrar registered
unfolding IsRegistrar Distinct
registered-IsRegistrar = ((λ e. ground arith), (tt, tt), tt)

newest-Newest_example :
    All (λ b. 40 < b.expires_at) (values (newest registered 40).1)
    × Newest 40 (values (newest registered 40).1) (newest registered 40).0
newest-Newest_example = newest-Newest registered 40

update-IsRegistrar_example :
    IsRegistrar (update registered (codes "bob") contact 5080 60 40 41)
    × IsRegistrar (remove_all registered (codes "bob"))
    × IsRegistrar (contacts registered (codes "bob") 40).1
    × IsRegistrar (newest registered 40).1
update-IsRegistrar_example =
    update-IsRegistrar registered (codes "bob") contact 5080 60 40 41 registered-IsRegistrar
