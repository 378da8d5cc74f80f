-- ===== src/Uri/Host.antt =====
-- The host and the port, as they are written and read back.
use modem2sip.Common.{ℕ, ◌&&◌, not, [], ◌∷◌, ◌++◌, Option, none, some, if◌then◌else◌}
use modem2sip.Text.{Text}
use modem2sip.Text.Ops.{
  contains_char, strip_prefix, split_once, rsplit_once, parse_unsigned, trim, starts_with,
}

unfoldable pub host_for_wire : Text → Text
host_for_wire host =
    if contains_char host b':' && not (starts_with host (b'[' ∷ []))
    then b'[' ∷ host ++ b']' ∷ []
    else host

abbrev pub u16_max : ℕ
u16_max = 65535

-- `.and_then(|p| p.parse().ok())`.
abbrev pub port_of : Option Text → Option ℕ
port_of none = none
port_of (some p) = parse_unsigned u16_max p

-- `s` is the whole text, for a port that is no number.
abbrev pub with_parsed_port : Text → Text → Option ℕ → Text × Option ℕ
with_parsed_port s h none = (s, none)
with_parsed_port s h (some port) = (h, some port)

abbrev pub host_and_port : Text → Option (Text × Text) → Text × Option ℕ
host_and_port s none = (s, none)
host_and_port s (some (h, p)) =
    if contains_char h b':' then (s, none) else with_parsed_port s h (parse_unsigned u16_max p)

-- Behind a bracket; without its end the text is read as any other.
abbrev pub reference_and_port : Text → Option (Text × Text) → Text × Option ℕ
reference_and_port s none = host_and_port s (rsplit_once b':' s)
reference_and_port s (some (host, rest)) = (host, port_of (strip_prefix rest (b':' ∷ [])))

abbrev pub trimmed_host_port : Text → Option Text → Text × Option ℕ
trimmed_host_port s none = host_and_port s (rsplit_once b':' s)
trimmed_host_port s (some rest) = reference_and_port s (split_once b']' rest)

unfoldable pub split_host_port : Text → Text × Option ℕ
split_host_port s = trimmed_host_port (trim s) (strip_prefix (trim s) (b'[' ∷ []))
