-- ===== src/Number.antt =====
-- src/state.rs: how a number that comes from the mobile side is written for a SIP client.
pub mod Local
use modem2sip.Common.{Bool, true, false, List, [], ◌∷◌, ◌++◌, Option, none, some, map}
use modem2sip.Text.{Text}
use modem2sip.Text.Ops.{strip_prefix, trim}
use modem2sip.Wsp.Tables.{unwrap_or}

-- `s.strip_prefix('+').unwrap_or(s)`.
unfoldable pub strip_plus : Text → Text
strip_plus s = unwrap_or (strip_prefix s (b'+' ∷ [])) s

abbrev pub non_empty : Text → Option Text
non_empty [] = none
non_empty (c ∷ s) = some (c ∷ s)

-- The country code without white space and plus, unless nothing is left.
unfoldable pub country_digits : Option Text → Option Text
country_digits none = none
country_digits (some c) = non_empty (strip_plus (trim c))

-- What is behind the country code, or the number itself when nothing is.
abbrev pub national_form : Text → Text → Option Text → Text
national_form national_prefix number none = number
national_form national_prefix number (some []) = number
national_form national_prefix number (some (c ∷ rest)) = national_prefix ++ c ∷ rest

abbrev pub swap_prefix : Text → Text → Option Text → Text
swap_prefix national_prefix number none = number
swap_prefix national_prefix number (some code) =
    national_form national_prefix number (strip_prefix (strip_plus number) code)

unfoldable pub to_national : Text → Option Text → Text → Text
to_national number country_code national_prefix =
    swap_prefix national_prefix (trim number) (country_digits country_code)

-- `cfg.modem`, as far as `local_number` reads it.
pub record ModemConfig : Type 0 where
  pub country_code : Option Text
  pub national_prefix : Text

unfoldable pub local_number : ModemConfig → Text → Text
local_number cfg number = to_national number cfg.country_code cfg.national_prefix
