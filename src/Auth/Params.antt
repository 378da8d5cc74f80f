-- ===== src/Auth/Params.antt =====
-- `parse_params`, and the header values around it.
use modem2sip.Common.{
  ℕ, zero, suc, Bool, true, ◌||◌, [], ◌∷◌, ◌++◌, Option, none, some, if◌then◌else◌, ◌==◌, length,
}
use modem2sip.Text.{Text, codes}
use modem2sip.Text.Ops.{
  equal, to_ascii_lowercase, eq_ignore_ascii_case, trim, is_whitespace, trim_start,
}
use modem2sip.Text.Words.{split_once_where}
use modem2sip.Text.Table.{Table, lookup, insert}
use modem2sip.Sip.Via.{and_then}

-- `u8::is_ascii_whitespace`, which leaves the vertical tab out.
abbrev pub is_ascii_whitespace : ℕ → Bool
is_ascii_whitespace c = c == b' ' || c == 9 || c == 10 || c == 12 || c == 13

abbrev pub is_separator : ℕ → Bool
is_separator c = c == b',' || is_ascii_whitespace c

abbrev pub ends_key : ℕ → Bool
ends_key c = c == b'=' || c == b','

-- The characters before the first that passes the test, and the text from it on.
unfoldable pub scan : (ℕ → Bool) → Text → Text × Text
scan test [] = ([], [])
scan test (c ∷ s) = let (a, b) = scan test s in if test c then ([], c ∷ s) else (c ∷ a, b)

-- A quoted value, behind its opening quote: the closing one is skipped.
abbrev pub behind_quote : Text × Text → Text × Text
behind_quote (v, []) = (v, [])
behind_quote (v, q ∷ rest) = (v, rest)

abbrev pub bare_value : Text × Text → Text × Text
bare_value (v, rest) = (trim v, rest)

unfoldable pub param_value : Text → Text × Text
param_value [] = ([], [])
param_value (c ∷ s) =
    if c == b'"'
    then behind_quote (scan (λ d. d == b'"') s)
    else bare_value (scan (λ d. d == b',') (c ∷ s))

-- What stands behind a key: nothing, a comma, or an equals sign and a value.
abbrev pub key_value : Text → Text × Text
key_value [] = ([], [])
key_value (c ∷ s) =
    if c == b',' then ([], c ∷ s) else param_value (trim_start is_ascii_whitespace s)

-- A round of the loop: the entry, and the text that is left.
abbrev pub param_round : Text → Text × Text × Text
param_round s =
    let (key, rest) = scan ends_key (trim_start is_separator s) in
    let (value, left) = key_value rest in (to_ascii_lowercase (trim key), value, left)

-- The loop, with the table so far. Each round takes a character at least.
unfoldable pub params_from : ℕ → Text → Table Text → Table Text
params_from zero s table = table
params_from (suc fuel) s table =
    let (key, value, left) = param_round s in
    let rest = params_from fuel left (insert key value table) in
    if equal key [] then table else rest

unfoldable pub parse_params : Text → Table Text
parse_params s = params_from (suc (length s)) s []

abbrev pub or_empty : Option Text → Text
or_empty none = []
or_empty (some s) = s

pub record Challenge : Type 0 where
  pub realm : Text
  pub nonce : Text
  pub opaque : Option Text
  pub qop : Option Text
  pub algorithm : Option Text

abbrev pub is_supported_algorithm : Option Text → Bool
is_supported_algorithm none = true
is_supported_algorithm (some a) =
    eq_ignore_ascii_case a (codes "MD5") || eq_ignore_ascii_case a (codes "MD5-sess")

unfoldable pub is_supported : Challenge → Bool
is_supported c = is_supported_algorithm c.algorithm

-- The parameters behind the scheme, which has to be Digest.
abbrev pub digest_params : Text × Text → Option (Table Text)
digest_params (scheme, rest) =
    if eq_ignore_ascii_case scheme (codes "Digest") then some (parse_params rest) else none

unfoldable pub digest_table : Text → Option (Table Text)
digest_table value = and_then (split_once_where is_whitespace (trim value)) digest_params

abbrev challenge_of : Table Text → Challenge
challenge_of p = record {
  realm = or_empty (lookup (codes "realm") p);
  nonce = or_empty (lookup (codes "nonce") p);
  opaque = lookup (codes "opaque") p;
  qop = lookup (codes "qop") p;
  algorithm = lookup (codes "algorithm") p;
}

unfoldable pub parse_challenge : Text → Option Challenge
parse_challenge value = and_then (digest_table value) (λ p. some (challenge_of p))

pub record Credentials : Type 0 where
  pub username : Text
  pub realm : Text
  pub nonce : Text
  pub uri : Text
  pub response : Text
  pub algorithm : Option Text
  pub cnonce : Option Text
  pub nc : Option Text
  pub qop : Option Text
  pub opaque : Option Text

abbrev pub credentials_of : Table Text → Credentials
credentials_of p = record {
  username = or_empty (lookup (codes "username") p);
  realm = or_empty (lookup (codes "realm") p);
  nonce = or_empty (lookup (codes "nonce") p);
  uri = or_empty (lookup (codes "uri") p);
  response = or_empty (lookup (codes "response") p);
  algorithm = lookup (codes "algorithm") p;
  cnonce = lookup (codes "cnonce") p;
  nc = lookup (codes "nc") p;
  qop = lookup (codes "qop") p;
  opaque = lookup (codes "opaque") p;
}

unfoldable pub parse_credentials : Text → Option Credentials
parse_credentials value = and_then (digest_table value) (λ p. some (credentials_of p))

abbrev pub quoted_field : Text → Text → Text
quoted_field name value = name ++ (b'=' ∷ b'"' ∷ (value ++ codes "\""))

abbrev pub more_field : Text → Option Text → Text
more_field name none = []
more_field name (some v) = codes ", " ++ (name ++ (b'=' ∷ v))

abbrev pub more_quoted : Text → Option Text → Text
more_quoted name none = []
more_quoted name (some v) = codes ", " ++ quoted_field name v

-- The count and the client's nonce are written with a qop only.
abbrev pub qop_fields : Credentials → Option Text → Text
qop_fields c none = []
qop_fields c (some q) =
    more_field (codes "qop") (some q)
    ++ (more_field (codes "nc") c.nc ++ more_quoted (codes "cnonce") c.cnonce)

unfoldable pub to_header : Credentials → Text
to_header c =
    codes "Digest "
    ++ (quoted_field (codes "username") c.username
        ++ (more_quoted (codes "realm") (some c.realm)
            ++ (more_quoted (codes "nonce") (some c.nonce)
                ++ (more_quoted (codes "uri") (some c.uri)
                    ++ (more_quoted (codes "response") (some c.response)
                        ++ (more_field (codes "algorithm") c.algorithm
                            ++ (qop_fields c c.qop ++ more_quoted (codes "opaque") c.opaque)))))))
