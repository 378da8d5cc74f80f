-- ===== src/Uri/Parse.antt =====
-- Parsing and printing of URIs and name-addrs, and their parameters.
use modem2sip.Common.{ℕ, Bool, ◌||◌, List, [], ◌∷◌, ◌++◌, Option, none, some, if◌then◌else◌, ◌==◌}
use modem2sip.Text.{Text, codes}
use modem2sip.Text.Ops.{
  equal, to_ascii_lowercase, eq_ignore_ascii_case, trim, trim_start, is_whitespace, split_once,
  rsplit_once, split, strip_prefix, starts_with, decimal,
}
use modem2sip.Wsp.Tables.{unwrap_or}
use modem2sip.Uri.{Uri, NameAddr}
use modem2sip.Uri.Host.{split_host_port, host_for_wire}

-- The part before the first `x`, and the part behind it, if there is one.
abbrev pub before_and_behind : Text → Option (Text × Text) → Text × Option Text
before_and_behind s none = (s, none)
before_and_behind s (some (a, b)) = (a, some b)

unfoldable pub cut : ℕ → Text → Text × Option Text
cut x s = before_and_behind s (split_once x s)

abbrev pub behind_last : Text → Option (Text × Text) → Option Text × Text
behind_last s none = (none, s)
behind_last s (some (a, b)) = (some a, b)

abbrev pub user_and_password : Option Text → Option Text × Option Text
user_and_password none = (none, none)
user_and_password (some ui) = let (u, p) = cut b':' ui in (some u, p)

abbrev pub uri_param : Text × Option Text → Text × Option Text
uri_param (k, v) = (to_ascii_lowercase k, v)

unfoldable pub parse_uri_params : List Text → List (Text × Option Text)
parse_uri_params [] = []
parse_uri_params ([] ∷ ps) = parse_uri_params ps
parse_uri_params ((c ∷ p) ∷ ps) = uri_param (cut b'=' (c ∷ p)) ∷ parse_uri_params ps

abbrev pub push_header : Option (Text × Text) → List (Text × Text) → List (Text × Text)
push_header none l = l
push_header (some h) l = h ∷ l

-- A header without `=` is left out.
unfoldable pub parse_uri_headers : List Text → List (Text × Text)
parse_uri_headers [] = []
parse_uri_headers ([] ∷ hs) = parse_uri_headers hs
parse_uri_headers ((c ∷ h) ∷ hs) = push_header (split_once b'=' (c ∷ h)) (parse_uri_headers hs)

-- `if let Some(text)`, and the items of `split`.
abbrev pub items : ℕ → Option Text → List Text
items x none = []
items x (some s) = split x s

-- A `tel` URI is all user.
abbrev pub address_of : Text → Option Text → Text → Option Text × Text × Option ℕ
address_of scheme user hostport =
    if equal scheme (codes "tel")
    then (some (trim hostport), [], none)
    else (let (host, port) = split_host_port hostport in (user, host, port))

unfoldable pub uri_of : Text → Text → Uri
uri_of scheme rest =
    let (before_headers, headers_str) = cut b'?' rest in
    let (userinfo_host, params_str) = cut b';' before_headers in
    let (userinfo, hostport) = behind_last userinfo_host (rsplit_once b'@' userinfo_host) in
    let (user, password) = user_and_password userinfo in
    let (user2, host, port) = address_of scheme user hostport in
    record {
      scheme = scheme;
      user = user2;
      password = password;
      host = host;
      port = port;
      params = parse_uri_params (items b';' params_str);
      headers = parse_uri_headers (items b'&' headers_str);
    }

abbrev pub known_scheme : Text → Bool
known_scheme s = equal s (codes "sip") || equal s (codes "sips") || equal s (codes "tel")

abbrev pub uri_with : Option (Text × Text) → Option Uri
uri_with none = none
uri_with (some (scheme, rest)) =
    let name = to_ascii_lowercase (trim scheme) in
    if known_scheme name then some (uri_of name rest) else none

unfoldable pub parse : Text → Option Uri
parse s = uri_with (split_once b':' (trim s))

-- `.find(|(k, _)| k.eq_ignore_ascii_case(name))`, and `retain` of the others.
module _ {ℓ} {A : Type ℓ} where
  unfoldable pub find_param : Text → List (Text × A) → Option A
  find_param name [] = none
  find_param name ((k, v) ∷ ps) =
      let rest = find_param name ps in if eq_ignore_ascii_case k name then some v else rest

  unfoldable pub without_param : Text → List (Text × A) → List (Text × A)
  without_param name [] = []
  without_param name ((k, v) ∷ ps) =
      let rest = without_param name ps in
      if eq_ignore_ascii_case k name then rest else (k, v) ∷ rest

-- `.and_then(|(_, v)| v.as_deref())`.
abbrev pub value_of : Option (Option Text) → Option Text
value_of none = none
value_of (some v) = v

unfoldable pub param : Uri → Text → Option Text
param u name = value_of (find_param name u.params)

unfoldable pub set_param : Uri → Text → Option Text → Uri
set_param u name value = record u { params = without_param name u.params ++ (name, value) ∷ [] }

abbrev pub userinfo_text : Text → Option Text → Option Text → Text
userinfo_text host none password = []
userinfo_text host (some u) none = u ++ (elim host [ [] ↦ [] | c ∷ h ↦ b'@' ∷ [] ])
userinfo_text host (some u) (some p) = u ++ b':' ∷ p ++ (elim host [ [] ↦ [] | c ∷ h ↦ b'@' ∷ [] ])

abbrev pub port_text : Option ℕ → Text
port_text none = []
port_text (some p) = b':' ∷ decimal p

unfoldable pub uri_params_text : List (Text × Option Text) → Text
uri_params_text [] = []
uri_params_text ((k, none) ∷ ps) = b';' ∷ k ++ uri_params_text ps
uri_params_text ((k, some v) ∷ ps) = b';' ∷ k ++ b'=' ∷ v ++ uri_params_text ps

-- `joined.join("&")`, behind a first header.
unfoldable pub more_headers_text : List (Text × Text) → Text
more_headers_text [] = []
more_headers_text ((k, v) ∷ hs) = b'&' ∷ k ++ b'=' ∷ v ++ more_headers_text hs

abbrev pub headers_text : List (Text × Text) → Text
headers_text [] = []
headers_text ((k, v) ∷ hs) = b'?' ∷ k ++ b'=' ∷ v ++ more_headers_text hs

-- `Display` for `Uri`.
unfoldable pub uri_text : Uri → Text
uri_text u =
    u.scheme
    ++ b':' ∷ userinfo_text u.host u.user u.password
    ++ host_for_wire u.host
    ++ port_text u.port
    ++ uri_params_text u.params
    ++ headers_text u.headers

-- What stands before the URI and the rest; `none` for a quote without its end.
abbrev pub quoted_display : Option (Text × Text) → Option (Option Text × Text)
quoted_display none = none
quoted_display (some (d, rest)) = some (some d, trim_start is_whitespace rest)

abbrev pub bare_display : Text → Option (Text × Text) → Option Text × Text
bare_display s none = (none, s)
bare_display s (some (d, rest)) = (elim (trim d) [ [] ↦ none | c ∷ t ↦ some (c ∷ t) ], b'<' ∷ rest)

unfoldable pub display_of : Text → Option (Option Text × Text)
display_of s = elim (strip_prefix s (b'"' ∷ [])) [
  | some stripped ↦ quoted_display (split_once b'"' stripped)
  | none ↦
      some (if starts_with s (b'<' ∷ []) then (none, s) else bare_display s (split_once b'<' s))
]

abbrev pub bracketed : Option (Text × Text) → Option (Text × Text)
bracketed none = none
bracketed (some (uri, rest)) = some (uri, trim_start is_whitespace rest)

-- The URI and the header's parameters.
unfoldable pub uri_and_params : Text → Option (Text × Text)
uri_and_params rest = elim (strip_prefix rest (b'<' ∷ [])) [
  | some inside ↦ bracketed (split_once b'>' inside)
  | none ↦ (let (u, p) = cut b';' rest in some (u, unwrap_or p []))
]

abbrev pub name_addr_param : Text × Option Text → Text × Text
name_addr_param (k, none) = (to_ascii_lowercase k, [])
name_addr_param (k, some v) = (to_ascii_lowercase (trim k), trim v)

abbrev pub push_param : Text → List (Text × Text) → List (Text × Text)
push_param [] l = l
push_param (c ∷ p) l = name_addr_param (cut b'=' (c ∷ p)) ∷ l

unfoldable pub parse_name_addr_params : List Text → List (Text × Text)
parse_name_addr_params [] = []
parse_name_addr_params (p ∷ ps) = push_param (trim p) (parse_name_addr_params ps)

abbrev pub name_addr_with : Option Text → Text → Option Uri → Option NameAddr
name_addr_with display params none = none
name_addr_with display params (some uri) = some (record {
  display = display;
  uri = uri;
  params = parse_name_addr_params (split b';' (trim_start (λ c. c == b';') params));
})

abbrev pub name_addr_rest : Option Text → Option (Text × Text) → Option NameAddr
name_addr_rest display none = none
name_addr_rest display (some (uri, params)) = name_addr_with display params (parse uri)

abbrev pub name_addr_behind : Option (Option Text × Text) → Option NameAddr
name_addr_behind none = none
name_addr_behind (some (display, rest)) = name_addr_rest display (uri_and_params rest)

unfoldable pub parse_name_addr : Text → Option NameAddr
parse_name_addr s = name_addr_behind (display_of (trim s))

unfoldable pub name_addr_value : NameAddr → Text → Option Text
name_addr_value a name = find_param name a.params

unfoldable pub set_name_addr_param : NameAddr → Text → Option Text → NameAddr
set_name_addr_param a name value = record a {
  params = without_param name a.params ++ (to_ascii_lowercase name, unwrap_or value []) ∷ [];
}

abbrev pub tag : NameAddr → Option Text
tag a = name_addr_value a (codes "tag")

abbrev pub with_tag : NameAddr → Text → NameAddr
with_tag a t = set_name_addr_param a (codes "tag") (some t)

abbrev pub display_text : Option Text → Text
display_text none = []
display_text (some d) = b'"' ∷ d ++ b'"' ∷ b' ' ∷ []

unfoldable pub name_addr_params_text : List (Text × Text) → Text
name_addr_params_text [] = []
name_addr_params_text ((k, []) ∷ ps) = b';' ∷ k ++ name_addr_params_text ps
name_addr_params_text ((k, c ∷ v) ∷ ps) = b';' ∷ k ++ b'=' ∷ (c ∷ v) ++ name_addr_params_text ps

-- `Display` for `NameAddr`.
unfoldable pub name_addr_text : NameAddr → Text
name_addr_text a =
    display_text a.display ++ b'<' ∷ uri_text a.uri ++ b'>' ∷ name_addr_params_text a.params
