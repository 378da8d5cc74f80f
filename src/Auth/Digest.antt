-- ===== src/Auth/Digest.antt =====
-- The digest, on the side of the client and of the server.
use modem2sip.Common.{
  ℕ, zero, suc, ◌+◌, ◌-◌, ◌/◌, ◌%◌, Bool, false, ◌&&◌, List, [], ◌∷◌, ◌++◌, Option, none, some,
  if◌then◌else◌, ◌==◌, ltb, length,
}
use Prim.Native.Nat.{bit_or, bit_xor}
use modem2sip.Text.{Bytes, Text, codes, as_bytes}
use modem2sip.Text.Ops.{eq_ignore_ascii_case, trim, split}
use modem2sip.Auth.Params.{Challenge, Credentials, or_empty}

abbrev pub hex_digit : ℕ → ℕ
hex_digit d = if ltb d 10 then b'0' + d else b'a' + (d - 10)

-- `{b:02x}` of each byte.
unfoldable pub hex : Bytes → Text
hex [] = []
hex (b ∷ bs) = hex_digit (b / 16) ∷ hex_digit (b % 16) ∷ hex bs

-- `{n:08x}`.
unfoldable pub hex_from : ℕ → ℕ → Text
hex_from zero n = []
hex_from (suc k) n = hex_from k (n / 16) ++ hex_digit (n % 16) ∷ []

abbrev pub hex8 : ℕ → Text
hex8 n = hex_from 8 n

-- `random_hex`, of the bytes that the generator gives.
abbrev pub random_hex : Bytes → Text
random_hex drawn = hex drawn

-- Texts with a colon between them.
abbrev pub with_colons : List Text → Text
with_colons [] = []
with_colons (s ∷ []) = s
with_colons (s ∷ t ∷ ts) = s ++ (b':' ∷ with_colons (t ∷ ts))

abbrev pub is_option : Text → Option Text → Bool
is_option name none = false
is_option name (some s) = eq_ignore_ascii_case s name

-- `find(|s| s.eq_ignore_ascii_case("auth"))`, of the items trimmed.
unfoldable pub find_auth : List Text → Option Text
find_auth [] = none
find_auth (s ∷ ss) =
    let rest = find_auth ss in
    if eq_ignore_ascii_case (trim s) (codes "auth") then some (trim s) else rest

abbrev pub offered_auth : Option Text → Option Text
offered_auth none = none
offered_auth (some q) = find_auth (split b',' q)

abbrev pub given_with {ℓ κ} : {A : Type ℓ} {B : Type κ} → Option A → B → Option B
given_with none b = none
given_with (some a) b = some b

abbrev pub or_first_count : Option Text → Text
or_first_count none = codes "00000001"
or_first_count (some nc) = nc

-- The fold over the pairs of bytes.
unfoldable pub difference : ℕ → Bytes → Bytes → ℕ
difference acc [] _ = acc
difference acc (a ∷ xs) [] = acc
difference acc (a ∷ xs) (b ∷ ys) = difference (bit_or acc (bit_xor a b)) xs ys

unfoldable pub same_bytes : Bytes → Bytes → Bool
same_bytes a b = length a == length b && difference 0 a b == 0

module _ (md5 : Bytes → Bytes) where
  unfoldable pub md5_hex : Bytes → Text
  md5_hex input = hex (md5 input)

  abbrev pub text_digest : List Text → Text
  text_digest parts = md5_hex (as_bytes (with_colons parts))

  abbrev pub first_half : Text → Text → Text → Text → Option Text → Option Text → Text
  first_half username password realm nonce cnonce algorithm =
      let ha1 = text_digest (username ∷ realm ∷ password ∷ []) in
      if is_option (codes "MD5-sess") algorithm
      then text_digest (ha1 ∷ nonce ∷ or_empty cnonce ∷ [])
      else ha1

  abbrev pub second_half : Text → Text → Option Text → Bytes → Text
  second_half method uri qop body =
      if is_option (codes "auth-int") qop
      then text_digest (method ∷ uri ∷ md5_hex body ∷ [])
      else text_digest (method ∷ uri ∷ [])

  abbrev pub joined_halves : Text → Text → Option Text → Option Text → Option Text → Text → Text
  joined_halves ha1 nonce none client nc ha2 = text_digest (ha1 ∷ nonce ∷ ha2 ∷ [])
  joined_halves ha1 nonce (some []) client nc ha2 = text_digest (ha1 ∷ nonce ∷ ha2 ∷ [])
  joined_halves ha1 nonce (some (q ∷ qs)) client nc ha2 =
      text_digest (ha1 ∷ nonce ∷ or_first_count nc ∷ or_empty client ∷ (q ∷ qs) ∷ ha2 ∷ [])

  unfoldable pub digest_response :
      (username password realm nonce method uri : Text) (qop cnonce nc algorithm : Option Text)
      (body : Bytes)
      → Text
  digest_response username password realm nonce method uri qop cnonce nc algorithm body =
      joined_halves (first_half username password realm nonce cnonce algorithm) nonce qop cnonce nc
        (second_half method uri qop body)

  -- `drawn` is what the random generator gives for the client's nonce.
  unfoldable pub answer :
      Challenge → (username password method uri : Text) → Bytes → ℕ → Bytes → Credentials
  answer challenge username password method uri body nc_value drawn =
      let qop = offered_auth challenge.qop in
      let cnonce = given_with qop (random_hex drawn) in
      let nc = given_with qop (hex8 nc_value) in
      record {
        username = username;
        realm = challenge.realm;
        nonce = challenge.nonce;
        uri = uri;
        response =
            digest_response username password challenge.realm challenge.nonce method uri qop cnonce
              nc challenge.algorithm body;
        algorithm = challenge.algorithm;
        cnonce = cnonce;
        nc = nc;
        qop = qop;
        opaque = challenge.opaque;
      }

  abbrev pub expected : Credentials → Text → Text → Bytes → Text
  expected creds password method body =
      digest_response creds.username password creds.realm creds.nonce method creds.uri creds.qop
        creds.cnonce creds.nc creds.algorithm body

  unfoldable pub verify : Credentials → Text → Text → Bytes → Bool
  verify creds password method body =
      same_bytes (as_bytes (expected creds password method body)) (as_bytes creds.response)
