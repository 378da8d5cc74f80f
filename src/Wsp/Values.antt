-- ===== src/Wsp/Values.antt =====
-- The methods of `Reader` for integers, encoded strings, content types and unknown values.
use modem2sip.Common.{
  ℕ, zero, suc, ◌+◌, ◌-◌, ◌*◌, ◌/◌, ◌%◌, ◌^◌, Bool, true, false, not, ◌&&◌, ◌||◌, List, [], ◌∷◌,
  ◌++◌, Option, none, some, length, take, drop, if◌then◌else◌, ltb, leb, ◌==◌,
}
use modem2sip.Text.{Bytes, Text, codes}
use modem2sip.Text.Ops.{starts_with}
use modem2sip.Wsp.Env.{Env}
use modem2sip.Wsp.Reader.{
  Reader, Read, ◌>>=◌, ◌>>◌, return, fail, bump, with_default, high_bit, low_bits, advance,
  inner_of, eof, peek, peeked, u8, take_bytes, uintvar, text_string, bounded_value_length,
}
use modem2sip.Wsp.Tables.{Charset, unwrap_or, charset_for, content_type_name, param_name}

-- `bytes.iter().fold(acc, |acc, b| (acc << 8) | b)` on a u64.
unfoldable pub fold_be : ℕ → Bytes → ℕ
fold_be acc [] = acc
fold_be acc (b ∷ bs) = fold_be (acc * 256 % 2 ^ 64 + b) bs

unfoldable pub long_int : Read ℕ
long_int = do
  len ← u8
  if len == 0 || ltb 8 len then fail else (do bytes ← take_bytes len; return (fold_be 0 bytes))

unfoldable pub integer_value : Read ℕ
integer_value = do b ← peeked; if high_bit b then (do bump 1; return (low_bits b)) else long_int

-- The decimal digits of a u64, `to_string`; 20 are enough.
unfoldable pub decimal_onto : ℕ → ℕ → Text → Text
decimal_onto zero n out = out
decimal_onto (suc fuel) n out =
    let more = decimal_onto fuel (n / 10) ((b'0' + n % 10) ∷ out) in
    if ltb n 10 then (b'0' + n) ∷ out else more

unfoldable pub to_string : ℕ → Text
to_string n = decimal_onto 20 n []

abbrev pub all_zero : Bytes → Bool
all_zero [] = true
all_zero (b ∷ bs) = b == 0 && all_zero bs

-- The terminating NULs of an encoded string, cut off if they are there.
unfoldable pub cut_terminator : ℕ → Bytes → Bytes
cut_terminator n raw =
    if leb n (length raw) && all_zero (drop (length raw - n) raw)
    then take (length raw - n) raw
    else raw

abbrev pub lookup_parameter : ℕ → Text
lookup_parameter code = unwrap_or (param_name code) (codes "x-unknown")

-- `self.pos -= n`.
abbrev pub back : ℕ → Read (Unit {0})
back n r = (some tt, record r { pos = r.pos - n })

-- A content type and its parameters.
abbrev pub ContentType : Type 0
ContentType = Text × List (Text × Text)

abbrev pub push_parameter :
    (Reader → List (Text × Text) → List (Text × Text))
    → List (Text × Text)
    → Option (Text × Text) × Reader
    → List (Text × Text)
push_parameter next out (none, r) = out
push_parameter next out (some p, r) = next r (out ++ p ∷ [])

abbrev pub with_parameters :
    (Reader → List (Text × Text)) → Option Text × Reader → Option ContentType
with_parameters f (none, r) = none
with_parameters f (some name, r) = some (name, f r)

module _ (env : Env) where
  abbrev pub terminator_length : Charset → ℕ
  terminator_length cs = if starts_with (env.name cs) (codes "UTF-16") then 2 else 1

  -- The text behind the character set of an encoded string.
  unfoldable pub encoded_text : ℕ → Bytes → Text
  encoded_text mib raw =
      let cs = charset_for (mib % 2 ^ 32) in
      env.decode cs (cut_terminator (terminator_length cs) raw)

  abbrev pub encoded_inner : Option ℕ × Reader → Text
  encoded_inner (mib, inner) = encoded_text (unwrap_or mib 106) (drop inner.pos inner.buf)

  unfoldable pub encoded_string : Read Text
  encoded_string = do
    b ← peeked
    if leb 0x20 b && not (b == 0x7F) then text_string else if b == 0x7F then text_string else (do
      len ← bounded_value_length env
      λ r. (some (encoded_inner (integer_value (inner_of len r))), advance len r))

  -- The charset parameter: a well-known integer or a text.
  abbrev pub charset_at : Option ℕ → Read Text
  charset_at none = with_default [] text_string
  charset_at (some p) =
      if high_bit p || ltb p 0x20
      then with_default [] (do v ← integer_value; return (env.name (charset_for (v % 2 ^ 32))))
      else with_default [] text_string

  unfoldable pub charset_value : Read Text
  charset_value r = charset_at (peek r) r

  -- The value of a typed parameter; every branch returns some text.
  unfoldable pub parameter_value : ℕ → Read Text
  parameter_value code =
      if code == 0x10
      then return []
      else if code == 0x00
      then with_default [] (do v ← uintvar; return (to_string v))
      else if code == 0x02 || code == 0x0E || code == 0x16
      then with_default [] (do v ← integer_value; return (to_string v))
      else if code == 0x01
      then charset_value
      else with_default [] encoded_string

  unfoldable pub parameter : Read (Text × Text)
  parameter = do
    b ← u8
    if high_bit b
        then (do
          value ← parameter_value (low_bits b)
          return (lookup_parameter (low_bits b), value))
        else (do
          back 1
          name ← text_string
          value ← with_default [] encoded_string
          return (name, value))

  -- `while !inner.eof() { let Some(..) = inner.parameter() else { break }; .. }`
  unfoldable pub parameters : ℕ → Reader → List (Text × Text) → List (Text × Text)
  parameters zero r out = out
  parameters (suc fuel) r out = elim (eof r) [
    | true ↦ out
    | false ↦ push_parameter (parameters fuel) out (parameter r)
  ]

  -- A name and its parameters, in the slice that the value's length gives. A parameter takes a byte
  -- at least, so the slice's length is enough rounds.
  unfoldable pub content_type_inner : Reader → Option (ContentType)
  content_type_inner inner =
      with_parameters (λ r. parameters (length inner.buf) r [])
        ((do
          b ← peeked
          if high_bit b then (do bump 1; return (content_type_name (low_bits b))) else text_string)
          inner)

  unfoldable pub content_type : Read ContentType
  content_type = do
    b ← peeked
    if high_bit b
        then (do bump 1; return (content_type_name (low_bits b), []))
        else if leb 0x20 b
        then (do t ← text_string; return (t, []))
        else (do
          len ← bounded_value_length env
          λ r. (content_type_inner (inner_of len r), advance len r))

  unfoldable pub skip_value : Read (Unit {0})
  skip_value = do
    b ← peeked
    if leb b 30 || b == 0x1F
        then (do len ← bounded_value_length env; taken ← take_bytes len; return tt)
        else if high_bit b
        then bump 1
        else (do t ← text_string; return tt)
