-- ===== src/Tests/Wsp.antt =====
-- A concrete environment, and the theorems on the WSP code at concrete inputs.
use modem2sip.Common.{◌+◌, ◌^◌, ◌-◌, ◌≤◌, ◌≡◌, refl, arith, [], ◌∷◌, ◌++◌, none, some, length}
use modem2sip.Text.{Text, codes, from_utf8_lossy, as_bytes, encode_utf8}
use modem2sip.Text.Utf8.{from_utf8_lossy-as_bytes}
use modem2sip.Wsp.Env.{Env, Utf8Laws}
use modem2sip.Wsp.Tables.{
  Charset, windows_1252, utf_8, utf_16be, utf_16le, euc_kr, shift_jis, euc_jp, big5, gbk, gb18030,
}
use modem2sip.Wsp.Reader.{
  Reader, new, advance, uintvar, bounded_value_length, value_length, peek, remaining,
}
use modem2sip.Wsp.Values.{integer_value, encoded_string}
use modem2sip.Wsp.Writer.{
  write_uintvar, write_text_string, write_integer_value, write_encoded_string,
}
use modem2sip.Wsp.Uintvar.{uintvar-write_uintvar}
use modem2sip.Wsp.Integers.{integer_value-write_integer_value}
use modem2sip.Wsp.Strings.{IsEncodable, encoded_string-write_encoded_string}
use modem2sip.Wsp.Progress.{bounded_value_length-fits}

abbrev charset_name : Charset → Text
charset_name windows_1252 = codes "windows-1252"
charset_name utf_8 = codes "UTF-8"
charset_name utf_16be = codes "UTF-16BE"
charset_name utf_16le = codes "UTF-16LE"
charset_name euc_kr = codes "EUC-KR"
charset_name shift_jis = codes "Shift_JIS"
charset_name euc_jp = codes "EUC-JP"
charset_name big5 = codes "Big5"
charset_name gbk = codes "GBK"
charset_name gb18030 = codes "gb18030"

-- A 64-bit target on which every text is UTF-8.
abbrev pub env64 : Env
env64 = record {
  usize_max = 2 ^ 64 - 1;
  decode = λ charset bytes. from_utf8_lossy bytes;
  name = charset_name;
  for_label = λ label. none;
}

pub laws64 : Utf8Laws env64
laws64 = record {
  utf_8_name = refl;
  decode_utf_8 = λ s chars bom. from_utf8_lossy-as_bytes s chars;
}

abbrev greeting : Text
greeting = 0xC548 ∷ codes "hi"

pub greeting-IsEncodable : IsEncodable env64 greeting
unfolding as_bytes encode_utf8
greeting-IsEncodable = record {
  chars = omega arith;
  no_nul = omega arith;
  starts = omega arith;
  no_bom = omega arith;
  short = omega arith;
  fits = omega arith;
}

greeting_bytes : write_text_string greeting ≡ 0x7F ∷ 0xEC ∷ 0x95 ∷ 0x88 ∷ b'h' ∷ b'i' ∷ 0 ∷ []
unfolding write_text_string as_bytes encode_utf8
greeting_bytes = refl

uintvar-write_uintvar_example :
    uintvar (new (write_uintvar 300 ++ 7 ∷ []))
    ≡ (some 300, advance (length (write_uintvar 300)) (new (write_uintvar 300 ++ 7 ∷ [])))
uintvar-write_uintvar_example =
    uintvar-write_uintvar 300 (new (write_uintvar 300 ++ 7 ∷ [])) (7 ∷ []) (omega arith) refl

integer_value-write_integer_value_example :
    integer_value (new (write_integer_value 45678 ++ [])) ≡ (
      some 45678,
      advance (length (write_integer_value 45678)) (new (write_integer_value 45678 ++ [])),
    )
integer_value-write_integer_value_example =
    integer_value-write_integer_value 45678 (new (write_integer_value 45678 ++ [])) [] (omega arith)
      refl

encoded_string-write_encoded_string_example :
    encoded_string env64 (new (write_encoded_string greeting ++ 1 ∷ [])) ≡ (
      some greeting,
      advance
          (length (write_encoded_string greeting))
          (new (write_encoded_string greeting ++ 1 ∷ [])),
    )
encoded_string-write_encoded_string_example =
    encoded_string-write_encoded_string env64 laws64 greeting
      (new (write_encoded_string greeting ++ 1 ∷ [])) (1 ∷ []) greeting-IsEncodable refl

-- A declared length of 20 in front of three bytes is cut to three.
abbrev overlong : Reader
overlong = new (20 ∷ 1 ∷ 2 ∷ 3 ∷ [])

overlong_length : bounded_value_length env64 overlong ≡ (some 3, advance 1 overlong)
unfolding bounded_value_length value_length peek remaining
overlong_length = refl

bounded_value_length-fits_example :
    (overlong.buf ≡ overlong.buf)
    × (0 ≤ (advance 1 overlong).pos)
    × ((advance 1 overlong).pos + 3 ≤ 4)
bounded_value_length-fits_example =
    bounded_value_length-fits env64 overlong (omega arith) overlong_length
