-- ===== src/Wsp/Writer.antt =====
-- The writing half of src/mms/wsp.rs. `out` only ever grows at its end, so a writer is given as
-- the bytes that it appends to `out`.
use modem2sip.Common.{
  ℕ, zero, suc, ◌/◌, ◌%◌, Bool, true, false, ◌&&◌, [], ◌∷◌, ◌++◌, length, if◌then◌else◌, ltb, leb,
  ◌==◌,
}
use modem2sip.Text.{Bytes, Text, as_bytes}
use modem2sip.Wsp.Reader.{with_high_bit}

-- The first loop of `write_uintvar`: `bytes[i..]` after each round is the list. A u64 takes at
-- most the ten rounds that the array has room for.
unfoldable pub uintvar_groups : ℕ → ℕ → Bytes → Bytes
uintvar_groups zero value groups = groups
uintvar_groups (suc room) value groups =
    let more = uintvar_groups room (value / 128) (value % 128 ∷ groups) in
    if value / 128 == 0 then value % 128 ∷ groups else more

-- The second loop: every byte but the last gets the continuation bit.
unfoldable pub mark_groups : Bytes → Bytes
mark_groups [] = []
mark_groups (b ∷ []) = b ∷ []
mark_groups (b ∷ c ∷ bs) = with_high_bit b ∷ mark_groups (c ∷ bs)

unfoldable pub write_uintvar : ℕ → Bytes
write_uintvar value = mark_groups (uintvar_groups 10 value [])

abbrev pub needs_quote : Bytes → Bool
needs_quote [] = false
needs_quote (b ∷ bs) = leb 0x80 b

unfoldable pub write_text_string : Text → Bytes
write_text_string text =
    (if needs_quote (as_bytes text) then 0x7F ∷ [] else []) ++ (as_bytes text ++ 0 ∷ [])

unfoldable pub write_value_length : ℕ → Bytes
write_value_length len = if leb len 30 then len % 256 ∷ [] else 0x1F ∷ write_uintvar len

-- The loop of `write_long_int`, big-endian; the list is `bytes`. A u64 takes eight rounds.
unfoldable pub be_bytes : ℕ → ℕ → Bytes → Bytes
be_bytes zero v bytes = bytes
be_bytes (suc fuel) v bytes =
    let more = be_bytes fuel (v / 256) (v % 256 ∷ bytes) in if v == 0 then bytes else more

abbrev pub or_zero : Bytes → Bytes
or_zero [] = 0 ∷ []
or_zero (b ∷ bs) = b ∷ bs

unfoldable pub write_long_int : ℕ → Bytes
write_long_int value = let bytes = or_zero (be_bytes 8 value []) in length bytes % 256 ∷ bytes

unfoldable pub write_integer_value : ℕ → Bytes
write_integer_value value =
    if leb value 127 then with_high_bit (value % 256) ∷ [] else write_long_int value

-- `CHARSET_UTF8`, the MIBenum of UTF-8.
abbrev pub charset_utf8 : ℕ
charset_utf8 = 106

unfoldable pub is_ascii : Text → Bool
is_ascii [] = true
is_ascii (c ∷ s) = ltb c 0x80 && is_ascii s

unfoldable pub write_encoded_string : Text → Bytes
write_encoded_string text =
    let inner = write_integer_value charset_utf8 ++ (as_bytes text ++ 0 ∷ []) in
    if is_ascii text then write_text_string text else write_value_length (length inner) ++ inner
