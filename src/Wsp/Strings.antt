-- ===== src/Wsp/Strings.antt =====
-- Text strings and encoded strings against their writers.
use modem2sip.Common.{
  ℕ, ◌+◌, ◌-◌, ◌%◌, ◌^◌, ◌≤◌, ◌<◌, ◌≡◌, ◌≢◌, refl, ap, ◌∙◌, arith, [], ◌∷◌, ◌++◌, some, length,
  length-append, append_assoc, All, true, false, ltb, leb, ◌==◌, Bool-cases, inl, inr,
  if◌then◌else◌, take-append, drop-append, ◌&&◌, not, ◌⊎◌,
}
use modem2sip.Text.{Bytes, Text, IsChar, as_bytes, from_utf8_lossy, codes}
use modem2sip.Text.Utf8.{from_utf8_lossy-as_bytes, as_bytes-ne-nul, as_bytes_first}
use modem2sip.Text.Ops.{starts_with}
use modem2sip.Wsp.Env.{Env, NoBom, Utf8Laws}
use modem2sip.Wsp.Tables.{charset_for, utf_8}
use modem2sip.Wsp.Reader.{Reader, advance, new, text_string, peek, high_bit}
use modem2sip.Wsp.Values.{
  integer_value, cut_terminator, encoded_text, encoded_string, encoded_inner,
}
use modem2sip.Wsp.Writer.{
  write_text_string, write_encoded_string, write_value_length, write_integer_value, is_ascii,
  charset_utf8, write_uintvar,
}
use modem2sip.Wsp.At.{
  At, advance-At, peek-At, slice-At, text_string-At, text_string-At_quoted, text_string-At_empty,
}
use modem2sip.Wsp.Integers.{
  bounded_value_length-write_value_length, integer_value-write_integer_value,
}

abbrev Unquoted : Text → Type 0
Unquoted [] = Unit {0}
Unquoted (c ∷ s) = c ≢ 0x7F

-- A text that a text string can carry: characters other than NUL, the first not the quote.
pub record IsPlain (s : Text) : Type 0 where
  pub chars : All IsChar s
  pub no_nul : All (λ c. 0 < c) s
  pub unquoted : Unquoted s

text_string_bytes :
    (b : ℕ) (bs : Bytes) (s : Text) (r : Reader) (t : Bytes)
    → as_bytes s ≡ b ∷ bs
    → All IsChar s
    → All (λ c. 0 < c) s
    → b ≢ 0x7F
    → At r (write_text_string s ++ t)
    → text_string r ≡ (some s, advance (length (write_text_string s)) r)
unfolding write_text_string
text_string_bytes b bs s r t e chars nz ne h = elim (Bool-cases (leb 0x80 b)) [
  | inl high ↦
      rw (e, high)
        (text_string-At_quoted r (b ∷ bs) t
            ((rw (e, high) at h) ∙ ap (λ (q : Bytes). 0x7F ∷ b ∷ q) (append_assoc bs (0 ∷ []) t))
            (rw e at (as_bytes-ne-nul s nz))
          ∙ ground (arith, value, length-append bs (0 ∷ [])))
  | inr low ↦
      rw (e, low)
        (text_string-At r b bs t
            ((rw (e, low) at h) ∙ ap (λ (q : Bytes). b ∷ q) (append_assoc bs (0 ∷ []) t)) ne
            (rw e at (as_bytes-ne-nul s nz))
          ∙ ground (arith, value, length-append bs (0 ∷ [])))
]
  where
    value : from_utf8_lossy (b ∷ bs) ≡ s
    value = rw (← e) (from_utf8_lossy-as_bytes s chars)

first_unquoted :
    (c b : ℕ)
    → c ≢ 0x7F
    → ((c < 0x80) × (b ≡ c)) ⊎ ((0x80 ≤ c) × (0xC2 ≤ b) × (b ≤ 0xF4))
    → b ≢ 0x7F
first_unquoted c b h first = ground arith

-- A plain text (Unicode characters, no NUL, and a first character other than 0x7F) that stands
-- next in the buffer as write_text_string writes it is what text_string reads, and the reader
-- is left behind its terminator.
pub text_string-write_text_string :
    (s : Text) (r : Reader) (t : Bytes)
    → IsPlain s
    → At r (write_text_string s ++ t)
    → text_string r ≡ (some s, advance (length (write_text_string s)) r)
text_string-write_text_string [] r t p h =
    unfold write_text_string as_bytes in text_string-At_empty r t h
text_string-write_text_string (c ∷ s) r t p h =
    let (b, bs, e, first) = as_bytes_first c s p.chars.0 in
    text_string_bytes b bs (c ∷ s) r t e p.chars p.no_nul
      (λ q. first_unquoted c b p.unquoted first q) h

abbrev Starts : Text → Type 0
Starts [] = Unit {0}
Starts (c ∷ s) = (0x20 ≤ c) × (c ≢ 0x7F)

-- A text that an encoded string can carry: no NUL, no control character in front, and short
-- enough for a value length.
pub record IsEncodable (env : Env) (s : Text) : Type 0 where
  pub chars : All IsChar s
  pub no_nul : All (λ c. 0 < c) s
  pub starts : Starts s
  pub no_bom : NoBom s
  pub short : length (as_bytes s) + 2 < 2 ^ 56
  pub fits : length (as_bytes s) + 2 ≤ env.usize_max

cut_terminator-nul : (xs : Bytes) → cut_terminator 1 (xs ++ 0 ∷ []) ≡ xs
unfolding cut_terminator
cut_terminator-nul xs = rw width (rw (drop-append xs (0 ∷ []), take-append xs (0 ∷ []), some_bytes))
  where
    width : length (xs ++ 0 ∷ []) - 1 ≡ length xs
    width = omega (arith, length-append xs (0 ∷ []))

    some_bytes : leb 1 (length (xs ++ 0 ∷ [])) ≡ true
    some_bytes = ground (arith, length-append xs (0 ∷ []))

write_text_string_first :
    (c : ℕ) (s : Text)
    → IsChar c
    → (0x20 ≤ c) × (c ≢ 0x7F)
    → (b : ℕ) × (bs : Bytes) × (write_text_string (c ∷ s) ≡ b ∷ bs) × (0x20 ≤ b)
unfolding write_text_string
write_text_string_first c s h starts =
    let (b, bs, e, first) = as_bytes_first c s h in
    elim (Bool-cases (leb 0x80 b)) [
      | inl high ↦ (0x7F, (b ∷ bs) ++ 0 ∷ [], rw (e, high), omega arith)
      | inr low ↦ (b, bs ++ 0 ∷ [], rw (e, low), ground arith)
    ]

-- No text string begins with a byte that has its high bit.
pub write_text_string_low :
    (s : Text)
    → All IsChar s
    → (b : ℕ) × (bs : Bytes) × (write_text_string s ≡ b ∷ bs) × (high_bit b ≡ false)
unfolding write_text_string
write_text_string_low [] h = (0, [], unfold as_bytes in refl, refl)
write_text_string_low (c ∷ s) h =
    let (b, bs, e, first) = as_bytes_first c s h.0 in
    elim (Bool-cases (leb 0x80 b)) [
      | inl high ↦ (0x7F, (b ∷ bs) ++ 0 ∷ [], rw (e, high), refl)
      | inr low ↦ (b, bs ++ 0 ∷ [], rw (e, low), ground arith)
    ]

pub write_value_length_first :
    (len : ℕ) → (b : ℕ) × (bs : Bytes) × (write_value_length len ≡ b ∷ bs) × (b < 0x20)
unfolding write_value_length
write_value_length_first len = elim (Bool-cases (leb len 30)) [
  | inl short ↦ (len % 256, [], rw short, ground arith)
  | inr long ↦ (0x1F, write_uintvar len, rw long, omega arith)
]

module _ (env : Env) where
  -- The bytes behind a value length are read as an encoded string of their own.
  encoded_string-sized :
      (xs : Bytes) (r : Reader) (t : Bytes)
      → length xs < 2 ^ 56
      → length xs ≤ env.usize_max
      → At r (write_value_length (length xs) ++ (xs ++ t))
      → encoded_string env r ≡ (
        some (encoded_inner env (integer_value (new xs))),
        advance (length (write_value_length (length xs)) + length xs) r,
      )
  unfolding encoded_string
  encoded_string-sized xs r t lt fits h =
      let (b, bs, e, low) = write_value_length_first (length xs) in
      rw (peek-At r b _ (rw e at h)) (
        rw ((not_text b low).0, (not_text b low).1)
          (rw
            (bounded_value_length-write_value_length env (length xs) r (xs ++ t) lt fits
              (omega (arith, length-append xs t)) h)
            (ground (
              arith,
              slice-At (advance (length (write_value_length (length xs))) r) xs t
                  (advance-At r (write_value_length (length xs)) (xs ++ t) h),
            ))))
    where
      not_text :
          (b : ℕ) → b < 0x20 → ((leb 0x20 b && not (b == 0x7F)) ≡ false) × ((b == 0x7F) ≡ false)
      not_text b low = ground arith

  encoded_string-plain :
      (b : ℕ) (bs : Bytes) (r : Reader)
      → At r (b ∷ bs)
      → 0x20 ≤ b
      → encoded_string env r ≡ text_string r
  unfolding encoded_string
  encoded_string-plain b bs r h lo = rw (peek-At r b bs h) (ground arith)

module _ (env : Env) (laws : Utf8Laws env) where
  encoded_text_utf_8 :
      (raw : Bytes) → encoded_text env charset_utf8 raw ≡ env.decode utf_8 (cut_terminator 1 raw)
  unfolding encoded_text charset_for starts_with
  encoded_text_utf_8 raw =
      ap
        (λ (name : Text).
          env.decode utf_8
            (cut_terminator (if starts_with name (codes "UTF-16") then 2 else 1) raw))
        laws.utf_8_name

  inner_bytes : Text → Bytes
  inner_bytes s = write_integer_value charset_utf8 ++ (as_bytes s ++ 0 ∷ [])

  length-inner_bytes : (s : Text) → length (inner_bytes s) ≡ length (as_bytes s) + 2
  unfolding inner_bytes write_integer_value
  length-inner_bytes s = omega (arith, length-append (as_bytes s) (0 ∷ []))

  encoded_inner-inner_bytes :
      (s : Text)
      → All IsChar s
      → NoBom s
      → encoded_inner env (integer_value (new (inner_bytes s))) ≡ s
  unfolding inner_bytes
  encoded_inner-inner_bytes s chars bom =
      let rest : Bytes = as_bytes s ++ 0 ∷ [] in
      let mib : Bytes = write_integer_value charset_utf8 in
      rw
        (integer_value-write_integer_value charset_utf8 (new (mib ++ rest)) rest (omega arith) refl)
        (ap (encoded_text env charset_utf8) (advance-At (new (mib ++ rest)) mib rest refl)
          ∙ encoded_text_utf_8 rest
          ∙ rw cut_terminator-nul (laws.decode_utf_8 s chars bom))

  encoded_inner-nothing : encoded_inner env (integer_value (new [])) ≡ []
  unfolding integer_value peek cut_terminator as_bytes
  encoded_inner-nothing = encoded_text_utf_8 [] ∙ laws.decode_utf_8 [] tt tt

  encoded_string-inner_bytes :
      (s : Text) (r : Reader) (t : Bytes)
      → IsEncodable env s
      → At r ((write_value_length (length (inner_bytes s)) ++ inner_bytes s) ++ t)
      → encoded_string env r ≡ (
        some s,
        advance (length (write_value_length (length (inner_bytes s)) ++ inner_bytes s)) r,
      )
  encoded_string-inner_bytes s r t w h =
      encoded_string-sized env (inner_bytes s) r t (omega (arith, length-inner_bytes s))
        (omega (arith, length-inner_bytes s))
        (h ∙ append_assoc (write_value_length (length (inner_bytes s))) (inner_bytes s) t)
      ∙ ground (
        arith,
        encoded_inner-inner_bytes s w.chars w.no_bom,
        length-append (write_value_length (length (inner_bytes s))) (inner_bytes s),
      )

  encoded_string-text :
      (c : ℕ) (s : Text) (r : Reader) (t : Bytes)
      → IsEncodable env (c ∷ s)
      → At r (write_text_string (c ∷ s) ++ t)
      → encoded_string env r ≡ (some (c ∷ s), advance (length (write_text_string (c ∷ s))) r)
  encoded_string-text c s r t w h =
      let (b, bs, e, lo) = write_text_string_first c s w.chars.0 w.starts in
      encoded_string-plain env b (bs ++ t) r (rw e at h) lo
      ∙ text_string-write_text_string (c ∷ s) r t
          (record { chars = w.chars; no_nul = w.no_nul; unquoted = w.starts.1 }) h

  -- A plain text string may stand where an encoded string is read.
  pub encoded_string-write_text_string :
      (s : Text) (r : Reader) (t : Bytes)
      → IsEncodable env s
      → At r (write_text_string s ++ t)
      → encoded_string env r ≡ (some s, advance (length (write_text_string s)) r)
  encoded_string-write_text_string [] r t w h =
      unfold write_text_string as_bytes in
      (encoded_string-sized env [] r t (omega arith) (omega arith)
          (unfold write_value_length in unfold write_text_string as_bytes in h)
        ∙ unfold write_value_length in ground (arith, encoded_inner-nothing))
  encoded_string-write_text_string (c ∷ s) r t w h = encoded_string-text c s r t w h

  -- For a charset decoder that inverts UTF-8 and an encodable text (Unicode characters, no NUL,
  -- a first character that is neither a control character nor 0x7F, no byte order mark, a
  -- length that fits) that stands next in the buffer as write_encoded_string writes it,
  -- encoded_string reads that text and leaves the reader behind it, whether the text is ASCII
  -- or carries the UTF-8 charset.
  pub encoded_string-write_encoded_string :
      (s : Text) (r : Reader) (t : Bytes)
      → IsEncodable env s
      → At r (write_encoded_string s ++ t)
      → encoded_string env r ≡ (some s, advance (length (write_encoded_string s)) r)
  unfolding write_encoded_string is_ascii inner_bytes
  encoded_string-write_encoded_string [] r t w h = encoded_string-write_text_string [] r t w h
  encoded_string-write_encoded_string (c ∷ s) r t w h =
      elim (Bool-cases (ltb c 0x80 && is_ascii s)) [
        | inl ascii ↦ rw ascii (encoded_string-text c s r t w (rw ascii at h))
        | inr other ↦ rw other (encoded_string-inner_bytes (c ∷ s) r t w (rw other at h))
      ]
