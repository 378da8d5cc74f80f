-- ===== src/Wsp/ContentTypes.antt =====
-- Content types with their parameters, as `Reader::content_type` reads them.
use modem2sip.Common.{
  ℕ, zero, suc, ◌+◌, ◌-◌, ◌^◌, ◌≤◌, ◌<◌, ◌≡◌, refl, ap, arith, Bool, true, false, List, [], ◌∷◌,
  ◌++◌, some, length, length-append, if◌then◌else◌, ltb, leb,
}
use modem2sip.Text.{Bytes, Text, codes}
use modem2sip.Wsp.Env.{Env, Utf8Laws}
use modem2sip.Wsp.Tables.{
  content_types, find_code, find_name, content_type_code, content_type_name, charset_for,
  param_name, param_names,
}
use modem2sip.Wsp.Reader.{Reader, advance, new, peek, with_default, high_bit, low_bits}
use modem2sip.Wsp.Values.{
  lookup_parameter, parameter_value, parameter, parameters, content_type_inner, content_type,
  encoded_string, charset_value,
}
use modem2sip.Wsp.Writer.{write_text_string, write_value_length, write_integer_value}
use modem2sip.Wsp.At.{At, advance-At, advance-add, peek-At, u8-At, eof-At, eof-At_nil, slice-At}
use modem2sip.Wsp.Integers.{
  bounded_value_length-write_value_length, integer_value-write_integer_value,
}
use modem2sip.Wsp.Strings.{
  IsPlain, IsEncodable, text_string-write_text_string, encoded_string-write_text_string,
  write_value_length_first, write_text_string_low,
}

-- Every code of the table has its low seven bits for itself.
codes_small : (rows : List (ℕ × Text)) → Bool
codes_small [] = true
codes_small ((c, n) ∷ rows) = if ltb c 0x80 then codes_small rows else false

find_code-lt :
    (rows : List (ℕ × Text)) (name : Text) {c : ℕ}
    → codes_small rows ≡ true
    → find_code name rows ≡ some c
    → c < 0x80
unfolding codes_small find_code
find_code-lt [] name h e = cc
find_code-lt ((k, n) ∷ rows) name {c} h e = ground (arith, find_code-lt rows name {c = c})

pub content_type_code-lt : (name : Text) {c : ℕ} → content_type_code name ≡ some c → c < 0x80
unfolding content_type_code codes_small content_types
content_type_code-lt name e = find_code-lt content_types name refl e

module _ (env : Env) where
  -- Reading one parameter of a list, and the end of the list.
  pub parameters_step :
      (fuel : ℕ) (b : ℕ) (s : Bytes) (r : Reader) {r' : Reader} {p : Text × Text}
      (out : List (Text × Text))
      → At r (b ∷ s)
      → parameter env r ≡ (some p, r')
      → 1 ≤ fuel
      → parameters env fuel r out ≡ parameters env (fuel - 1) r' (out ++ p ∷ [])
  unfolding parameters
  parameters_step zero b s r out h e lt = absurd (omega arith)
  parameters_step (suc fuel) b s r {r'} {p} out h e lt =
      rw (eof-At r b s h, e, parameters)
        (ap (λ (n : ℕ). parameters env n r' (out ++ p ∷ [])) (omega arith))

  pub parameters_end :
      (fuel : ℕ) (r : Reader) (out : List (Text × Text)) → At r [] → parameters env fuel r out ≡ out
  unfolding parameters
  parameters_end zero r out h = refl
  parameters_end (suc fuel) r out h = rw (eof-At_nil r h, parameters)

  -- A content type that stands behind its length.
  pub content_type-sized :
      (ct : Bytes) (r : Reader) (t : Bytes)
      → length ct < 2 ^ 56
      → length ct ≤ env.usize_max
      → At r (write_value_length (length ct) ++ (ct ++ t))
      → content_type env r ≡ (
        content_type_inner env (new ct),
        advance (length (write_value_length (length ct)) + length ct) r,
      )
  unfolding content_type
  content_type-sized ct r t lt fits h =
      let (b, bs, e, low) = write_value_length_first (length ct) in
      rw (peek-At r b _ (rw e at h)) (
        rw ((not_text b low).0, (not_text b low).1)
          (rw
            (bounded_value_length-write_value_length env (length ct) r (ct ++ t) lt fits
              (omega (arith, length-append ct t)) h)
            (ground (
              arith,
              slice-At (advance (length (write_value_length (length ct))) r) ct t
                  (advance-At r (write_value_length (length ct)) (ct ++ t) h),
            ))))
    where
      not_text : (b : ℕ) → b < 0x20 → (high_bit b ≡ false) × (leb 0x20 b ≡ false)
      not_text b low = ground arith

  -- The type itself, as a number of the table or as text.
  pub content_type_inner-code :
      (code : ℕ) (s : Bytes)
      → code < 0x80
      → content_type_inner env (new ((code + 128) ∷ s))
        ≡ some (
          content_type_name code,
          parameters env (suc (length s)) (advance 1 (new ((code + 128) ∷ s))) [],
        )
  unfolding content_type_inner peek
  content_type_inner-code code s lt = rw (high, low)
    where
      high : high_bit (code + 128) ≡ true
      high = ground arith

      low : low_bits (code + 128) ≡ code
      low = omega arith

  pub content_type_inner-text :
      (name : Text) (s : Bytes)
      → IsPlain name
      → content_type_inner env (new (write_text_string name ++ s))
        ≡ some (
          name,
          parameters env
              (length (write_text_string name ++ s))
              (advance (length (write_text_string name)) (new (write_text_string name ++ s)))
              [],
        )
  unfolding content_type_inner
  content_type_inner-text name s p =
      let (b, bs, e, low) = write_text_string_low name p.chars in
      let start = new (write_text_string name ++ s) in
      rw (peek-At start b (bs ++ s) (ap (λ (q : Bytes). q ++ s) e))
        (rw low (rw (text_string-write_text_string name start s p refl)))

module _ (env : Env) (laws : Utf8Laws env) where
  -- A typed parameter whose value is read as an encoded string.
  pub parameter-text :
      (h : ℕ) (v : Text) (r : Reader) (t : Bytes)
      → high_bit h ≡ true
      → parameter_value env (low_bits h) ≡ with_default [] (encoded_string env)
      → IsEncodable env v
      → At r (h ∷ (write_text_string v ++ t))
      → parameter env r
        ≡ (some (lookup_parameter (low_bits h), v), advance (1 + length (write_text_string v)) r)
  unfolding parameter
  parameter-text h v r t high value w at_h = rw (u8-At r h (write_text_string v ++ t) at_h) (
      rw (high, value)
        (rw
          (encoded_string-write_text_string env laws v (advance 1 r) t w
            (advance-At r (h ∷ []) (write_text_string v ++ t) at_h))
          (ap (λ (q : Reader). (some (lookup_parameter (low_bits h), v), q))
            (advance-add r 1 (length (write_text_string v))))))

  charset_value-utf_8 :
      (r : Reader) (t : Bytes)
      → At r (0xEA ∷ t)
      → charset_value env r ≡ (some (codes "UTF-8"), advance 1 r)
  unfolding charset_value charset_for write_integer_value
  charset_value-utf_8 r t h = rw (peek-At r 0xEA t h) (
      rw (integer_value-write_integer_value 106 r t (omega arith) h)
        (ap (λ (n : Text). (some n, advance 1 r)) laws.utf_8_name))

  -- The charset parameter that the encoder writes.
  pub parameter-charset :
      (r : Reader) (t : Bytes)
      → At r (0x81 ∷ 0xEA ∷ t)
      → parameter env r ≡ (some (codes "charset", codes "UTF-8"), advance 2 r)
  unfolding parameter parameter_value param_name param_names find_name
  parameter-charset r t h = rw (u8-At r 0x81 (0xEA ∷ t) h) (
      rw (charset_value-utf_8 (advance 1 r) t (advance-At r (0x81 ∷ []) (0xEA ∷ t) h))
        (ap (λ (q : Reader). (some (codes "charset", codes "UTF-8"), q)) (advance-add r 1 1)))
