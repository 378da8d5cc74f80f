-- ===== src/Wsp/Progress.antt =====
-- The methods for lengths, integers, strings and content types keep to the buffer too.
use modem2sip.Common.{
  ℕ, ◌%◌, ◌^◌, ◌+◌, ◌≤◌, min, ◌≡◌, refl, ap, arith, [], Option, none, some, length, ltb, leb, ◌==◌,
  ◌||◌, ◌&&◌, not, Bool-cases, inl, inr,
}
use modem2sip.Wsp.Env.{Env}
use modem2sip.Wsp.Reader.{
  Reader, ◌>>=◌, then_read, advance, peek, remaining, value_length, bounded_value_length, high_bit,
  low_bits, inner_of,
}
use modem2sip.Wsp.Values.{
  long_int, integer_value, encoded_string, charset_at, charset_value, parameter_value, content_type,
  skip_value, fold_be, to_string, encoded_inner, content_type_inner,
}
use modem2sip.Wsp.Tables.{charset_for, content_type_name}
use modem2sip.Wsp.Bounds.{
  Forward, Forward-refl, Moves, >>=-Moves, >>=-MovesInside, if-Moves, if-MovesInside, return-Moves,
  fail-Moves, Moves-MovesInside, with_default-Moves, bump-MovesInside, peeked-Moves, u8-Moves,
  take_bytes-Moves, uintvar-Moves, text_string-Moves,
}

module _ (env : Env) where
  pub value_length-Moves : Moves (value_length env)
  unfolding value_length
  value_length-Moves = peeked-Moves (λ b.
      if-MovesInside (leb b 30) (>>=-MovesInside bump-MovesInside (λ _. return-Moves b)) (
        if-MovesInside (b == 0x1F)
          (>>=-MovesInside bump-MovesInside
            (λ _. >>=-Moves uintvar-Moves (λ v. return-Moves (min v env.usize_max))))
          (Moves-MovesInside (fail-Moves ℕ))))

  -- What follows a bounded length: the reader passes over as many bytes.
  sized-Moves {ℓ} :
      {A : Type ℓ} (f : ℕ → Reader → Option A)
      → Moves (bounded_value_length env >>= (λ len r. (f len r, advance len r)))
  unfolding bounded_value_length remaining
  sized-Moves f = record { forward = λ r. go r (value_length env r) (value_length-Moves.forward r) }
    where
      go :
          (r : Reader) (x : Option ℕ × Reader)
          → Forward r x.1
          → Forward r
              (then_read
                (λ len r. (f len r, advance len r))
                (then_read (λ len r. (some (min len (remaining r)), r)) x)).1
      go r (none, r') h = h
      go r (some len, r') h = record {
        same = h.same;
        le = omega (arith, h.le);
        inside = λ p. omega (arith, h.inside p, ap length h.same);
      }

  pub bounded_value_length-Moves : Moves (bounded_value_length env)
  unfolding bounded_value_length
  bounded_value_length-Moves =
      >>=-Moves value_length-Moves (λ len. record { forward = λ r. Forward-refl r })

  -- From a reader inside its buffer, a length that bounded_value_length returns fits in what is
  -- left: the reader has not moved back, and its position and the length together do not pass
  -- the end of the same buffer, so the slice that the callers cut with it is in range.
  pub bounded_value_length-fits :
      (r : Reader) {len : ℕ} {r' : Reader}
      → r.pos ≤ length r.buf
      → bounded_value_length env r ≡ (some len, r')
      → (r'.buf ≡ r.buf) × (r.pos ≤ r'.pos) × (r'.pos + len ≤ length r.buf)
  unfolding bounded_value_length remaining
  bounded_value_length-fits r {len} {r'} h e = go (value_length env r) refl
    where
      go :
          (x : Option ℕ × Reader)
          → value_length env r ≡ x
          → (r'.buf ≡ r.buf) × (r.pos ≤ r'.pos) × (r'.pos + len ≤ length r.buf)
      go (none, q) p = cc
      go (some n, q) p =
          let f : Forward r q = rw p at ((value_length-Moves).forward r) in
          let e' = rw p at e in ground (arith, f.same, f.le, f.inside h, ap length f.same, e')

pub long_int-Moves : Moves long_int
unfolding long_int
long_int-Moves = >>=-Moves u8-Moves (λ len.
    if-Moves (len == 0 || ltb 8 len) (fail-Moves ℕ)
      (>>=-Moves (take_bytes-Moves len) (λ bytes. return-Moves (fold_be 0 bytes))))

pub integer_value-Moves : Moves integer_value
unfolding integer_value
integer_value-Moves = peeked-Moves (λ b.
    if-MovesInside (high_bit b) (>>=-MovesInside bump-MovesInside (λ _. return-Moves (low_bits b)))
      (Moves-MovesInside long_int-Moves))

module _ (env : Env) where
  pub encoded_string-Moves : Moves (encoded_string env)
  unfolding encoded_string
  encoded_string-Moves = peeked-Moves (λ b. Moves-MovesInside (
      if-Moves (leb 0x20 b && not (b == 0x7F)) text_string-Moves (
        if-Moves (b == 0x7F) text_string-Moves
          (sized-Moves env (λ len r. some (encoded_inner env (integer_value (inner_of len r))))))))

  charset_value-Moves : Moves (charset_value env)
  unfolding charset_value
  charset_value-Moves = record { forward = λ r. go r (peek r) }
    where
      go : (r : Reader) (o : Option ℕ) → Forward r (charset_at env o r).1
      go r none = (with_default-Moves [] text_string-Moves).forward r
      go r (some p) = elim (Bool-cases (high_bit p || ltb p 0x20)) [
        | inl h ↦ rw h (
            (with_default-Moves [] (
                >>=-Moves integer_value-Moves
                  (λ v. return-Moves (env.name (charset_for (v % 2 ^ 32)))))).forward
              r)
        | inr h ↦ rw h ((with_default-Moves [] text_string-Moves).forward r)
      ]

  pub parameter_value-Moves : (code : ℕ) → Moves (parameter_value env code)
  unfolding parameter_value
  parameter_value-Moves code = if-Moves (code == 0x10) (return-Moves []) (
      if-Moves (code == 0x00)
        (with_default-Moves [] (>>=-Moves uintvar-Moves (λ v. return-Moves (to_string v))))
        (if-Moves (code == 0x02 || code == 0x0E || code == 0x16)
          (with_default-Moves [] (>>=-Moves integer_value-Moves (λ v. return-Moves (to_string v))))
          (if-Moves (code == 0x01) charset_value-Moves
            (with_default-Moves [] encoded_string-Moves))))

  pub content_type-Moves : Moves (content_type env)
  unfolding content_type
  content_type-Moves = peeked-Moves (λ b.
      if-MovesInside (high_bit b)
        (>>=-MovesInside bump-MovesInside (λ _. return-Moves (content_type_name (low_bits b), [])))
        (Moves-MovesInside (
          if-Moves (leb 0x20 b) (>>=-Moves text_string-Moves (λ t. return-Moves (t, [])))
            (sized-Moves env (λ len r. content_type_inner env (inner_of len r))))))

  pub skip_value-Moves : Moves (skip_value env)
  unfolding skip_value
  skip_value-Moves = peeked-Moves (λ b.
      if-MovesInside (leb b 30 || b == 0x1F)
        (Moves-MovesInside (
          >>=-Moves (bounded_value_length-Moves env)
            (λ len. >>=-Moves (take_bytes-Moves len) (λ _. return-Moves tt))))
        (if-MovesInside (high_bit b) bump-MovesInside
          (Moves-MovesInside (>>=-Moves text_string-Moves (λ _. return-Moves tt)))))
