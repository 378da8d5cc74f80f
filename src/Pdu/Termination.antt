-- ===== src/Pdu/Termination.antt =====
-- `decode` ends on every input.
use modem2sip.Common.{
  ℕ, zero, suc, ◌-◌, ◌≤◌, ◌<◌, ◌≡◌, ◌≢◌, refl, ap, ◌∙◌, arith, Bool, true, false, Option, none,
  some, length, if◌then◌else◌, ltb, ◌==◌, ◌||◌, Bool-cases, inl, inr,
}
use modem2sip.Text.{Bytes}
use modem2sip.Wsp.Env.{Env}
use modem2sip.Wsp.Reader.{
  Reader, advance, eof, peek, u8, text_string, bounded_value_length, high_bit, new,
}
use modem2sip.Wsp.Values.{
  ContentType, long_int, integer_value, encoded_string, content_type, skip_value,
}
use modem2sip.Wsp.Bounds.{Forward, u8-Moves, text_string-Moves, text_string-lt}
use modem2sip.Wsp.Progress.{
  bounded_value_length-Moves, long_int-Moves, integer_value-Moves, encoded_string-Moves,
  skip_value-Moves,
}
use modem2sip.Pdu.Fields
use modem2sip.Pdu.Message.{MmsMessage, empty_message}
use modem2sip.Pdu.Decode.{
  Round, next, stop, body, malformed, store, skipped, message_class_at, sized, content_type_round,
  decode_field, decode_at, decode_header, after_round, stuck, decode_loop, decode,
}

-- The round that follows, if any, starts behind `r`.
record Later (r : Reader) (round : Round) : Type 0 where
  step : (m : MmsMessage) (r' : Reader) → round ≡ next m r' → (r'.buf ≡ r.buf) × (r.pos < r'.pos)

-- `r'` is in the same buffer, at `r` or behind it.
record Reached (r r' : Reader) : Type 0 where
  same : r'.buf ≡ r.buf
  le : r.pos ≤ r'.pos

Forward-Reached : {r r' : Reader} → Forward r r' → Reached r r'
Forward-Reached f = record { same = f.same; le = f.le }

if-Later :
    {r : Reader} (b : Bool) {x y : Round} → Later r x → Later r y → Later r (if b then x else y)
if-Later true h k = h
if-Later false h k = k

store-Later {ℓ} :
    {A : Type ℓ} (r : Reader) (f : Option A → MmsMessage) (x : Option A × Reader)
    → Reached (advance 1 r) x.1
    → Later r (store f x)
unfolding store
store-Later r f x h = record { step = λ m r' e. ground (arith, h.same, h.le) }

skipped-Later :
    (r : Reader) (msg : MmsMessage) (x : Option (Unit {0}) × Reader)
    → (x.1.buf ≡ r.buf) × (r.pos < x.1.pos)
    → Later r (skipped msg x)
skipped-Later r msg (none, q) h = record { step = λ m r' e. cc }
skipped-Later r msg (some _, q) h = record { step = λ m r' e. ground arith }

sized-Reached {ℓ} :
    {A : Type ℓ} (r : Reader) (f : Reader → Option A) (x : Option ℕ × Reader)
    → Reached r x.1
    → Reached r (sized f x).1
unfolding sized
sized-Reached r f (len, q) h = record { same = h.same; le = omega (arith, h.le) }

message_class_at-Reached :
    (r : Reader) (o : Option ℕ) → peek r ≡ o → Reached r (message_class_at o r).1
message_class_at-Reached r none e = Forward-Reached (text_string-Moves.forward r)
message_class_at-Reached r (some v) e = elim (Bool-cases (high_bit v)) [
  | inl h ↦ rw h (record { same = refl; le = omega arith })
  | inr h ↦ rw h (Forward-Reached (text_string-Moves.forward r))
]

content_type_round-Later :
    (r : Reader) (msg : MmsMessage) (x : Option ContentType × Reader)
    → Later r (content_type_round msg x)
content_type_round-Later r msg (none, q) = record { step = λ m r' e. cc }
content_type_round-Later r msg (some c, q) = record { step = λ m r' e. cc }

behind :
    (r : Reader) {A : Type 0} (x : Option A × Reader)
    → Forward (advance 1 r) x.1
    → (x.1.buf ≡ r.buf) × (r.pos < x.1.pos)
behind r x f = (f.same, omega (arith, f.le))

eof-false : (r : Reader) → eof r ≡ false → r.pos < length r.buf
unfolding eof
eof-false r h = ground arith

module _ (env : Env) where
  text_then_skip :
      (r : Reader) {b : ℕ}
      → peek r ≡ some b
      → ((skip_value env (text_string r).1).1.buf ≡ r.buf)
        × (r.pos < (skip_value env (text_string r).1).1.pos)
  text_then_skip r e =
      let t = text_string-Moves.forward r in
      let s = (skip_value-Moves env).forward (text_string r).1 in
      (s.same ∙ t.same, omega (arith, text_string-lt r e, s.le))

  decode_field-Later :
      (b : ℕ) (msg : MmsMessage) (r : Reader) → Later r (decode_field env b msg (advance 1 r))
  unfolding decode_field
  decode_field-Later b msg r =
      let q = advance 1 r in
      let u : Reached q (u8 q).1 = Forward-Reached (u8-Moves.forward q) in
      let t : Reached q (text_string q).1 = Forward-Reached (text_string-Moves.forward q) in
      let s : Reached q (encoded_string env q).1 =
        Forward-Reached ((encoded_string-Moves env).forward q) in
      let n : Reached q (bounded_value_length env q).1 =
        Forward-Reached ((bounded_value_length-Moves env).forward q) in
      if-Later (b == Fields.message_type) (store-Later r _ (u8 q) u) (
        if-Later (b == Fields.transaction_id) (store-Later r _ (text_string q) t) (
          if-Later (b == Fields.mms_version) (store-Later r _ (u8 q) u) (
            if-Later (b == Fields.from)
              (store-Later r _ (sized _ (bounded_value_length env q)) (sized-Reached q _ _ n))
              (if-Later (b == Fields.to) (store-Later r _ (encoded_string env q) s) (
                if-Later (b == Fields.cc) (store-Later r _ (encoded_string env q) s) (
                  if-Later (b == Fields.subject) (store-Later r _ (encoded_string env q) s) (
                    if-Later (b == Fields.message_id) (store-Later r _ (text_string q) t) (
                      if-Later (b == Fields.content_location) (store-Later r _ (text_string q) t) (
                        if-Later (b == Fields.date)
                          (store-Later r _ (long_int q)
                            (Forward-Reached (long_int-Moves.forward q)))
                          (if-Later (b == Fields.message_size)
                            (store-Later r _ (integer_value q)
                              (Forward-Reached (integer_value-Moves.forward q)))
                            (if-Later (b == Fields.message_class)
                              (store-Later r _ (message_class_at (peek q) q)
                                (message_class_at-Reached q _ refl))
                              (if-Later (b == Fields.expiry)
                                (store-Later r _ (sized _ (bounded_value_length env q))
                                  (sized-Reached q _ _ n))
                                (if-Later (b == Fields.response_status) (store-Later r _ (u8 q) u) (
                                  if-Later (b == Fields.retrieve_status) (store-Later r _ (u8 q) u)
                                    (if-Later
                                      (b == Fields.response_text || b == Fields.retrieve_text)
                                      (store-Later r _ (encoded_string env q) s)
                                      (if-Later (b == Fields.content_type)
                                        (content_type_round-Later r msg (content_type env q))
                                        (skipped-Later r msg (skip_value env q) (
                                          behind r (skip_value env q)
                                            ((skip_value-Moves env).forward q)))))))))))))))))))

  decode_header-Later : (msg : MmsMessage) (r : Reader) → Later r (decode_header env msg r)
  unfolding decode_header
  decode_header-Later msg r = go (peek r) refl
    where
      go : (o : Option ℕ) → peek r ≡ o → Later r (decode_at env o msg r)
      go none e = record { step = λ m r' e. cc }
      go (some b) e =
          if-Later (ltb b 0x80) (skipped-Later r msg _ (text_then_skip r e))
            (decode_field-Later b msg r)

  decode_loop-ne-stuck :
      (fuel : ℕ) (xs : Bytes) (msg : MmsMessage) (r : Reader)
      → r.buf ≡ xs
      → length xs - r.pos < fuel
      → decode_loop env fuel xs msg r ≢ stuck
  unfolding decode_loop
  decode_loop-ne-stuck zero xs msg r same h = absurd (omega arith)
  decode_loop-ne-stuck (suc fuel) xs msg r same h = elim (Bool-cases (eof r)) [
    | inl end ↦ rw (end, decode_loop) (λ e. cc)
    | inr more ↦
        rw (more, decode_loop)
          (after (decode_loop-ne-stuck fuel xs) (decode_header env msg r)
            (decode_header-Later msg r) (eof-false r more))
  ]
    where
      after :
          ((m : MmsMessage) (q : Reader)
            → q.buf ≡ xs
            → length xs - q.pos < fuel
            → decode_loop env fuel xs m q ≢ stuck)
          → (round : Round) → Later r round
          → r.pos < length r.buf
          → after_round env (decode_loop env fuel xs) xs round ≢ stuck
      after ih (next m r') l lt =
          let (same', lt') = l.step m r' refl in
          ih m r' (same' ∙ same) (omega (arith, ap length same))
      after ih (stop m) l lt = λ e. cc
      after ih (body m start) l lt = λ e. cc
      after ih malformed l lt = λ e. cc

  -- The fuel of the header loop is never used up.
  pub decode-ne-stuck : (xs : Bytes) → decode env xs ≢ stuck
  unfolding decode
  decode-ne-stuck xs =
      decode_loop-ne-stuck (suc (length xs)) xs empty_message (new xs) refl (omega arith)
