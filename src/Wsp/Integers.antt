-- ===== src/Wsp/Integers.antt =====
-- Value lengths, long integers and integer values against their writers.
use modem2sip.Common.{
  ℕ, zero, suc, ◌+◌, ◌*◌, ◌/◌, ◌%◌, ◌^◌, ◌≤◌, ◌<◌, ◌≡◌, refl, ap, ◌∙◌, arith, [], ◌∷◌, ◌++◌, some,
  length, false, ltb, leb, ◌==◌, Bool-cases, inl, inr, if◌then◌else◌, ◌||◌,
}
use modem2sip.Text.{Bytes}
use modem2sip.Wsp.Env.{Env}
use modem2sip.Wsp.Reader.{
  Reader, advance, take_bytes, high_bit, with_high_bit, value_length, bounded_value_length, Read,
  fail, return, ◌>>=◌,
}
use modem2sip.Wsp.Values.{fold_be, long_int, integer_value}
use modem2sip.Wsp.Writer.{
  be_bytes, or_zero, write_uintvar, write_value_length, write_long_int, write_integer_value,
}
use modem2sip.Wsp.At.{At, advance-At, u8-At, peek-At, take_bytes-At, remaining-At}
use modem2sip.Wsp.Uintvar.{uintvar-write_uintvar}
use native.Mathlib.Nat.{pow-suc}

module _ (env : Env) where
  -- A length that the target's `usize` holds is read back.
  pub value_length-write_value_length :
      (len : ℕ) (r : Reader) (s : Bytes)
      → len < 2 ^ 56
      → len ≤ env.usize_max
      → At r (write_value_length len ++ s)
      → value_length env r ≡ (some len, advance (length (write_value_length len)) r)
  unfolding value_length write_value_length
  value_length-write_value_length len r s lt fits h = elim (Bool-cases (leb len 30)) [
    | inl short ↦ rw short (rw (peek-At r (len % 256) s (rw short at h)) (ground arith))
    | inr long ↦ rw long (
        rw (peek-At r 0x1F (write_uintvar len ++ s) (rw long at h)) (
          rw
            (uintvar-write_uintvar len (advance 1 r) s lt
              (advance-At r (0x1F ∷ []) (write_uintvar len ++ s) (rw long at h)))
            (ground arith)))
  ]

  -- A declared length that the buffer holds is kept.
  pub bounded_value_length-write_value_length :
      (len : ℕ) (r : Reader) (s : Bytes)
      → len < 2 ^ 56
      → len ≤ env.usize_max
      → len ≤ length s
      → At r (write_value_length len ++ s)
      → bounded_value_length env r ≡ (some len, advance (length (write_value_length len)) r)
  unfolding bounded_value_length
  bounded_value_length-write_value_length len r s lt fits held h =
      rw (value_length-write_value_length len r s lt fits h) (
        ap (λ (n : ℕ). (some n, advance (length (write_value_length len)) r))
          (omega (
            arith,
            remaining-At (advance (length (write_value_length len)) r) s
                (advance-At r (write_value_length len) s h),
          )))

abbrev eval_be : ℕ → Bytes → ℕ
eval_be acc [] = acc
eval_be acc (b ∷ bs) = eval_be (acc * 256 + b) bs

le-eval_be : (bs : Bytes) (acc : ℕ) → acc ≤ eval_be acc bs
le-eval_be [] acc = omega arith
le-eval_be (b ∷ bs) acc = omega (arith, le-eval_be bs (acc * 256 + b))

fold_be-eval_be : (bs : Bytes) (acc : ℕ) → eval_be acc bs < 2 ^ 64 → fold_be acc bs ≡ eval_be acc bs
unfolding fold_be
fold_be-eval_be [] acc h = refl
fold_be-eval_be (b ∷ bs) acc h =
    ap (λ (n : ℕ). fold_be n bs) (omega (arith, le-eval_be bs (acc * 256 + b), h))
    ∙ fold_be-eval_be bs (acc * 256 + b) h

eval_be-be_bytes :
    (fuel v : ℕ) (bs : Bytes) → v < 256 ^ fuel → eval_be 0 (be_bytes fuel v bs) ≡ eval_be v bs
unfolding be_bytes
eval_be-be_bytes zero v bs h = ap (λ (n : ℕ). eval_be n bs) (omega arith)
eval_be-be_bytes (suc fuel) v bs h = elim (Bool-cases (v == 0)) [
  | inl done ↦ rw done (ap (λ (n : ℕ). eval_be n bs) (ground arith))
  | inr more ↦ rw more (
      eval_be-be_bytes fuel (v / 256) (v % 256 ∷ bs) (omega (arith, rw pow-suc at h))
      ∙ ap (λ (n : ℕ). eval_be n bs) (omega arith))
]

length-be_bytes : (fuel v : ℕ) (bs : Bytes) → length (be_bytes fuel v bs) ≤ fuel + length bs
unfolding be_bytes
length-be_bytes zero v bs = omega arith
length-be_bytes (suc fuel) v bs = ground (arith, length-be_bytes fuel (v / 256) (v % 256 ∷ bs))

or_zero_lem :
    (bs : Bytes)
    → length bs ≤ 8
    → (1 ≤ length (or_zero bs))
      × (length (or_zero bs) ≤ 8)
      × (eval_be 0 (or_zero bs) ≡ eval_be 0 bs)
or_zero_lem [] h = omega arith
or_zero_lem (b ∷ bs) h = (omega arith, h, refl)

abbrev long_int_after : ℕ → Read ℕ
long_int_after len =
    if len == 0 || ltb 8 len then fail else (do bytes ← take_bytes len; return (fold_be 0 bytes))

in_range : (n : ℕ) → 1 ≤ n → n ≤ 8 → (n == 0 || ltb 8 n) ≡ false
in_range n lo hi = ground arith

long_int-bytes :
    (bs : Bytes) (r : Reader) (s : Bytes)
    → 1 ≤ length bs
    → length bs ≤ 8
    → eval_be 0 bs < 2 ^ 64
    → At r (length bs % 256 ∷ (bs ++ s))
    → long_int r ≡ (some (eval_be 0 bs), advance (1 + length bs) r)
unfolding long_int
long_int-bytes bs r s lo hi fits h = rw (u8-At r (length bs % 256) (bs ++ s) h) (
    ap (λ (n : ℕ). long_int_after n (advance 1 r)) small
    ∙ rw (in_range _ lo hi) (
        rw (take_bytes-At (advance 1 r) bs s (advance-At r (length bs % 256 ∷ []) (bs ++ s) h))
          (ground (arith, fold_be-eval_be bs 0 fits))))
  where
    small : length bs % 256 ≡ length bs
    small = omega arith

-- A u64 is read back as a long integer.
pub long_int-write_long_int :
    (v : ℕ) (r : Reader) (s : Bytes)
    → v < 2 ^ 64
    → At r (write_long_int v ++ s)
    → long_int r ≡ (some v, advance (length (write_long_int v)) r)
unfolding write_long_int
long_int-write_long_int v r s lt h =
    let short = length-be_bytes 8 v [] in
    let (lo, hi, same) = or_zero_lem (be_bytes 8 v []) (omega arith) in
    let value : eval_be 0 (or_zero (be_bytes 8 v [])) ≡ v =
      same ∙ eval_be-be_bytes 8 v [] (omega arith) in
    long_int-bytes (or_zero (be_bytes 8 v [])) r s lo hi (omega (arith, value)) h
    ∙ ground (arith, value)

-- The length byte is no short integer.
long_header : (v : ℕ) → high_bit (length (or_zero (be_bytes 8 v [])) % 256) ≡ false
long_header v =
    let (lo, hi, same) = or_zero_lem (be_bytes 8 v []) (length-be_bytes 8 v []) in ground arith

-- Every u64 that stands next in the buffer as write_integer_value writes it, in the short or in
-- the long form, is what integer_value reads, and the reader is left right behind it.
pub integer_value-write_integer_value :
    (v : ℕ) (r : Reader) (s : Bytes)
    → v < 2 ^ 64
    → At r (write_integer_value v ++ s)
    → integer_value r ≡ (some v, advance (length (write_integer_value v)) r)
unfolding integer_value write_integer_value write_long_int
integer_value-write_integer_value v r s lt h = elim (Bool-cases (leb v 127)) [
  | inl short ↦ rw short (rw (peek-At r (with_high_bit (v % 256)) s (rw short at h)) (ground arith))
  | inr long ↦ rw long (
      rw (peek-At r _ _ (rw long at h))
        (rw (long_header v) (long_int-write_long_int v r s lt (rw long at h))))
]
