-- ===== src/Auth/Check.antt =====
-- What the server accepts.
use Prim.Native.Nat.{bit_or, bit_xor}
use modem2sip.Common.{
  ℕ, ◌≡◌, refl, sym, ap, ap₂, ◌∙◌, arith, true, ◌&&◌, [], ◌∷◌, ◌==◌, length, Bool-cases, inl, inr,
}
use modem2sip.Common.Bits.{bit_or-zero, bit_xor-zero, bit_xor_self, bit_or-none}
use modem2sip.Text.{Bytes, Text, as_bytes}
use modem2sip.Text.Ops.{equal}
use modem2sip.Text.Equal.{equal_self, equal→≡}
use modem2sip.Auth.Params.{Challenge, Credentials}
use modem2sip.Auth.Digest.{difference, same_bytes, answer, expected, verify}

difference_self : (a : Bytes) → difference 0 a a ≡ 0
unfolding difference
difference_self [] = refl
difference_self (x ∷ a) = rw (bit_xor_self x, bit_or-none) (difference_self a)

difference_zero :
    (acc : ℕ) (a b : Bytes) → length a ≡ length b → difference acc a b ≡ 0 → (acc ≡ 0) × (a ≡ b)
unfolding difference
difference_zero acc [] [] same h = (h, refl)
difference_zero acc [] (y ∷ b) same h = absurd (omega (arith, same))
difference_zero acc (x ∷ a) [] same h = absurd (omega (arith, same))
difference_zero acc (x ∷ a) (y ∷ b) same h =
    let (here, later) = difference_zero (bit_or acc (bit_xor x y)) a b (omega (arith, same)) h in
    let (before, digits) = bit_or-zero acc (bit_xor x y) here in
    (before, ap₂ ◌∷◌ (bit_xor-zero x y digits) later)

same_bytes-equal : (a b : Bytes) → same_bytes a b ≡ equal a b
unfolding same_bytes
same_bytes-equal a b = elim (Bool-cases (equal a b)) [
  | inl same ↦
      let here : difference 0 a b ≡ 0 = rw (equal→≡ a b same) (difference_self b) in
      let long : length a ≡ length b = ap length (equal→≡ a b same) in
      rw (same, here, long) (ground arith)
  | inr other ↦ elim (Bool-cases (length a == length b && difference 0 a b == 0)) [
    | inl passes ↦
        let long : length a ≡ length b = ground (arith, passes) in
        let nothing : difference 0 a b ≡ 0 = ground (arith, passes) in
        let paths = difference_zero 0 a b long nothing in
        let self : equal a b ≡ true = rw (paths.1) (equal_self b) in ground (arith, self, other)
    | inr fails ↦ fails ∙ sym other
  ]
]

module _ (md5 : Bytes → Bytes) where
  -- The comparison of verify, with lengths and an accumulated difference of bytes, is equality:
  -- it accepts exactly when the bytes of the expected digest and those of the response are the
  -- same, for every hash function.
  pub verify-equal :
      (creds : Credentials) (password method : Text) (body : Bytes)
      → verify md5 creds password method body
        ≡ equal (as_bytes (expected md5 creds password method body)) (as_bytes creds.response)
  unfolding verify
  verify-equal creds password method body =
      same_bytes-equal (as_bytes (expected md5 creds password method body))
        (as_bytes creds.response)

  -- Whatever the challenge, the hash function and the random bytes, the credentials that answer
  -- computes for a password, a method and a body are accepted by verify for the same password,
  -- method and body.
  pub verify-answer :
      (challenge : Challenge) (username password method uri : Text) (body : Bytes) (count : ℕ)
      (drawn : Bytes)
      → verify md5
          (answer md5 challenge username password method uri body count drawn)
          password
          method
          body
        ≡ true
  unfolding answer
  verify-answer challenge username password method uri body count drawn =
      verify-equal (answer md5 challenge username password method uri body count drawn) password
        method body
      ∙ equal_self
          (as_bytes (answer md5 challenge username password method uri body count drawn).response)
