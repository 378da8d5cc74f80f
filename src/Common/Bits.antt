-- ===== src/Common/Bits.antt =====
-- Binary digits: when an or is zero, and an exclusive or.
use Prim.Native.Nat.{
  ℕ, zero, suc, ◌/◌, ◌%◌, ◌≤◌, max, digits, differ, bit_or, bit_xor, bit_or-bitwise,
  bit_xor-bitwise,
}
use mathlib.Core.Path.{◌≡◌, refl, sym, ap, ◌∙◌}
use native.Mathlib.Omega.{arith}

or_zero : (n a b : ℕ) → a ≤ n → digits (λ d. d) max n a b ≡ 0 → (a ≡ 0) × (b ≡ 0)
or_zero zero a b le h = (omega (arith, le), h)
or_zero (suc n) zero b le h = (refl, h)
or_zero (suc n) (suc a) b le h =
    let high : digits (λ d. d) max n (suc a / 2) (b / 2) ≡ 0 = omega (arith, h) in
    let low : max (suc a % 2) (b % 2) ≡ 0 = omega (arith, h) in
    let (first, second) = or_zero n (suc a / 2) (b / 2) (omega (arith, le)) high in
    (omega (arith, first, low), omega (arith, second, low))

pub bit_or-zero : (a b : ℕ) → bit_or a b ≡ 0 → (a ≡ 0) × (b ≡ 0)
bit_or-zero a b h = or_zero a a b (omega arith) (sym (bit_or-bitwise a b) ∙ h)

differ-zero : (x y : ℕ) → differ x y ≡ 0 → x ≡ y
differ-zero zero y h = omega (arith, h)
differ-zero (suc x) zero h = omega (arith, h)
differ-zero (suc x) (suc y) h = ap suc (differ-zero x y h)

differ_self : (x : ℕ) → differ x x ≡ 0
differ_self zero = refl
differ_self (suc x) = differ_self x

xor_zero : (n a b : ℕ) → a ≤ n → digits (λ d. d) differ n a b ≡ 0 → a ≡ b
xor_zero zero a b le h = omega (arith, le, h)
xor_zero (suc n) zero b le h = omega (arith, h)
xor_zero (suc n) (suc a) b le h =
    let high : digits (λ d. d) differ n (suc a / 2) (b / 2) ≡ 0 = omega (arith, h) in
    let low : differ (suc a % 2) (b % 2) ≡ 0 = omega (arith, h) in
    let halves = xor_zero n (suc a / 2) (b / 2) (omega (arith, le)) high in
    omega (arith, halves, differ-zero (suc a % 2) (b % 2) low)

pub bit_xor-zero : (a b : ℕ) → bit_xor a b ≡ 0 → a ≡ b
bit_xor-zero a b h = xor_zero a a b (omega arith) (sym (bit_xor-bitwise a b) ∙ h)

xor_self : (n a : ℕ) → a ≤ n → digits (λ d. d) differ n a a ≡ 0
xor_self zero a le = omega (arith, le)
xor_self (suc n) zero le = refl
xor_self (suc n) (suc a) le =
    let high = xor_self n (suc a / 2) (omega (arith, le)) in
    omega (arith, high, differ_self (suc a % 2))

pub bit_xor_self : (a : ℕ) → bit_xor a a ≡ 0
bit_xor_self a = bit_xor-bitwise a a ∙ xor_self a a (omega arith)

pub bit_or-none : bit_or 0 0 ≡ 0
bit_or-none = bit_or-bitwise 0 0
