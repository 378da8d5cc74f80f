-- ===== src/Wsp/Uintvar.antt =====
-- `Reader::uintvar` against `write_uintvar`.
use modem2sip.Common.{
  ℕ, zero, suc, ◌+◌, ◌*◌, ◌/◌, ◌%◌, ◌^◌, ◌≤◌, ◌<◌, ◌≡◌, refl, sym, ap, ◌∙◌, arith, [], ◌∷◌, ◌++◌,
  some, length, All, true, false, ◌==◌, Bool-cases, inl, inr,
}
use modem2sip.Text.{Bytes}
use modem2sip.Wsp.Reader.{Reader, advance, uintvar_loop, uintvar, high_bit, with_high_bit}
use modem2sip.Wsp.Writer.{uintvar_groups, mark_groups, write_uintvar}
use modem2sip.Wsp.At.{At, advance-At, advance-add, u8-At}
use native.Mathlib.Nat.{pow-suc}

-- The number that groups of seven bits stand for, behind the groups that gave `value`.
abbrev eval : ℕ → Bytes → ℕ
eval value [] = value
eval value (b ∷ bs) = eval (value * 128 + b) bs

le-eval : (bs : Bytes) (value : ℕ) → value ≤ eval value bs
le-eval [] value = omega arith
le-eval (b ∷ bs) value = omega (arith, le-eval bs (value * 128 + b))

eval-uintvar_groups :
    (room v : ℕ) (gs : Bytes) → v < 128 ^ room → eval 0 (uintvar_groups room v gs) ≡ eval v gs
unfolding uintvar_groups
eval-uintvar_groups zero v gs h = ap (λ (n : ℕ). eval n gs) (omega arith)
eval-uintvar_groups (suc room) v gs h = elim (Bool-cases (v / 128 == 0)) [
  | inl last ↦ rw last (ap (λ (n : ℕ). eval n gs) (ground arith))
  | inr more ↦ rw more (
      eval-uintvar_groups room (v / 128) (v % 128 ∷ gs) (omega (arith, rw pow-suc at h))
      ∙ ap (λ (n : ℕ). eval n gs) (omega arith))
]

uintvar_groups-digits :
    (room v : ℕ) (gs : Bytes)
    → All (λ b. b < 128) gs
    → All (λ b. b < 128) (uintvar_groups room v gs)
unfolding uintvar_groups
uintvar_groups-digits zero v gs h = h
uintvar_groups-digits (suc room) v gs h = elim (Bool-cases (v / 128 == 0)) [
  | inl last ↦ rw last (omega arith, h)
  | inr more ↦ rw more (uintvar_groups-digits room (v / 128) (v % 128 ∷ gs) (omega arith, h))
]

length-uintvar_groups :
    (room v k : ℕ) (gs : Bytes)
    → v < 128 ^ suc k
    → (length (uintvar_groups room v gs) ≤ suc k + length gs)
      × (length gs ≤ length (uintvar_groups room v gs))
unfolding uintvar_groups
length-uintvar_groups zero v k gs h = omega arith
length-uintvar_groups (suc room) v zero gs h = ground arith
length-uintvar_groups (suc room) v (suc k) gs h =
    ground (
      arith,
      length-uintvar_groups room (v / 128) k (v % 128 ∷ gs) (omega (arith, rw pow-suc at h)),
    )

-- Some group is written, also for 0.
uintvar_groups_some :
    (room v : ℕ) (gs : Bytes) → (b : ℕ) × (bs : Bytes) × (uintvar_groups (suc room) v gs ≡ b ∷ bs)
unfolding uintvar_groups
uintvar_groups_some room v gs = elim (Bool-cases (v / 128 == 0)) [
  | inl last ↦ (v % 128, gs, rw last)
  | inr more ↦ uintvar_groups_more room v gs more
]
  where
    uintvar_groups_more :
        (room v : ℕ) (gs : Bytes)
        → (v / 128 == 0) ≡ false
        → (b : ℕ) × (bs : Bytes) × (uintvar_groups (suc room) v gs ≡ b ∷ bs)
    uintvar_groups_more zero v gs more = (v % 128, gs, rw more)
    uintvar_groups_more (suc room) v gs more = elim (Bool-cases (v / 128 / 128 == 0)) [
      | inl last ↦ (v / 128 % 128, v % 128 ∷ gs, rw (more, last))
      | inr more' ↦
          let (b, bs, e) = uintvar_groups_more room (v / 128) (v % 128 ∷ gs) more' in
          (b, bs, rw more e)
    ]

pub length-mark_groups : (gs : Bytes) → length (mark_groups gs) ≡ length gs
unfolding mark_groups
length-mark_groups [] = refl
length-mark_groups (b ∷ []) = refl
length-mark_groups (b ∷ c ∷ bs) = ap suc (length-mark_groups (c ∷ bs))

with_high_bit_set : (b : ℕ) → b < 128 → high_bit (with_high_bit b) ≡ true
with_high_bit_set b h = ground arith

-- One byte of the loop: the last, and one with the continuation bit.
last_group :
    (k value b : ℕ) (r : Reader) (s : Bytes)
    → At r (b ∷ s)
    → b < 128
    → value * 128 + b < 2 ^ 64
    → uintvar_loop (suc k) value r ≡ (some (value * 128 + b), advance 1 r)
unfolding uintvar_loop
last_group k value b r s h lt fits = rw (u8-At r b s h) (ground arith)

next_group :
    (k value b : ℕ) (r : Reader) (s : Bytes)
    → At r (with_high_bit b ∷ s)
    → b < 128
    → value * 128 + b < 2 ^ 64
    → uintvar_loop (suc k) value r ≡ uintvar_loop k (value * 128 + b) (advance 1 r)
unfolding uintvar_loop
next_group k value b r s h lt fits =
    rw (u8-At r (with_high_bit b) s h)
      (rw (with_high_bit_set b lt) (ap (λ (n : ℕ). uintvar_loop k n (advance 1 r)) (ground arith)))

uintvar_loop-mark_groups :
    (gs : Bytes) (k value b : ℕ) (r : Reader) (s : Bytes)
    → At r (mark_groups (b ∷ gs) ++ s)
    → All (λ b. b < 128) (b ∷ gs)
    → length gs < k
    → eval value (b ∷ gs) < 2 ^ 64
    → uintvar_loop k value r ≡ (some (eval value (b ∷ gs)), advance (suc (length gs)) r)
unfolding mark_groups
uintvar_loop-mark_groups gs zero value b r s h digits len fits = absurd (omega arith)
uintvar_loop-mark_groups [] (suc k) value b r s h digits len fits =
    last_group k value b r s h digits.0 fits
uintvar_loop-mark_groups (c ∷ gs) (suc k) value b r s h digits len fits =
    next_group k value b r (mark_groups (c ∷ gs) ++ s) h digits.0
      (omega (arith, le-eval (c ∷ gs) (value * 128 + b), fits))
    ∙ uintvar_loop-mark_groups gs k (value * 128 + b) c (advance 1 r) s
        (advance-At r (with_high_bit b ∷ []) (mark_groups (c ∷ gs) ++ s) h) digits.1 (omega arith)
        fits
    ∙ ap (λ (q : Reader). (some (eval value (b ∷ c ∷ gs)), q))
        (advance-add r 1 (suc (length gs)) ∙ ap (λ n. advance n r) (omega arith))

-- A value below 2^56 that stands next in the buffer as write_uintvar writes it is what uintvar
-- reads, whatever follows, and the reader is left right behind it.
pub uintvar-write_uintvar :
    (v : ℕ) (r : Reader) (s : Bytes)
    → v < 2 ^ 56
    → At r (write_uintvar v ++ s)
    → uintvar r ≡ (some v, advance (length (write_uintvar v)) r)
unfolding uintvar write_uintvar
uintvar-write_uintvar v r s lt h = rw (length-mark_groups (uintvar_groups 10 v [])) (
    rw e (
      uintvar_loop-mark_groups bs 8 0 b r s (rw e at h) (rw e at (uintvar_groups-digits 10 v [] tt))
        (omega (arith, ap length e, length-uintvar_groups 10 v 7 [] (omega arith)))
        (omega (arith, value))
      ∙ ap (λ (n : ℕ). (some n, advance (suc (length bs)) r)) value))
  where
    found : (b : ℕ) × (bs : Bytes) × (uintvar_groups 10 v [] ≡ b ∷ bs)
    found = uintvar_groups_some 9 v []

    b : ℕ
    b = found.0

    bs : Bytes
    bs = found.1

    e : uintvar_groups 10 v [] ≡ b ∷ bs
    e = found.2

    value : eval 0 (b ∷ bs) ≡ v
    value = ap (eval 0) (sym e) ∙ eval-uintvar_groups 10 v [] (omega arith)
