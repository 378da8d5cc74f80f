-- ===== src/Text/Equal.antt =====
-- Equality of texts, as a test and as a path.
use modem2sip.Common.{
  ◌≡◌, ◌≢◌, refl, ap₂, subst, arith, true, false, ◌&&◌, [], ◌∷◌, ◌==◌, Bool-cases, inl, inr,
}
use modem2sip.Text.{Text}
use modem2sip.Text.Ops.{equal}

pub equal_self : (s : Text) → equal s s ≡ true
unfolding equal
equal_self [] = refl
equal_self (c ∷ s) = let same : (c == c) ≡ true = ground arith in rw same (equal_self s)

pub equal→≡ : (s t : Text) → equal s t ≡ true → s ≡ t
unfolding equal
equal→≡ [] [] h = refl
equal→≡ [] (d ∷ t) h = ground arith
equal→≡ (c ∷ s) [] h = ground arith
equal→≡ (c ∷ s) (d ∷ t) h = elim (Bool-cases (c == d)) [
  | inl same ↦
      let head : c ≡ d = ground arith in
      ap₂ ◌∷◌ head (equal→≡ s t (subst (λ b. (b && equal s t) ≡ true) same h))
  | inr differ ↦ ground (arith, h, differ)
]

pub equal-ne : (s t : Text) → s ≢ t → equal s t ≡ false
equal-ne s t ne = elim (Bool-cases (equal s t)) [
  | inl same ↦ absurd (ne (equal→≡ s t same))
  | inr other ↦ other
]

pub equal_sym : (s t : Text) → equal s t ≡ equal t s
equal_sym s t = elim (Bool-cases (equal s t)) [
  | inl same ↦ rw (equal→≡ s t same)
  | inr other ↦ elim (Bool-cases (equal t s)) [
    | inl same ↦ rw (equal→≡ t s same)
    | inr differ ↦ rw (other, differ)
  ]
]
