-- ===== src/Wsp/Bounds.antt =====
-- The methods of `Reader` keep the position inside the buffer and never move it back.
use modem2sip.Common.{
  ℕ, zero, suc, ◌+◌, ◌-◌, ◌≤◌, ◌<◌, ◌≡◌, refl, ◌∙◌, arith, Bool, true, false, List, [], ◌∷◌, Option,
  none, some, length, get_elem?, drop, length-drop, if◌then◌else◌, ltb, ◌==◌, not, Bool-cases, inl,
  inr,
}
use modem2sip.Text.{Bytes}
use modem2sip.Wsp.Reader.{
  Reader, Read, ◌>>=◌, then_read, return, fail, bump, advance, with_default, or_else, peeked, peek,
  u8, take_byte, take_bytes, remaining, uintvar_loop, uintvar, text_loop, text_from, text_string,
  is_quote, high_bit,
}

-- `r'` is `r` after some reading.
pub record Forward (r r' : Reader) : Type 0 where
  pub same : r'.buf ≡ r.buf
  pub le : r.pos ≤ r'.pos
  pub inside : r.pos ≤ length r.buf → r'.pos ≤ length r.buf

pub Forward-refl : (r : Reader) → Forward r r
Forward-refl r = record { same = refl; le = omega arith; inside = λ h. h }

pub Forward-trans : {r r' r'' : Reader} → Forward r r' → Forward r' r'' → Forward r r''
Forward-trans f g = record {
  same = g.same ∙ f.same;
  le = omega arith;
  inside = λ h. rw f.same at (g.inside (rw f.same (f.inside h)));
}

-- A method that only moves forward.
pub record Moves {ℓ} {A : Type ℓ} (m : Read A) : Type 0 where
  pub forward : (r : Reader) → Forward r (m r).1

-- The same of a method that is called where a byte is left.
pub record MovesInside {ℓ} {A : Type ℓ} (m : Read A) : Type 0 where
  pub forward : (r : Reader) → r.pos < length r.buf → Forward r (m r).1

module _ {ℓ κ} {A : Type ℓ} {B : Type κ} where
  pub then_read-Forward :
      (r : Reader) (f : A → Read B) (x : Option A × Reader)
      → Forward r x.1
      → ((a : A) → Moves (f a))
      → Forward r (then_read f x).1
  then_read-Forward r f (none, r') h k = h
  then_read-Forward r f (some a, r') h k = Forward-trans h ((k a).forward r')

  pub >>=-Moves :
      {m : Read A} {f : A → Read B} → Moves m → ((a : A) → Moves (f a)) → Moves (m >>= f)
  >>=-Moves {m} {f} h k = record { forward = λ r. then_read-Forward r f (m r) (h.forward r) k }

  pub >>=-MovesInside :
      {m : Read A} {f : A → Read B}
      → MovesInside m
      → ((a : A) → Moves (f a))
      → MovesInside (m >>= f)
  >>=-MovesInside {m} {f} h k = record {
    forward = λ r lt. then_read-Forward r f (m r) (h.forward r lt) k;
  }

module _ {ℓ} {A : Type ℓ} where
  pub if-Moves : (b : Bool) {m n : Read A} → Moves m → Moves n → Moves (if b then m else n)
  if-Moves true h k = h
  if-Moves false h k = k

  pub if-MovesInside :
      (b : Bool) {m n : Read A} → MovesInside m → MovesInside n → MovesInside (if b then m else n)
  if-MovesInside true h k = h
  if-MovesInside false h k = k

  pub return-Moves : (a : A) → Moves (return a)
  return-Moves a = record { forward = Forward-refl }

  pub Moves-MovesInside : {m : Read A} → Moves m → MovesInside m
  Moves-MovesInside h = record { forward = λ r _. h.forward r }

  or_else-Forward :
      (r : Reader) (d : A) (x : Option A × Reader) → Forward r x.1 → Forward r (or_else d x).1
  or_else-Forward r d (none, r') h = h
  or_else-Forward r d (some a, r') h = h

  pub with_default-Moves : (d : A) {m : Read A} → Moves m → Moves (with_default d m)
  with_default-Moves d {m} h = record { forward = λ r. or_else-Forward r d (m r) (h.forward r) }

pub fail-Moves {ℓ} : (A : Type ℓ) → Moves (fail {A = A})
fail-Moves A = record { forward = Forward-refl }

pub advance-Forward : (n : ℕ) (r : Reader) → r.pos + n ≤ length r.buf → Forward r (advance n r)
advance-Forward n r h = record { same = refl; le = omega arith; inside = λ _. h }

pub bump-MovesInside : MovesInside (bump 1)
bump-MovesInside = record { forward = λ r h. advance-Forward 1 r (omega arith) }

-- A byte is left where `get` finds one.
get_elem?-lt {ℓ} :
    {A : Type ℓ} (xs : List A) (i : ℕ) {a : A} → get_elem? xs i ≡ some a → i < length xs
get_elem?-lt [] i h = cc
get_elem?-lt (x ∷ xs) zero h = omega arith
get_elem?-lt (x ∷ xs) (suc i) h = omega (arith, get_elem?-lt xs i h)

pub peek-lt : (r : Reader) {b : ℕ} → peek r ≡ some b → r.pos < length r.buf
unfolding peek
peek-lt r e = get_elem?-lt r.buf r.pos e

-- After `self.peek()?` a byte is left.
pub peeked-Moves {ℓ} :
    {A : Type ℓ} {f : ℕ → Read A} → ((b : ℕ) → MovesInside (f b)) → Moves (peeked >>= f)
peeked-Moves {f} h = record { forward = λ r. go r (peek r) refl }
  where
    go : (r : Reader) (o : Option ℕ) → peek r ≡ o → Forward r (then_read f (o, r)).1
    go r none e = Forward-refl r
    go r (some b) e = (h b).forward r (peek-lt r e)

pub u8-Moves : Moves u8
unfolding u8
u8-Moves = record { forward = λ r. go r (get_elem? r.buf r.pos) refl }
  where
    go : (r : Reader) (o : Option ℕ) → get_elem? r.buf r.pos ≡ o → Forward r (take_byte r o).1
    go r none e = Forward-refl r
    go r (some b) e = advance-Forward 1 r (omega (arith, get_elem?-lt r.buf r.pos e))

pub take_bytes-Moves : (n : ℕ) → Moves (take_bytes n)
unfolding take_bytes remaining
take_bytes-Moves n = record {
  forward = λ r. elim (Bool-cases (ltb (remaining r) n)) [
    | inl short ↦ rw short (Forward-refl r)
    | inr fits ↦ rw fits (record { same = refl; le = omega arith; inside = λ h. ground arith })
  ];
}

uintvar_loop-Moves : (k value : ℕ) → Moves (uintvar_loop k value)
unfolding uintvar_loop
uintvar_loop-Moves zero value = fail-Moves ℕ
uintvar_loop-Moves (suc k) value =
    >>=-Moves u8-Moves (λ b. if-Moves (not (high_bit b)) (return-Moves _) (uintvar_loop-Moves k _))

pub uintvar-Moves : Moves uintvar
unfolding uintvar
uintvar-Moves = uintvar_loop-Moves 8 0

-- The loop stops inside the buffer, and behind a byte if there is one.
text_loop-pos :
    (xs : Bytes) (start pos : ℕ) (bs : Bytes)
    → length bs ≡ length xs - pos
    → (start < length xs → pos ≤ length xs)
    → (pos ≤ (text_loop xs start pos bs).1)
      × (pos ≤ length xs → (text_loop xs start pos bs).1 ≤ length xs)
      × (0 < length bs → pos < (text_loop xs start pos bs).1)
unfolding text_loop
text_loop-pos xs start pos [] h k = ground arith
text_loop-pos xs start pos (b ∷ bs) h k =
    ground (arith, text_loop-pos xs start (pos + 1) bs (omega arith) (λ _. omega arith))

text_from-Forward : (r : Reader) → Forward r (text_from r).1
text_from-Forward r =
    let (lo, hi, _) =
      text_loop-pos r.buf r.pos r.pos (drop r.pos r.buf) (length-drop r.pos r.buf)
        (λ h. omega arith) in
    record { same = refl; le = lo; inside = hi }

pub text_string-Moves : Moves text_string
unfolding text_string
text_string-Moves = record { forward = λ r. go r (peek r) refl }
  where
    go :
        (r : Reader) (o : Option ℕ)
        → peek r ≡ o
        → Forward r (text_from (if is_quote o then advance 1 r else r)).1
    go r none e = text_from-Forward r
    go r (some b) e = elim (Bool-cases (b == 0x7F)) [
      | inl quote ↦ rw quote (
          Forward-trans (advance-Forward 1 r (omega (arith, peek-lt r e)))
            (text_from-Forward (advance 1 r)))
      | inr other ↦ rw other (text_from-Forward r)
    ]

-- Where a byte is left, a text string takes one at least.
pub text_string-lt : (r : Reader) {b : ℕ} → peek r ≡ some b → r.pos < (text_string r).1.pos
unfolding text_string
text_string-lt r {b} e = rw e (elim (Bool-cases (b == 0x7F)) [
  | inl quote ↦ rw quote (omega (arith, (text_from-Forward (advance 1 r)).le))
  | inr other ↦ rw other (taken.2 (omega (arith, peek-lt r e, length-drop r.pos r.buf)))
])
  where
    taken :
        (r.pos ≤ (text_from r).1.pos)
        × (r.pos ≤ length r.buf → (text_from r).1.pos ≤ length r.buf)
        × (0 < length (drop r.pos r.buf) → r.pos < (text_from r).1.pos)
    taken =
        text_loop-pos r.buf r.pos r.pos (drop r.pos r.buf) (length-drop r.pos r.buf)
          (λ h. omega arith)
