-- ===== src/Wsp/At.antt =====
-- What a reader does in front of given bytes: `At r s` says that `s` is what `r` has not read.
use modem2sip.Common.{
  ℕ, suc, ◌+◌, ◌-◌, ◌<◌, ◌≡◌, ◌≢◌, refl, sym, ap, ◌∙◌, arith, [], ◌∷◌, ◌++◌, Option, none, some,
  length, take, drop, length-append, length-drop, take-append, drop-append, drop-add,
  get_elem?-drop, append_assoc, All, true, false, ◌==◌, Bool-cases, inl, inr, append-nil,
}
use modem2sip.Text.{Bytes, Text, from_utf8_lossy}
use modem2sip.Wsp.Reader.{
  Reader, slice, advance, remaining, eof, peek, u8, take_bytes, text_loop, text_string, new,
  text_from,
}

abbrev pub At : Reader → Bytes → Type 0
At r s = drop r.pos r.buf ≡ s

pub new-At : (s : Bytes) → At (new s) s
new-At s = refl

pub advance-At : (r : Reader) (xs s : Bytes) → At r (xs ++ s) → At (advance (length xs) r) s
advance-At r xs s h = drop-add r.pos (length xs) r.buf ∙ ap (drop (length xs)) h ∙ drop-append xs s

pub advance-add : (r : Reader) (m n : ℕ) → advance n (advance m r) ≡ advance (m + n) r
advance-add r m n = ap (λ (p : ℕ). record r { pos = p }) (omega arith)

pub peek-At : (r : Reader) (b : ℕ) (s : Bytes) → At r (b ∷ s) → peek r ≡ some b
unfolding peek
peek-At r b s h = get_elem?-drop r.pos r.buf ∙ rw h

pub peek-At_nil : (r : Reader) → At r [] → peek r ≡ none
unfolding peek
peek-At_nil r h = get_elem?-drop r.pos r.buf ∙ rw h

pub remaining-At : (r : Reader) (s : Bytes) → At r s → remaining r ≡ length s
unfolding remaining
remaining-At r s h = omega (arith, length-drop r.pos r.buf, ap length h)

pub eof-At : (r : Reader) (b : ℕ) (s : Bytes) → At r (b ∷ s) → eof r ≡ false
unfolding eof
eof-At r b s h = ground (arith, length-drop r.pos r.buf, ap length h)

pub eof-At_nil : (r : Reader) → At r [] → eof r ≡ true
unfolding eof
eof-At_nil r h = ground (arith, length-drop r.pos r.buf, ap length h)

pub u8-At : (r : Reader) (b : ℕ) (s : Bytes) → At r (b ∷ s) → u8 r ≡ (some b, advance 1 r)
unfolding u8
u8-At r b s h = rw (get_elem?-drop r.pos r.buf) (rw h)

pub slice-At :
    (r : Reader) (xs s : Bytes) → At r (xs ++ s) → slice r.buf r.pos (r.pos + length xs) ≡ xs
slice-At r xs s h =
    ap (λ n. take n (drop r.pos r.buf)) width ∙ ap (take (length xs)) h ∙ take-append xs s
  where
    width : r.pos + length xs - r.pos ≡ length xs
    width = omega arith

pub take_bytes-At :
    (r : Reader) (xs s : Bytes)
    → At r (xs ++ s)
    → take_bytes (length xs) r ≡ (some xs, advance (length xs) r)
unfolding take_bytes
take_bytes-At r xs s h =
    ground (arith, remaining-At r (xs ++ s) h, length-append xs s, slice-At r xs s h)

-- The loop has passed `done`, which stands at `start`.
text_loop-At :
    (xs : Bytes) (start : ℕ) (done more s : Bytes)
    → drop start xs ≡ done ++ (more ++ 0 ∷ s)
    → All (λ b. 0 < b) more
    → text_loop xs start (start + length done) (more ++ 0 ∷ s)
      ≡ (some (from_utf8_lossy (done ++ more)), start + length done + length more + 1)
unfolding text_loop
text_loop-At xs start done [] s h nz =
    rw (cut, append-nil) (ap (λ (p : ℕ). (some (from_utf8_lossy done), p)) (omega arith))
  where
    cut : take (start + length done - start) (drop start xs) ≡ done
    cut =
        ap (λ n. take n (drop start xs)) width
        ∙ ap (take (length done)) h
        ∙ take-append done (0 ∷ s)
      where
        width : start + length done - start ≡ length done
        width = omega arith
text_loop-At xs start done (b ∷ more) s h nz = elim (Bool-cases (b == 0)) [
  | inl z ↦ absurd (ground arith)
  | inr z ↦ rw z (shift ∙ text_loop-At xs start (done ++ b ∷ []) more s split nz.1 ∙ finish)
]
  where
    split : drop start xs ≡ (done ++ b ∷ []) ++ (more ++ 0 ∷ s)
    split = h ∙ sym (append_assoc done (b ∷ []) _)

    shift :
        text_loop xs start (start + length done + 1) (more ++ 0 ∷ s)
        ≡ text_loop xs start (start + length (done ++ b ∷ [])) (more ++ 0 ∷ s)
    shift =
        ap (λ (p : ℕ). text_loop xs start p (more ++ 0 ∷ s))
          (omega (arith, length-append done (b ∷ [])))

    finish :
        ◌≡◌ {A = Option Text × ℕ}
          (
            some (from_utf8_lossy ((done ++ b ∷ []) ++ more)),
            start + length (done ++ b ∷ []) + length more + 1,
          )
          (some (from_utf8_lossy (done ++ (b ∷ more))), start + length done + suc (length more) + 1)
    finish = ground (arith, append_assoc done (b ∷ []) more, length-append done (b ∷ []))

pub ne→false : (a b : ℕ) → a ≢ b → (a == b) ≡ false
ne→false a b h = ground arith

-- A text that is not quoted is read up to its NUL.
pub text_from-At :
    (r : Reader) (bs s : Bytes)
    → At r (bs ++ 0 ∷ s)
    → All (λ b. 0 < b) bs
    → text_from r ≡ (some (from_utf8_lossy bs), advance (length bs + 1) r)
text_from-At r bs s h nz =
    ap (λ (q : Option Text × ℕ). (q.0, record r { pos = q.1 }))
      ((λ i. text_loop r.buf r.pos (zero_behind i) (h i))
        ∙ text_loop-At r.buf r.pos [] bs s h nz
        ∙ ap (λ (p : ℕ). (some (from_utf8_lossy bs), p)) (omega arith))
  where
    zero_behind : r.pos ≡ r.pos + 0
    zero_behind = omega arith

pub text_string-At :
    (r : Reader) (b : ℕ) (bs s : Bytes)
    → At r (b ∷ (bs ++ 0 ∷ s))
    → b ≢ 0x7F
    → All (λ b. 0 < b) (b ∷ bs)
    → text_string r ≡ (some (from_utf8_lossy (b ∷ bs)), advance (length (b ∷ bs) + 1) r)
unfolding text_string
text_string-At r b bs s h ne nz =
    rw (peek-At r b (bs ++ 0 ∷ s) h) (rw (ne→false b 0x7F ne) (text_from-At r (b ∷ bs) s h nz))

-- The quote is passed over.
pub text_string-At_quoted :
    (r : Reader) (bs s : Bytes)
    → At r (0x7F ∷ (bs ++ 0 ∷ s))
    → All (λ b. 0 < b) bs
    → text_string r ≡ (some (from_utf8_lossy bs), advance (length bs + 2) r)
unfolding text_string
text_string-At_quoted r bs s h nz = rw (peek-At r 0x7F (bs ++ 0 ∷ s) h) (
    text_from-At (advance 1 r) bs s (advance-At r (0x7F ∷ []) (bs ++ 0 ∷ s) h) nz
    ∙ ap (λ (q : Reader). (some (from_utf8_lossy bs), q))
        (advance-add r 1 (length bs + 1) ∙ ap (λ n. advance n r) (omega arith)))

pub text_string-At_empty :
    (r : Reader) (s : Bytes) → At r (0 ∷ s) → text_string r ≡ (some [], advance 1 r)
unfolding text_string from_utf8_lossy
text_string-At_empty r s h = rw (peek-At r 0 s h) (text_from-At r [] s h tt)
