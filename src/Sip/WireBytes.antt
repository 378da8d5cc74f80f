-- ===== src/Sip/WireBytes.antt =====
-- Where the body starts in the bytes of a message.
use modem2sip.Common.{
  ℕ, zero, suc, ◌+◌, ◌<◌, ◌≡◌, refl, sym, ap, ◌∙◌, arith, true, false, List, [], ◌∷◌, ◌++◌, Option,
  some, ◌==◌, All, All-append, append_assoc, append-nil, length, length-append, drop, take-append,
  drop-append, drop-add,
}
use modem2sip.Text.{Bytes, Text, as_bytes, encode_utf8, IsChar}
use modem2sip.Text.Utf8.{as_bytes-append, from_utf8-as_bytes}
use modem2sip.Text.Ops.{starts_with}
use modem2sip.Sip.Headers.{Target}
use modem2sip.Sip.Message.{crlf, plus_one, find_sub, find_body_start, message_in, parse_message}
use modem2sip.Sip.Via.{and_then}
use modem2sip.Sip.Lines.{has_break}
use modem2sip.Sip.Wire.{starts_plain, IsLine, joined, lines_of-joined}

abbrev blank : Bytes
blank = 13 ∷ 10 ∷ 13 ∷ 10 ∷ []

abbrev NotCr : ℕ → Type 0
NotCr b = (b == 13) ≡ false

encode_utf8-NotCr : (c : ℕ) → NotCr c → All NotCr (encode_utf8 c)
unfolding encode_utf8
encode_utf8-NotCr c h = ground (arith, h)

as_bytes-NotCr : (l : Text) → has_break l ≡ false → All NotCr (as_bytes l)
unfolding as_bytes
as_bytes-NotCr [] h = tt
as_bytes-NotCr (c ∷ l) h =
    All-append NotCr (encode_utf8 c) (as_bytes l) (encode_utf8-NotCr c (ground (arith, h)))
      (as_bytes-NotCr l (ground (arith, h)))

-- Moved on by so many bytes.
abbrev plus : ℕ → Option ℕ → Option ℕ
plus zero o = o
plus (suc n) o = plus_one (plus n o)

plus-some : (n m : ℕ) → plus n (some m) ≡ some (n + m)
plus-some zero m = ap some (omega arith)
plus-some (suc n) m = rw (plus-some n m) (ap some (omega arith))

find_sub-other :
    (b : ℕ) (bs : Bytes) → NotCr b → find_sub blank (b ∷ bs) ≡ plus_one (find_sub blank bs)
unfolding find_sub starts_with
find_sub-other b bs other = rw other

find_sub-append :
    (xs bs : Bytes)
    → All NotCr xs
    → find_sub blank (xs ++ bs) ≡ plus (length xs) (find_sub blank bs)
find_sub-append [] bs h = refl
find_sub-append (x ∷ xs) bs h =
    find_sub-other x (xs ++ bs) (h.0) ∙ ap plus_one (find_sub-append xs bs (h.1))

-- A line end with another line behind it.
find_sub-crlf :
    (c : ℕ) (bs : Bytes)
    → NotCr c
    → find_sub blank (13 ∷ 10 ∷ c ∷ bs) ≡ plus 2 (find_sub blank (c ∷ bs))
unfolding find_sub starts_with
find_sub-crlf c bs other = rw other

find_sub-here : (bs : Bytes) → find_sub blank (blank ++ bs) ≡ some 0
unfolding find_sub starts_with
find_sub-here bs = refl

find_sub-crlf_some :
    (xs rest : Bytes)
    → All NotCr xs
    → 0 < length xs
    → find_sub blank (13 ∷ 10 ∷ (xs ++ rest)) ≡ plus 2 (find_sub blank (xs ++ rest))
find_sub-crlf_some [] rest h full = absurd (omega (arith, full))
find_sub-crlf_some (x ∷ xs) rest h full = find_sub-crlf x (xs ++ rest) (h.0)

encode_utf8_some : (c : ℕ) → 0 < length (encode_utf8 c)
unfolding encode_utf8
encode_utf8_some c = ground arith

line_bytes : (m : Text) → starts_plain m ≡ true → 0 < length (as_bytes m)
unfolding as_bytes
line_bytes [] h = ground (arith, h)
line_bytes (c ∷ m) h = omega (arith, encode_utf8_some c, length-append (encode_utf8 c) (as_bytes m))

-- What stands behind the first line.
abbrev rest_bytes : List Text → Bytes
rest_bytes [] = []
rest_bytes (m ∷ ls) = 13 ∷ 10 ∷ as_bytes (joined m ls)

as_bytes-joined : (l : Text) (ls : List Text) → as_bytes (joined l ls) ≡ as_bytes l ++ rest_bytes ls
unfolding as_bytes encode_utf8
as_bytes-joined l [] = sym (append-nil (as_bytes l))
as_bytes-joined l (m ∷ ls) = as_bytes-append l (crlf ++ joined m ls)

find_sub-joined :
    (l : Text) (ls : List Text) (body : Bytes)
    → IsLine l
    → All IsLine ls
    → find_sub blank (as_bytes (joined l ls) ++ (blank ++ body))
      ≡ some (length (as_bytes (joined l ls)))
find_sub-joined l [] body h hs =
    find_sub-append (as_bytes l) (blank ++ body) (as_bytes-NotCr l (h.0))
    ∙ ap (plus (length (as_bytes l))) (find_sub-here body)
    ∙ plus-some (length (as_bytes l)) 0
    ∙ ap some (omega arith)
find_sub-joined l (m ∷ ls) body h hs =
    let J = as_bytes (joined m ls) in
    let R = blank ++ body in
    let whole : as_bytes (joined l (m ∷ ls)) ≡ as_bytes l ++ (13 ∷ 10 ∷ J) =
      as_bytes-joined l (m ∷ ls) in
    let first : J ++ R ≡ as_bytes m ++ (rest_bytes ls ++ R) =
      ap (λ (x : Bytes). x ++ R) (as_bytes-joined m ls)
      ∙ append_assoc (as_bytes m) (rest_bytes ls) R in
    let step : find_sub blank (13 ∷ 10 ∷ (J ++ R)) ≡ plus 2 (find_sub blank (J ++ R)) = rw first (
      find_sub-crlf_some (as_bytes m) (rest_bytes ls ++ R) (as_bytes-NotCr m (hs.0.0))
        (line_bytes m (hs.0.1))) in
    let size : length (as_bytes l ++ (13 ∷ 10 ∷ J)) ≡ length (as_bytes l) + (2 + length J) =
      length-append (as_bytes l) (13 ∷ 10 ∷ J) ∙ omega arith in
    rw whole (
      ap (find_sub blank) (append_assoc (as_bytes l) (13 ∷ 10 ∷ J) R)
      ∙ find_sub-append (as_bytes l) (13 ∷ 10 ∷ (J ++ R)) (as_bytes-NotCr l (h.0))
      ∙ ap (plus (length (as_bytes l)))
          (step ∙ ap (plus 2) (find_sub-joined m ls body (hs.0) (hs.1)) ∙ plus-some 2 (length J))
      ∙ plus-some (length (as_bytes l)) (2 + length J)
      ∙ ap some (sym size))

find_body_start-joined :
    (l : Text) (ls : List Text) (body : Bytes)
    → IsLine l
    → All IsLine ls
    → find_body_start (as_bytes (joined l ls) ++ (blank ++ body))
      ≡ (length (as_bytes (joined l ls)), length (as_bytes (joined l ls)) + 4)
unfolding find_body_start
find_body_start-joined l ls body h hs = rw (find_sub-joined l ls body h hs)

pub parse_message-joined :
    (target : Target) (l : Text) (ls : List Text) (body : Bytes)
    → IsLine l
    → All IsLine ls
    → All IsChar (joined l ls)
    → parse_message target (as_bytes (joined l ls) ++ (blank ++ body))
      ≡ message_in target body (l ∷ ls)
unfolding parse_message
parse_message-joined target l ls body h hs chars =
    let J = as_bytes (joined l ls) in
    let behind : drop (length J + 4) (J ++ (blank ++ body)) ≡ body =
      drop-add (length J) 4 (J ++ (blank ++ body)) ∙ ap (drop 4) (drop-append J (blank ++ body)) in
    rw (
      find_body_start-joined l ls body h hs,
      behind,
      take-append J (blank ++ body),
      from_utf8-as_bytes (joined l ls) chars,
      and_then,
      lines_of-joined l ls h hs,
    )
