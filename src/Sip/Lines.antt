-- ===== src/Sip/Lines.antt =====
-- No value ends its line.
use modem2sip.Common.{
  ℕ, ◌≡◌, refl, ap, ◌∙◌, subst, arith, Bool, true, false, ◌||◌, List, [], ◌∷◌, ◌++◌, ◌==◌, All,
  Bool-cases, inl, inr, append_assoc, length,
}
use modem2sip.Text.{Bytes, Text, codes, as_bytes, encode_utf8}
use modem2sip.Text.Ops.{equal, decimal}
use modem2sip.Text.Decimal.{IsDigit, decimal-IsDigit}
use modem2sip.Text.Words.{cons_item, crlf_items, split_crlf}
use modem2sip.Sip.Headers.{Target, Headers, pretty}
use modem2sip.Sip.Message.{crlf}
use modem2sip.Sip.Encode.{
  has_control_byte, drop_control, is_control, header_safe, length_line, header_line, header_lines,
  with_line_ends, head_text,
}

abbrev pub has_break : Text → Bool
has_break [] = false
has_break (c ∷ s) = (c == 13 || c == 10) || has_break s

pub has_break-append :
    (s t : Text) → has_break s ≡ false → has_break t ≡ false → has_break (s ++ t) ≡ false
has_break-append [] t h k = k
has_break-append (c ∷ s) t h k =
    let rest = has_break-append s t (ground (arith, h)) k in ground (arith, h, rest)

pub digits-has_break : (s : Text) → All IsDigit s → has_break s ≡ false
digits-has_break [] h = refl
digits-has_break (c ∷ s) h = let rest = digits-has_break s (h.1) in ground (arith, h.0, rest)

-- Cutting at CRLF.
pub crlf_items-cons :
    (c : ℕ) (t : Text) → (c == 13) ≡ false → crlf_items (c ∷ t) ≡ cons_item c (crlf_items t)
unfolding crlf_items
crlf_items-cons c [] plain = refl
crlf_items-cons c (d ∷ t) plain = rw plain

pub crlf_items-line :
    (l s : Text) → has_break l ≡ false → crlf_items (l ++ (crlf ++ s)) ≡ (l, split_crlf s)
unfolding crlf_items split_crlf
crlf_items-line [] s h = refl
crlf_items-line (c ∷ l) s h =
    crlf_items-cons c (l ++ (crlf ++ s)) (ground (arith, h))
    ∙ ap (cons_item c) (crlf_items-line l s (ground (arith, h)))

split_crlf-lines :
    (target : Target) (ls : List Text)
    → All (λ (l : Text). has_break l ≡ false) ls
    → split_crlf (with_line_ends target ls ++ crlf) ≡ ls ++ [] ∷ [] ∷ []
unfolding split_crlf crlf_items with_line_ends
split_crlf-lines target [] h = refl
split_crlf-lines target (l ∷ ls) (here, later) =
    let W = with_line_ends target ls in
    let apart : (l ++ (crlf ++ W)) ++ crlf ≡ l ++ (crlf ++ (W ++ crlf)) =
      append_assoc l (crlf ++ W) crlf in
    rw (apart, crlf_items-line l (W ++ crlf) here) (ap (◌∷◌ l) (split_crlf-lines target ls later))

-- What `header_safe` lets through.
has_control_byte-left :
    (xs ys : Bytes) → has_control_byte (xs ++ ys) ≡ false → has_control_byte xs ≡ false
unfolding has_control_byte
has_control_byte-left [] ys h = refl
has_control_byte-left (x ∷ xs) ys h =
    let rest = has_control_byte-left xs ys (ground (arith, h)) in ground (arith, h, rest)

has_control_byte-right :
    (xs ys : Bytes) → has_control_byte (xs ++ ys) ≡ false → has_control_byte ys ≡ false
unfolding has_control_byte
has_control_byte-right [] ys h = h
has_control_byte-right (x ∷ xs) ys h = has_control_byte-right xs ys (ground (arith, h))

cr_has_control : has_control_byte (encode_utf8 13) ≡ true
unfolding has_control_byte encode_utf8
cr_has_control = refl

lf_has_control : has_control_byte (encode_utf8 10) ≡ true
unfolding has_control_byte encode_utf8
lf_has_control = refl

not_control :
    (c b : ℕ)
    → has_control_byte (encode_utf8 b) ≡ true
    → has_control_byte (encode_utf8 c) ≡ false
    → (c == b) ≡ false
not_control c b bad good = elim (Bool-cases (c == b)) [
  | inl same ↦
      let here : c ≡ b = ground (arith, same) in
      let both : has_control_byte (encode_utf8 b) ≡ false =
        subst (λ x. has_control_byte (encode_utf8 x) ≡ false) here good in
      ground (arith, bad, both)
  | inr other ↦ other
]

pub untouched-has_break : (s : Text) → has_control_byte (as_bytes s) ≡ false → has_break s ≡ false
unfolding as_bytes
untouched-has_break [] h = refl
untouched-has_break (c ∷ s) h =
    let here = has_control_byte-left (encode_utf8 c) (as_bytes s) h in
    let rest = untouched-has_break s (has_control_byte-right (encode_utf8 c) (as_bytes s) h) in
    let no_cr = not_control c 13 cr_has_control here in
    let no_lf = not_control c 10 lf_has_control here in rw (no_cr, no_lf) rest

drop_control-has_break : (s : Text) → has_break (drop_control s) ≡ false
unfolding drop_control
drop_control-has_break [] = refl
drop_control-has_break (c ∷ s) =
    let rest = drop_control-has_break s in
    elim (Bool-cases (is_control c)) [
      | inl control ↦ rw control rest
      | inr plain ↦
          let no_cr : (c == 13) ≡ false = ground (arith, plain) in
          let no_lf : (c == 10) ≡ false = ground (arith, plain) in
          rw (plain, has_break, no_cr, no_lf) rest
    ]

pub header_safe-has_break : (s : Text) → has_break (header_safe s) ≡ false
unfolding header_safe
header_safe-has_break s = elim (Bool-cases (has_control_byte (as_bytes s))) [
  | inl control ↦ rw control (drop_control-has_break s)
  | inr clean ↦ rw clean (untouched-has_break s clean)
]

module _ (target : Target) (body : Bytes) where
  pub length_line-has_break : has_break (length_line target body) ≡ false
  unfolding length_line
  length_line-has_break =
      has_break-append (codes "Content-Length: ") (decimal (length body)) refl
        (digits-has_break (decimal (length body)) (decimal-IsDigit (length body)))

  abbrev pub PlainName : Text × Text → Type 0
  PlainName h = has_break (pretty target h.0) ≡ false

  pub header_line-has_break :
      (h : Text × Text) → PlainName h → has_break (header_line target body h) ≡ false
  unfolding header_line
  header_line-has_break (k, v) plain = elim (Bool-cases (equal k (codes "content-length"))) [
    | inl size ↦ rw size length_line-has_break
    | inr other ↦ rw other (
        has_break-append (pretty target k) (b':' ∷ b' ' ∷ header_safe v) plain
          (header_safe-has_break v))
  ]

  header_lines-has_break :
      (wrote : Bool) (hs : Headers)
      → All PlainName hs
      → All (λ (l : Text). has_break l ≡ false) (header_lines target wrote body hs)
  unfolding header_lines
  header_lines-has_break true [] plain = tt
  header_lines-has_break false [] plain = (length_line-has_break, tt)
  header_lines-has_break true ((k, v) ∷ hs) (here, later) = (
    header_line-has_break (k, v) here,
    header_lines-has_break (true || equal k (codes "content-length")) hs later,
  )
  header_lines-has_break false ((k, v) ∷ hs) (here, later) = (
    header_line-has_break (k, v) here,
    header_lines-has_break (false || equal k (codes "content-length")) hs later,
  )

  -- When the names of the headers have no CR and no LF in the spelling that is written, the
  -- head of a message, cut at CRLF, is exactly the start line made safe, one line for each
  -- header, a length when no header gave it, and the empty line, and none of these lines has a
  -- CR or a LF in it, whatever the start line and the values contain: no value ends its line and
  -- starts another header, also for a reader that takes a bare CR or LF for the end of a line.
  pub split_crlf-head_text :
      (start_line : Text) (hs : Headers)
      → All PlainName hs
      → (split_crlf (head_text target start_line hs body)
          ≡ (header_safe start_line ∷ header_lines target false body hs) ++ [] ∷ [] ∷ [])
        × All
            (λ (l : Text). has_break l ≡ false)
            (header_safe start_line ∷ header_lines target false body hs)
  unfolding head_text
  split_crlf-head_text start_line hs plain =
      let lines = header_safe start_line ∷ header_lines target false body hs in
      let whole : All (λ (l : Text). has_break l ≡ false) lines =
        (header_safe-has_break start_line, header_lines-has_break false hs plain) in
      (split_crlf-lines target lines whole, whole)
