-- ===== src/Sip/Sent.antt =====
-- Headers as they are sent, and as they are received.
use modem2sip.Common.{
  ◌≡◌, refl, sym, ap, ◌∙◌, arith, Bool, true, false, ◌||◌, ◌&&◌, [], ◌∷◌, ◌++◌, Option,
  if◌then◌else◌, ltb, All, All-append, length, Bool-cases, inl, inr,
}
use modem2sip.Text.{Bytes, Text, codes, as_bytes, IsChar}
use modem2sip.Text.Ops.{
  equal, to_ascii_lowercase, trim, trim_matches, trim_start, trim_end, trim_end_with, is_whitespace,
  split_once, contains_char, decimal,
}
use modem2sip.Text.Equal.{equal→≡}
use modem2sip.Text.Decimal.{IsDigit, decimal-IsDigit}
use modem2sip.Number.Local.{trim_id, digits-NoSpace}
use modem2sip.Uri.HostPort.{split_once-append}
use modem2sip.Sip.Headers.{Target, Headers, canonical, full_form, pretty}
use modem2sip.Sip.Message.{header_of, parse_headers}
use modem2sip.Sip.Encode.{has_control_byte, header_safe, length_line, header_line, header_lines}
use modem2sip.Sip.Lines.{length_line-has_break, header_line-has_break}
use modem2sip.Sip.Wire.{starts_plain, IsLine}

abbrev pub size_name : Text
size_name = codes "content-length"

-- A header whose name is spelled back into itself, with a value that needs no repair.
pub record IsSent (target : Target) (h : Text × Text) : Type 0 where
  pub name_back : canonical (pretty target h.0) ≡ h.0
  pub no_colon : contains_char (pretty target h.0) b':' ≡ false
  pub name_line : IsLine (pretty target h.0)
  pub name_chars : All IsChar (pretty target h.0)
  pub trimmed : trim h.1 ≡ h.1
  pub no_control : has_control_byte (as_bytes h.1) ≡ false
  pub value_chars : All IsChar h.1

pub header_safe_id : (s : Text) → has_control_byte (as_bytes s) ≡ false → header_safe s ≡ s
unfolding header_safe
header_safe_id s clean = rw clean

unfoldable pub is_ascii : Text → Bool
is_ascii [] = true
is_ascii (c ∷ s) = ltb c 0x80 && is_ascii s

pub ascii-IsChar : (s : Text) → is_ascii s ≡ true → All IsChar s
unfolding is_ascii
ascii-IsChar [] h = tt
ascii-IsChar (c ∷ s) h = (inl (ground (arith, h)), ascii-IsChar s (ground (arith, h)))

pub digits-IsChar : (s : Text) → All IsDigit s → All IsChar s
digits-IsChar [] h = tt
digits-IsChar (c ∷ s) (d, ds) = (inl (ground (arith, d)), digits-IsChar s ds)

-- The headers as the peer has them: the length stands in its place, or behind the others.
unfoldable pub received : Bool → Bytes → Headers → Headers
received true body [] = []
received false body [] = (size_name, decimal (length body)) ∷ []
received wrote body ((k, v) ∷ hs) =
    (k, if equal k size_name then decimal (length body) else v)
    ∷ received (wrote || equal k size_name) body hs

pub starts_plain-append : (s t : Text) → starts_plain s ≡ true → starts_plain (s ++ t) ≡ true
starts_plain-append [] t h = ground (arith, h)
starts_plain-append (c ∷ s) t h = h

trim_space : (v : Text) → trim (b' ' ∷ v) ≡ trim v
unfolding trim trim_matches trim_start is_whitespace
trim_space v = refl

module _ (target : Target) (body : Bytes) where
  length_line-IsLine : IsLine (length_line target body)
  unfolding length_line
  length_line-IsLine = (length_line-has_break target body, refl)

  length_line-IsChar : All IsChar (length_line target body)
  unfolding length_line is_ascii
  length_line-IsChar =
      All-append IsChar (codes "Content-Length: ") (decimal (length body))
        (ascii-IsChar (codes "Content-Length: ") refl)
        (digits-IsChar (decimal (length body)) (decimal-IsDigit (length body)))

  line_header :
      (hs : Headers)
      → header_of (split_once b':' (length_line target body)) hs
        ≡ (size_name, decimal (length body)) ∷ hs
  unfolding length_line canonical full_form to_ascii_lowercase equal trim trim_matches trim_start
      trim_end trim_end_with is_whitespace contains_char
  line_header hs =
      ap (λ (o : Option (Text × Text)). header_of o hs)
        (split_once-append b':' (codes "Content-Length") (b' ' ∷ decimal (length body)) refl)
      ∙ ap (λ (v : Text). (size_name, v) ∷ hs)
          (trim_space (decimal (length body))
            ∙ trim_id (decimal (length body))
                (digits-NoSpace (decimal (length body)) (decimal-IsDigit (length body))))

  named_header :
      (k v : Text) (hs : Headers)
      → IsSent target (k, v)
      → header_of (split_once b':' (pretty target k ++ (b':' ∷ b' ' ∷ header_safe v))) hs
        ≡ (k, v) ∷ hs
  named_header k v hs h =
      ap (λ (s : Text). header_of (split_once b':' (pretty target k ++ (b':' ∷ b' ' ∷ s))) hs)
        (header_safe_id v h.no_control)
      ∙ ap (λ (o : Option (Text × Text)). header_of o hs)
          (split_once-append b':' (pretty target k) (b' ' ∷ v) h.no_colon)
      ∙ ap (λ (n : Text). (n, trim (b' ' ∷ v)) ∷ hs) h.name_back
      ∙ ap (λ (w : Text). (k, w) ∷ hs) (trim_space v ∙ h.trimmed)

  header_line_header :
      (k v : Text) (hs : Headers)
      → IsSent target (k, v)
      → header_of (split_once b':' (header_line target body (k, v))) hs
        ≡ (k, if equal k size_name then decimal (length body) else v) ∷ hs
  unfolding header_line
  header_line_header k v hs h = elim (Bool-cases (equal k size_name)) [
    | inl size ↦ rw size (
        line_header hs
        ∙ ap (λ (n : Text). (n, decimal (length body)) ∷ hs) (sym (equal→≡ k size_name size)))
    | inr other ↦ rw other (named_header k v hs h)
  ]

  header_line-IsLine : (h : Text × Text) → IsSent target h → IsLine (header_line target body h)
  unfolding header_line
  header_line-IsLine (k, v) h = (
    header_line-has_break target body (k, v) (h.name_line.0),
    elim (Bool-cases (equal k size_name)) [
      | inl size ↦ rw size (length_line-IsLine.1)
      | inr other ↦
          rw other
            (starts_plain-append (pretty target k) (b':' ∷ b' ' ∷ header_safe v) (h.name_line.1))
    ],
  )

  header_line-IsChar : (h : Text × Text) → IsSent target h → All IsChar (header_line target body h)
  unfolding header_line
  header_line-IsChar (k, v) h = elim (Bool-cases (equal k size_name)) [
    | inl size ↦ rw size length_line-IsChar
    | inr other ↦
        rw (other, header_safe_id v h.no_control)
          (All-append IsChar (pretty target k) (b':' ∷ b' ' ∷ v) h.name_chars
            (inl (omega arith), (inl (omega arith), h.value_chars)))
  ]

  pub sent_lines :
      (wrote : Bool) (hs : Headers)
      → All (IsSent target) hs
      → All IsLine (header_lines target wrote body hs)
        × All (All IsChar) (header_lines target wrote body hs)
        × (parse_headers (header_lines target wrote body hs) ≡ received wrote body hs)
  unfolding header_lines received parse_headers
  sent_lines true [] sent = (tt, tt, refl)
  sent_lines false [] sent = ((length_line-IsLine, tt), (length_line-IsChar, tt), line_header [])
  sent_lines true ((k, v) ∷ hs) (here, later) =
      let (lines, chars, back) = sent_lines (true || equal k size_name) hs later in
      (
        (header_line-IsLine (k, v) here, lines),
        (header_line-IsChar (k, v) here, chars),
        ap (header_of (split_once b':' (header_line target body (k, v)))) back
            ∙ header_line_header k v _ here,
      )
  sent_lines false ((k, v) ∷ hs) (here, later) =
      let (lines, chars, back) = sent_lines (false || equal k size_name) hs later in
      (
        (header_line-IsLine (k, v) here, lines),
        (header_line-IsChar (k, v) here, chars),
        ap (header_of (split_once b':' (header_line target body (k, v)))) back
            ∙ header_line_header k v _ here,
      )
