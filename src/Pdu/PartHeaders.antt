-- ===== src/Pdu/PartHeaders.antt =====
-- The headers of a part of a multipart body, read back line by line.
use modem2sip.Common.{
  ℕ, zero, suc, ◌+◌, ◌-◌, ◌^◌, ◌≤◌, ◌<◌, ◌≡◌, refl, sym, ap, ◌∙◌, arith, Bool, true, false, List,
  [], ◌∷◌, ◌++◌, Option, none, some, length, length-append, append-nil, if◌then◌else◌, leb, ◌==◌,
  ◌||◌, Bool-cases, inl, inr,
}
use mathlib.Core.Option
use modem2sip.Text.{Bytes, Text, codes}
use modem2sip.Text.Ops.{trim_start, trim_end, trim_end_with, trim_matches}
use modem2sip.Wsp.Env.{Env, Utf8Laws}
use modem2sip.Wsp.Tables.{content_type_code, content_type_name, param_name, param_names, find_name}
use modem2sip.Wsp.Reader.{Reader, advance, new, with_high_bit}
use modem2sip.Wsp.Values.{content_type_inner, parameter, parameters, parameter_value}
use modem2sip.Wsp.Writer.{write_text_string, write_integer_value}
use modem2sip.Wsp.At.{At, advance-At, u8-At, eof-At, eof-At_nil}
use modem2sip.Wsp.Strings.{IsPlain, IsEncodable, text_string-write_text_string}
use modem2sip.Wsp.ContentTypes.{
  content_type_code-lt, parameters_step, parameters_end, content_type_inner-code,
  content_type_inner-text, parameter-text, parameter-charset,
}
use modem2sip.Pdu.Message.{MmsPart, name, is_text}
use modem2sip.Pdu.Encode.{
  in_angles, content_type_token, name_param, part_content_type, id_header, location_header,
  part_headers,
}
use modem2sip.Pdu.Decode.{strip_angles, next_header, part_header, part_headers_loop}

abbrev pub OnSome {ℓ} : {A : Type ℓ} → (A → Type 0) → Option A → Type 0
OnSome P none = Unit {0}
OnSome P (some a) = P a

-- A part that the encoding can carry.
pub record IsSendable (env : Env) (part : MmsPart) : Type 0 where
  pub type_plain : IsPlain part.content_type
  pub name_encodable : OnSome (IsEncodable env) (name part)
  pub id_plain : OnSome (λ cid. IsPlain (in_angles cid)) part.content_id
  pub location_plain : OnSome IsPlain part.content_location
  pub headers_short : length (part_headers part) < 2 ^ 56
  pub headers_fit : length (part_headers part) ≤ env.usize_max
  pub payload_short : length part.payload < 2 ^ 56
  pub payload_fits : length part.payload ≤ env.usize_max

abbrev pub type_of_code : Option ℕ → Text → Text
type_of_code none t = t
type_of_code (some code) t = content_type_name code

abbrev pub charset_params : Bool → List (Text × Text)
charset_params true = (codes "charset", codes "UTF-8") ∷ []
charset_params false = []

abbrev pub name_params : Option Text → List (Text × Text)
name_params none = []
name_params (some n) = (codes "name", n) ∷ []

-- What a recipient sees of a part: the type in the table's spelling where it has a code, the
-- charset and the name as parameters, and the content id without angle brackets.
abbrev pub received_part : MmsPart → MmsPart
received_part part = record {
  content_type = type_of_code (content_type_code part.content_type) part.content_type;
  params = charset_params (is_text part) ++ name_params (name part);
  content_id = Option.map strip_angles part.content_id;
  content_location = part.content_location;
  payload = part.payload;
}

with_high_bit-lt : (c : ℕ) → c < 0x80 → with_high_bit c ≡ c + 128
with_high_bit-lt c h = ground arith

module _ (env : Env) (laws : Utf8Laws env) where
  parameter-name :
      (n : Text) (r : Reader) (t : Bytes)
      → IsEncodable env n
      → At r (0x97 ∷ (write_text_string n ++ t))
      → parameter env r ≡ (some (codes "name", n), advance (suc (length (write_text_string n))) r)
  unfolding parameter_value param_name param_names find_name
  parameter-name n r t w h =
      parameter-text env laws 0x97 n r t refl refl w h
      ∙ ap (λ (k : ℕ). (some (codes "name", n), advance k r)) (omega arith)

  name_param-parameters :
      (o : Option Text) (fuel : ℕ) (r : Reader) (out : List (Text × Text))
      → OnSome (IsEncodable env) o
      → length (name_param o) ≤ fuel
      → At r (name_param o)
      → parameters env fuel r out ≡ out ++ name_params o
  name_param-parameters none fuel r out w le h =
      parameters_end env fuel r out h ∙ sym (append-nil out)
  name_param-parameters (some n) fuel r out w le h =
      let h' : At r (0x97 ∷ (write_text_string n ++ [])) = rw append-nil h in
      parameters_step env fuel 0x97 _ r out h' (parameter-name n r [] w h') (omega arith)
      ∙ parameters_end env _ _ _ (advance-At r (0x97 ∷ write_text_string n) [] h')

  charset-parameters :
      (b : Bool) (o : Option Text) (fuel : ℕ) (r : Reader)
      → OnSome (IsEncodable env) o
      → let bs : Bytes = (if b then 0x81 ∷ 0xEA ∷ [] else []) ++ name_param o in
        length bs ≤ fuel → At r bs → parameters env fuel r [] ≡ charset_params b ++ name_params o
  charset-parameters false o fuel r w le h = name_param-parameters o fuel r [] w le h
  charset-parameters true o fuel r w le h =
      parameters_step env fuel 0x81 _ r [] h (parameter-charset env laws r (name_param o) h)
        (omega arith)
      ∙ name_param-parameters o (fuel - 1) (advance 2 r) _ w (omega arith)
          (advance-At r (0x81 ∷ 0xEA ∷ []) (name_param o) h)

  -- The content type of a part.
  pub content_type_inner-part :
      (part : MmsPart)
      → IsSendable env part
      → content_type_inner env (new (part_content_type part))
        ≡ some ((received_part part).content_type, (received_part part).params)
  unfolding part_content_type write_integer_value
  content_type_inner-part part w = go (content_type_code part.content_type) refl
    where
      rest : Bytes
      rest = (if is_text part then 0x81 ∷ 0xEA ∷ [] else []) ++ name_param (name part)

      go :
          (o : Option ℕ)
          → content_type_code part.content_type ≡ o
          → content_type_inner env (new (content_type_token o part.content_type ++ rest))
            ≡ some (type_of_code o part.content_type, (received_part part).params)
      go none e =
          content_type_inner-text env part.content_type rest w.type_plain
          ∙ ap (λ (ps : List (Text × Text)). some (part.content_type, ps))
              (charset-parameters (is_text part) (name part) _ _ w.name_encodable
                (omega (arith, length-append (write_text_string part.content_type) rest))
                (advance-At (new (write_text_string part.content_type ++ rest))
                  (write_text_string part.content_type) rest refl))
      go (some code) e =
          let lt = content_type_code-lt part.content_type e in
          rw (with_high_bit-lt code lt) (
            content_type_inner-code env code rest lt
            ∙ ap (λ (ps : List (Text × Text)). some (content_type_name code, ps))
                (charset-parameters (is_text part) (name part) _ _ w.name_encodable (omega arith)
                  (advance-At (new ((code + 128) ∷ rest)) ((code + 128) ∷ []) rest refl)))

pub le→leb : (a b : ℕ) → a ≤ b → leb a b ≡ true
le→leb a b h = ground arith

-- The angle brackets round a content id go again.
trim_end-append :
    (test : ℕ → Bool) (s : Text) (b : ℕ)
    → test b ≡ true
    → trim_end test (s ++ b ∷ []) ≡ trim_end test s
unfolding trim_end trim_end_with
trim_end-append test [] b h = rw h
trim_end-append test (c ∷ s) b h = rw (trim_end-append test s b h)

trim_start-append :
    (test : ℕ → Bool) (s : Text) (b : ℕ)
    → test b ≡ true
    → trim_end test (trim_start test (s ++ b ∷ [])) ≡ trim_end test (trim_start test s)
unfolding trim_start
trim_start-append test [] b h = rw h
trim_start-append test (c ∷ s) b h = elim (Bool-cases (test c)) [
  | inl drop ↦ rw drop (trim_start-append test s b h)
  | inr keep ↦ rw keep (trim_end-append test (c ∷ s) b h)
]

strip_angles-in_angles : (cid : Text) → strip_angles (in_angles cid) ≡ strip_angles cid
unfolding trim_matches
strip_angles-in_angles cid =
    unfold trim_start in trim_start-append (λ c. c == b'<' || c == b'>') cid b'>' refl

module _ (env : Env) where
  headers_step :
      (fuel b : ℕ) (s : Bytes) (p : MmsPart) (r : Reader) {p' : MmsPart} {r' : Reader}
      → At r (b ∷ s)
      → part_header env p r ≡ next_header p' r'
      → 1 ≤ fuel
      → part_headers_loop env fuel p r ≡ part_headers_loop env (fuel - 1) p' r'
  unfolding part_headers_loop
  headers_step zero b s p r h e le = absurd (omega arith)
  headers_step (suc fuel) b s p r {p'} {r'} h e le =
      rw (eof-At r b s h, e, part_headers_loop)
        (ap (λ (n : ℕ). part_headers_loop env n p' r') (omega arith))

  headers_end : (fuel : ℕ) (p : MmsPart) (r : Reader) → At r [] → part_headers_loop env fuel p r ≡ p
  unfolding part_headers_loop
  headers_end zero p r h = refl
  headers_end (suc fuel) p r h = rw (eof-At_nil r h, part_headers_loop)

  part_header-text :
      (h : ℕ) (v : Text) (p : MmsPart) (r : Reader) (t : Bytes)
      → At r (h ∷ (write_text_string v ++ t))
      → IsPlain v
      → (h ≡ 0xC0
          → part_header env p r
            ≡ next_header
                (record p { content_id = some (strip_angles v) })
                (advance (length (write_text_string v)) (advance 1 r)))
        × (h ≡ 0x8E
            → part_header env p r
              ≡ next_header
                  (record p { content_location = some v })
                  (advance (length (write_text_string v)) (advance 1 r)))
  unfolding part_header
  part_header-text h v p r t at_h w =
      let read =
        text_string-write_text_string v (advance 1 r) t w
          (advance-At r (h ∷ []) (write_text_string v ++ t) at_h) in
      (
        λ e. rw (u8-At r h (write_text_string v ++ t) at_h) (rw e (rw read)),
        λ e. rw (u8-At r h (write_text_string v ++ t) at_h) (rw e (rw read)),
      )

  behind-text :
      (h : ℕ) (v : Text) (r : Reader) (t : Bytes)
      → At r (h ∷ (write_text_string v ++ t))
      → At (advance (length (write_text_string v)) (advance 1 r)) t
  behind-text h v r t at_h =
      advance-At (advance 1 r) (write_text_string v) t
        (advance-At r (h ∷ []) (write_text_string v ++ t) at_h)

  location-headers :
      (o : Option Text) (fuel : ℕ) (p : MmsPart) (r : Reader)
      → OnSome IsPlain o
      → p.content_location ≡ none
      → length (location_header o) ≤ fuel
      → At r (location_header o)
      → part_headers_loop env fuel p r ≡ record p { content_location = o }
  location-headers none fuel p r w e le h =
      headers_end fuel p r h ∙ ap (λ (l : Option Text). record p { content_location = l }) e
  location-headers (some loc) fuel p r w e le h =
      let h' : At r (0x8E ∷ (write_text_string loc ++ [])) = rw append-nil h in
      headers_step fuel 0x8E _ p r h' ((part_header-text 0x8E loc p r [] h' w).1 refl) (omega arith)
      ∙ headers_end _ _ _ (behind-text 0x8E loc r [] h')

  pub id-headers :
      (o l : Option Text) (fuel : ℕ) (p : MmsPart) (r : Reader)
      → OnSome (λ cid. IsPlain (in_angles cid)) o
      → OnSome IsPlain l
      → p.content_id ≡ none
      → p.content_location ≡ none
      → length (id_header o ++ location_header l) ≤ fuel
      → At r (id_header o ++ location_header l)
      → part_headers_loop env fuel p r
        ≡ record p { content_id = Option.map strip_angles o; content_location = l }
  id-headers none l fuel p r w v e e' le h =
      location-headers l fuel p r v e' le h
      ∙ ap (λ (i : Option Text). record p { content_id = i; content_location = l }) e
  id-headers (some cid) l fuel p r w v e e' le h =
      let text = in_angles cid in
      headers_step fuel 0xC0 _ p r h
        ((part_header-text 0xC0 text p r (location_header l) h w).0 refl) (omega arith)
      ∙ location-headers l (fuel - 1) (record p { content_id = some (strip_angles text) })
          (advance (length (write_text_string text)) (advance 1 r)) v e'
          (omega (arith, length-append (write_text_string text) (location_header l)))
          (behind-text 0xC0 text r (location_header l) h)
      ∙ ap (λ (i : Text). record p { content_id = some i; content_location = l })
          (strip_angles-in_angles cid)
