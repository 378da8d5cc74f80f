-- ===== src/Pdu/RoundTrip.antt =====
-- `decode` after the three encoders.
use modem2sip.Common.{
  ℕ, suc, ◌+◌, ◌^◌, ◌≤◌, ◌<◌, ◌≡◌, refl, sym, ap, ◌∙◌, subst, arith, true, List, [], ◌∷◌, ◌++◌,
  Option, none, some, length, take, drop, length-append, append-nil, map, All, if◌then◌else◌, ltb,
  Bool-cases, inl, inr,
}
use mathlib.Core.Option
use modem2sip.Text.{Bytes, Text, codes, as_bytes, encode_utf8}
use modem2sip.Text.Ops.{starts_with}
use modem2sip.Wsp.Env.{Env, Utf8Laws}
use modem2sip.Wsp.Tables.{content_type_name, content_types, find_name, param_name, param_names}
use modem2sip.Wsp.Reader.{Reader, advance, new}
use modem2sip.Wsp.Values.{
  ContentType, content_type, content_type_inner, parameters, parameter_value,
}
use modem2sip.Wsp.Writer.{write_text_string, write_value_length, write_encoded_string}
use modem2sip.Wsp.At.{At, advance-At, advance-add}
use modem2sip.Wsp.Strings.{IsPlain, IsEncodable}
use modem2sip.Wsp.ContentTypes.{
  parameters_step, parameters_end, content_type-sized, content_type_inner-code, parameter-text,
}
use modem2sip.Pdu.Fields
use modem2sip.Pdu.Message.{MmsPart, MmsMessage, empty_message}
use modem2sip.Pdu.Encode.{
  SendReq, format_address, in_angles, first_content_id, start_param, message_content_type,
  encode_multipart, encode_send_req,
}
use modem2sip.Pdu.Decode.{decode_field, body_parts, is_multipart, ok, decode}
use modem2sip.Pdu.PartHeaders.{OnSome, IsSendable, received_part}
use modem2sip.Pdu.Parts.{decode_multipart-encode_multipart}
use modem2sip.Pdu.Runs.{Runs, Runs-content, decode-Runs}
use modem2sip.Pdu.FieldRuns.{
  IsAddress, FitsLength, kept_subject, run-message_type, run-transaction_id, run-mms_version,
  run-personal, run_report, run-to, run-subject, run-from,
}

-- A request that the encoding can carry.
pub record IsDeliverable (env : Env) (req : SendReq) : Type 0 where
  pub wide : 2 ^ 16 ≤ env.usize_max + 1
  pub id_plain : IsPlain req.transaction_id
  pub from_address : OnSome (IsAddress env) req.from
  pub from_fits :
      OnSome (λ a. FitsLength env (suc (length (write_encoded_string (format_address a))))) req.from
  pub to_addresses : All (IsAddress env) req.to
  pub subject_encodable : OnSome (IsEncodable env) req.subject
  pub parts_sendable : All (IsSendable env) req.parts
  pub few_parts : length req.parts < 2 ^ 56
  pub start_encodable : OnSome (λ cid. IsEncodable env (in_angles cid)) (first_content_id req.parts)
  pub type_fits : FitsLength env (length (message_content_type req.parts))

-- The content type of the message, and its parameters.
abbrev pub message_type_of : List MmsPart → Text
message_type_of parts =
    if ltb 1 (length parts)
    then codes "application/vnd.wap.multipart.related"
    else codes "application/vnd.wap.multipart.mixed"

abbrev pub start_params : Option Text → List (Text × Text)
start_params none = []
start_params (some cid) = (codes "start", in_angles cid) ∷ []

abbrev pub message_params_of : List MmsPart → List (Text × Text)
message_params_of parts =
    if ltb 1 (length parts)
    then (codes "type", codes "application/smil") ∷ start_params (first_content_id parts)
    else []

-- What the recipient of a request gets.
abbrev pub received : SendReq → MmsMessage
received req = record empty_message {
  message_type = Fields.send_req;
  transaction_id = some req.transaction_id;
  version = some Fields.version_1_2;
  from = Option.map format_address req.from;
  to = map format_address req.to;
  subject = kept_subject req.subject;
  message_class = some (codes "personal");
  content_type = some (message_type_of req.parts);
  content_type_params = message_params_of req.parts;
  parts = map received_part (take 256 req.parts);
}

behind_typed :
    (h : ℕ) (bs t : Bytes) (r : Reader) → At r (h ∷ (bs ++ t)) → At (advance (1 + length bs) r) t
behind_typed h bs t r at_h =
    subst (λ (n : ℕ). At (advance n r) t) (omega arith) (advance-At r (h ∷ bs) t at_h)

abbrev smil_type : Text
smil_type = codes "application/smil"

module _ (env : Env) (laws : Utf8Laws env) where
  start-parameters :
      (o : Option Text) (fuel : ℕ) (r : Reader) (out : List (Text × Text))
      → OnSome (λ cid. IsEncodable env (in_angles cid)) o
      → length (start_param o) ≤ fuel
      → At r (start_param o)
      → parameters env fuel r out ≡ out ++ start_params o
  unfolding parameter_value param_name param_names find_name
  start-parameters none fuel r out w le h = parameters_end env fuel r out h ∙ sym (append-nil out)
  start-parameters (some cid) fuel r out w le h =
      let text = in_angles cid in
      let h' : At r (0x99 ∷ (write_text_string text ++ [])) = rw append-nil h in
      parameters_step env fuel 0x99 _ r out h'
        (parameter-text env laws 0x99 text r [] refl refl w h') (omega arith)
      ∙ parameters_end env _ _ _ (behind_typed 0x99 (write_text_string text) [] r h')

  smil-IsEncodable : 2 ^ 16 ≤ env.usize_max + 1 → IsEncodable env smil_type
  unfolding as_bytes encode_utf8
  smil-IsEncodable wide = record {
    chars = omega arith;
    no_nul = omega arith;
    starts = omega arith;
    no_bom = omega arith;
    short = omega arith;
    fits = omega arith;
  }

  content_type_inner-message :
      (parts : List MmsPart)
      → 2 ^ 16 ≤ env.usize_max + 1
      → OnSome (λ cid. IsEncodable env (in_angles cid)) (first_content_id parts)
      → content_type_inner env (new (message_content_type parts))
        ≡ some (message_type_of parts, message_params_of parts)
  unfolding message_content_type content_type_name content_types find_name parameter_value
      param_name param_names
  content_type_inner-message parts wide w = elim (Bool-cases (ltb 1 (length parts))) [
    | inl many ↦ rw many (
        content_type_inner-code env 0x33 related (omega arith)
        ∙ ap (λ (ps : List (Text × Text)). some (codes "application/vnd.wap.multipart.related", ps))
            (parameters_step env _ 0x89 _ start [] at_type
                (parameter-text env laws 0x89 smil_type start _ refl refl (smil-IsEncodable wide)
                  at_type)
                (omega arith)
              ∙ start-parameters (first_content_id parts) _ _ _ w
                  (omega (
                    arith,
                    length-append (write_text_string smil_type)
                        (start_param (first_content_id parts)),
                  ))
                  (behind_typed 0x89 (write_text_string smil_type)
                    (start_param (first_content_id parts)) start at_type)))
    | inr few ↦ rw few (
        content_type_inner-code env 0x23 [] (omega arith)
        ∙ ap (λ (ps : List (Text × Text)). some (codes "application/vnd.wap.multipart.mixed", ps))
            (parameters_end env _ _ [] refl))
  ]
    where
      related : Bytes
      related = 0x89 ∷ (write_text_string smil_type ++ start_param (first_content_id parts))

      start : Reader
      start = advance 1 (new ((0x33 + 128) ∷ related))

      at_type : At start related
      at_type = refl

  -- The last header, and the parts behind it.
  run_content :
      (parts : List MmsPart) {xs : Bytes} (m : MmsMessage) (r : Reader)
      → 2 ^ 16 ≤ env.usize_max + 1
      → OnSome (λ cid. IsEncodable env (in_angles cid)) (first_content_id parts)
      → FitsLength env (length (message_content_type parts))
      → All (IsSendable env) parts
      → length parts < 2 ^ 56
      → r.buf ≡ xs
      → let ct = message_content_type parts in
        At r
          (Fields.content_type ∷ (write_value_length (length ct) ++ (ct ++ encode_multipart parts)))
        → Runs env xs m r (
            ok (record m {
              content_type = some (message_type_of parts);
              content_type_params = message_params_of parts;
              parts = map received_part (take 256 parts);
            }))
  unfolding decode_field body_parts is_multipart starts_with
  run_content parts {xs} m r wide start fits sendable few same h =
      subst (λ (ps : List MmsPart). Runs env xs m r (ok (record m' { parts = ps }))) body_is
        (Runs-content env {m' = m'} {start = q.pos + size} Fields.content_type _ h (omega arith)
          (rw read))
    where
      ct : Bytes
      ct = message_content_type parts

      size : ℕ
      size = length (write_value_length (length ct)) + length ct

      q : Reader
      q = advance 1 r

      m' : MmsMessage
      m' = record m {
        content_type = some (message_type_of parts);
        content_type_params = message_params_of parts;
      }

      at_q : At q (write_value_length (length ct) ++ (ct ++ encode_multipart parts))
      at_q = advance-At r (Fields.content_type ∷ []) _ h

      read :
          content_type env q
          ≡ (some (message_type_of parts, message_params_of parts), advance size q)
      read =
          content_type-sized env ct q (encode_multipart parts) fits.0 fits.1 at_q
          ∙ ap (λ (o : Option ContentType). (o, advance size q))
              (content_type_inner-message parts wide start)

      behind : drop (q.pos + size) xs ≡ encode_multipart parts
      behind = rw (← same) (
          subst (λ (p : Reader). At p (encode_multipart parts))
            (advance-add q (length (write_value_length (length ct))) (length ct))
            (advance-At (advance (length (write_value_length (length ct))) q) ct _
              (advance-At q (write_value_length (length ct)) _ at_q)))

      multipart : is_multipart (message_type_of parts) ≡ true
      multipart = elim (Bool-cases (ltb 1 (length parts))) [ inl many ↦ rw many | inr few ↦ rw few ]

      body_is : body_parts env m' (drop (q.pos + size) xs) ≡ map received_part (take 256 parts)
      body_is =
          rw (multipart, behind) (decode_multipart-encode_multipart env laws parts sendable few)

  -- For a deliverable request (its texts have UTF-8 and WSP forms, its lengths fit the format
  -- and the address space, and the charset library's decoder inverts UTF-8), decoding what
  -- encode_send_req writes succeeds and gives the request as a recipient sees it: every header
  -- that the decoder keeps, the addresses with their type, no empty subject, the parameters of
  -- the content type, and the first 256 parts.
  pub decode-encode_send_req :
      (req : SendReq) → IsDeliverable env req → decode env (encode_send_req req) ≡ ok (received req)
  unfolding encode_send_req
  decode-encode_send_req req w = decode-Runs env _ (
      run-message_type env _ _ _ _ refl (λ q1 b1 a1.
        run-transaction_id env _ _ _ q1 w.id_plain a1 (λ q2 b2 a2.
          run-mms_version env _ _ _ q2 a2 (λ q3 b3 a3.
            run-from env req.from _ _ q3 laws (omega (arith, w.wide)) w.from_address w.from_fits a3
              (λ q4 b4 a4. run-to env req.to _ _ q4 laws w.to_addresses a4 (λ q5 b5 a5.
                run-subject env req.subject _ _ q5 laws w.subject_encodable refl a5 (λ q6 b6 a6.
                  run-personal env _ _ q6 a6 (λ q7 b7 a7.
                    run_report env _ req.delivery_report _ _ q7 (inl (inl refl)) a7 (λ q8 b8 a8.
                      run_report env _ req.read_report _ _ q8 (inl (inr refl)) a8 (λ q9 b9 a9.
                        run_content req.parts _ q9 w.wide w.start_encodable w.type_fits
                          w.parts_sendable w.few_parts (b9 ∙ b8 ∙ b7 ∙ b6 ∙ b5 ∙ b4 ∙ b3 ∙ b2 ∙ b1)
                          a9))))))))))
