-- ===== src/Pdu/Parts.antt =====
-- The parts of a multipart body, decoded after encoding.
use modem2sip.Common.{
  ℕ, zero, suc, ◌+◌, ◌^◌, ◌≤◌, ◌<◌, min, ◌≡◌, refl, sym, ap, ◌∙◌, arith, List, [], ◌∷◌, ◌++◌,
  Option, some, length, take, length-append, append_assoc, append-nil, map, All, subst,
}
use modem2sip.Text.{Bytes}
use modem2sip.Wsp.Env.{Env, Utf8Laws}
use modem2sip.Wsp.Reader.{Reader, advance, new}
use modem2sip.Wsp.Values.{ContentType, content_type}
use modem2sip.Wsp.Writer.{write_uintvar, write_value_length}
use modem2sip.Wsp.At.{At, advance-At, advance-add, take_bytes-At}
use modem2sip.Wsp.Uintvar.{uintvar-write_uintvar}
use modem2sip.Wsp.ContentTypes.{content_type-sized}
use modem2sip.Pdu.Message.{MmsPart}
use modem2sip.Pdu.Encode.{
  part_content_type, id_header, location_header, part_headers, encode_part, encode_parts,
  encode_multipart,
}
use modem2sip.Pdu.Decode.{part_of, decode_part, decode_parts, decode_multipart}
use modem2sip.Pdu.PartHeaders.{
  IsSendable, received_part, content_type_inner-part, id-headers, le→leb,
}

module _ (env : Env) (laws : Utf8Laws env) where
  -- The headers of a part, read on their own.
  part_of-received :
      (part : MmsPart)
      → IsSendable env part
      → part_of env (part_headers part) part.payload (content_type env (new (part_headers part)))
        ≡ received_part part
  unfolding part_headers
  part_of-received part w =
      ap (part_of env (part_headers part) part.payload) read
      ∙ id-headers env part.content_id part.content_location _ _ _ w.id_plain w.location_plain refl
          refl (omega (arith, length-append lead (ct ++ tail), length-append ct tail)) behind
    where
      ct : Bytes
      ct = part_content_type part

      lead : Bytes
      lead = write_value_length (length ct)

      tail : Bytes
      tail = id_header part.content_id ++ location_header part.content_location

      within_headers : length ct ≤ length (part_headers part)
      within_headers = omega (arith, length-append lead (ct ++ tail), length-append ct tail)

      read : content_type env (new (part_headers part)) ≡ (
        some ((received_part part).content_type, (received_part part).params),
        advance (length lead + length ct) (new (part_headers part)),
      )
      read =
          content_type-sized env ct (new (part_headers part)) tail
            (omega (arith, w.headers_short, within_headers))
            (omega (arith, w.headers_fit, within_headers)) refl
          ∙ ap
              (λ (o : Option ContentType).
                (o, advance (length lead + length ct) (new (part_headers part))))
              (content_type_inner-part env laws part w)

      behind : At (advance (length lead + length ct) (new (part_headers part))) tail
      behind =
          subst (λ (q : Reader). At q tail)
            (advance-add (new (part_headers part)) (length lead) (length ct))
            (advance-At (advance (length lead) (new (part_headers part))) ct tail
              (advance-At (new (part_headers part)) lead (ct ++ tail) refl))

  decode_part-encode_part :
      (part : MmsPart) (r : Reader) (t : Bytes)
      → IsSendable env part
      → At r (encode_part part ++ t)
      → decode_part env r ≡ (some (received_part part), advance (length (encode_part part)) r)
  unfolding decode_part encode_part
  decode_part-encode_part part r t w h =
      rw (uintvar-write_uintvar (length hs) r _ w.headers_short h0) (
        rw (le→leb _ _ w.headers_fit) (
          rw (uintvar-write_uintvar (length part.payload) (advance a r) _ w.payload_short h1) (
            rw (le→leb _ _ w.payload_fits) (
              rw (take_bytes-At (advance b (advance a r)) hs (part.payload ++ t) h2) (
                rw (take_bytes-At (advance (length hs) (advance b (advance a r))) part.payload t h3)
                  (rw (part_of-received part w)
                    (ap (λ (p : ℕ). (some (received_part part), record r { pos = p })) sizes)))))))
    where
      hs : Bytes
      hs = part_headers part

      a : ℕ
      a = length (write_uintvar (length hs))

      b : ℕ
      b = length (write_uintvar (length part.payload))

      h0 : At r (
          write_uintvar (length hs)
          ++ (write_uintvar (length part.payload) ++ (hs ++ (part.payload ++ t))))
      h0 = h ∙ simp append_assoc

      h1 : At (advance a r) (write_uintvar (length part.payload) ++ (hs ++ (part.payload ++ t)))
      h1 = advance-At r (write_uintvar (length hs)) _ h0

      h2 : At (advance b (advance a r)) (hs ++ (part.payload ++ t))
      h2 = advance-At (advance a r) (write_uintvar (length part.payload)) _ h1

      h3 : At (advance (length hs) (advance b (advance a r))) (part.payload ++ t)
      h3 = advance-At (advance b (advance a r)) hs _ h2

      sizes : r.pos + a + b + length hs + length part.payload ≡ r.pos + length (encode_part part)
      sizes = omega (
        arith,
        length-append (write_uintvar (length hs))
            (write_uintvar (length part.payload) ++ (hs ++ part.payload)),
        length-append (write_uintvar (length part.payload)) (hs ++ part.payload),
        length-append hs part.payload,
      )

  decode_parts-encode_parts :
      (ps : List MmsPart) (n k : ℕ) (r : Reader) (t : Bytes) (out : List MmsPart)
      → All (IsSendable env) ps
      → At r (encode_parts ps ++ t)
      → k ≡ min (length ps) n
      → decode_parts env k r out ≡ out ++ map received_part (take n ps)
  unfolding decode_parts encode_parts
  decode_parts-encode_parts [] zero zero r t out w h e = sym (append-nil out)
  decode_parts-encode_parts [] (suc n) zero r t out w h e = sym (append-nil out)
  decode_parts-encode_parts [] n (suc k) r t out w h e = absurd (omega arith)
  decode_parts-encode_parts (p ∷ ps) zero zero r t out w h e = sym (append-nil out)
  decode_parts-encode_parts (p ∷ ps) zero (suc k) r t out w h e = absurd (omega arith)
  decode_parts-encode_parts (p ∷ ps) (suc n) zero r t out w h e = absurd (omega arith)
  decode_parts-encode_parts (p ∷ ps) (suc n) (suc k) r t out w h e =
      let h' : At r (encode_part p ++ (encode_parts ps ++ t)) =
        h ∙ append_assoc (encode_part p) (encode_parts ps) t in
      rw (decode_part-encode_part p r (encode_parts ps ++ t) w.0 h') (
        decode_parts-encode_parts ps n k (advance (length (encode_part p)) r) t
          (out ++ received_part p ∷ []) w.1 (advance-At r (encode_part p) (encode_parts ps ++ t) h')
          (omega arith)
        ∙ append_assoc out (received_part p ∷ []) (map received_part (take n ps)))

  -- For sendable parts, fewer than 2^56 of them, and a charset decoder that inverts UTF-8,
  -- decode_multipart gives back the first 256 parts that encode_multipart wrote, in order, each
  -- with its payload, its content type in the table's spelling, its charset and name as
  -- parameters, its content id without angle brackets and its location.
  pub decode_multipart-encode_multipart :
      (ps : List MmsPart)
      → All (IsSendable env) ps
      → length ps < 2 ^ 56
      → decode_multipart env (encode_multipart ps) ≡ map received_part (take 256 ps)
  unfolding decode_multipart encode_multipart
  decode_multipart-encode_multipart ps w lt =
      let start = new (write_uintvar (length ps) ++ encode_parts ps) in
      rw (uintvar-write_uintvar (length ps) start (encode_parts ps) lt refl) (
        decode_parts-encode_parts ps 256 (min (length ps) 256)
          (advance (length (write_uintvar (length ps))) start) [] [] w
          (advance-At start (write_uintvar (length ps)) (encode_parts ps) refl ∙ sym (append-nil _))
          refl)
