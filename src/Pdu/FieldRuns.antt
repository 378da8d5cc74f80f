-- ===== src/Pdu/FieldRuns.antt =====
-- The runs of the header loop over each field that the encoders write.
use modem2sip.Common.{
  ℕ, suc, ◌+◌, ◌^◌, ◌≤◌, ◌<◌, ◌≡◌, refl, sym, ap, ◌∙◌, subst, arith, Bool, true, false, List, [],
  ◌∷◌, ◌++◌, Option, none, some, length, length-append, append_assoc, append-nil, map, All, inl,
  inr, ◌⊎◌,
}
use mathlib.Core.Option
use modem2sip.Text.{Bytes, Text, codes}
use modem2sip.Wsp.Env.{Env, Utf8Laws}
use modem2sip.Wsp.Reader.{Reader, advance, new, u8, bounded_value_length}
use modem2sip.Wsp.Values.{skip_value}
use modem2sip.Wsp.Writer.{write_text_string, write_value_length, write_encoded_string}
use modem2sip.Wsp.At.{At, advance-At, advance-add, peek-At, u8-At, slice-At}
use modem2sip.Wsp.Integers.{bounded_value_length-write_value_length}
use modem2sip.Wsp.Strings.{
  IsPlain, IsEncodable, text_string-write_text_string, encoded_string-write_encoded_string,
}
use modem2sip.Pdu.Fields
use modem2sip.Pdu.Message.{MmsMessage}
use modem2sip.Pdu.Encode.{format_address, yes_no, encode_from, encode_to, encode_subject}
use modem2sip.Pdu.Decode.{next, store, sized, skipped, decode_field, Decoded, address_of}
use modem2sip.Pdu.PartHeaders.{OnSome}
use modem2sip.Pdu.Runs.{Runs, Runs-field}

abbrev pub IsAddress : Env → Text → Type 0
IsAddress env addr = IsEncodable env (format_address addr)

-- A sender's address with its token, in front of which its length stands.
abbrev pub FitsLength : Env → ℕ → Type 0
FitsLength env n = (n < 2 ^ 56) × (n ≤ env.usize_max)

abbrev pub kept_subject : Option Text → Option Text
kept_subject none = none
kept_subject (some []) = none
kept_subject (some (c ∷ s)) = some (c ∷ s)

-- A run goes on behind the bytes of one field, wherever they end.
abbrev pub Continues : Env → Bytes → Decoded → MmsMessage → Reader → Bytes → Type 0
Continues env xs d m r t = (q : Reader) → q.buf ≡ r.buf → At q t → Runs env xs m q d

module _ (env : Env) where
  skip_value-yes_no :
      (v : Bool) (r : Reader) (t : Bytes)
      → At r (yes_no v ∷ t)
      → skip_value env r ≡ (some tt, advance 1 r)
  unfolding skip_value
  skip_value-yes_no true r t h = rw (peek-At r 0x80 t h)
  skip_value-yes_no false r t h = rw (peek-At r 0x81 t h)

  -- The slice that holds the sender.
  sized_value {ℓ} :
      {A : Type ℓ} (f : Reader → Option A) (bs t : Bytes) (r : Reader)
      → FitsLength env (length bs)
      → At r (write_value_length (length bs) ++ (bs ++ t))
      → sized f (bounded_value_length env r)
        ≡ (f (new bs), advance (length (write_value_length (length bs) ++ bs)) r)
  unfolding sized
  sized_value f bs t r fits h =
      rw
        (bounded_value_length-write_value_length env (length bs) r (bs ++ t) fits.0 fits.1
          (omega (arith, length-append bs t)) h)
        (ground (
          arith,
          slice-At (advance (length (write_value_length (length bs))) r) bs t
              (advance-At r (write_value_length (length bs)) (bs ++ t) h),
          length-append (write_value_length (length bs)) bs,
        ))

module _ (env : Env) {xs : Bytes} {d : Decoded} where
  pub run_field :
      (b : ℕ) (bs t : Bytes) (m m' : MmsMessage) (r : Reader)
      → At r (b ∷ (bs ++ t))
      → 0x80 ≤ b
      → decode_field env b m (advance 1 r) ≡ next m' (advance (length bs) (advance 1 r))
      → Continues env xs d m' r t
      → Runs env xs m r d
  run_field b bs t m m' r h high e k =
      Runs-field env b (bs ++ t) h high (e ∙ ap (next m') (advance-add r 1 (length bs))) (
        k (advance (1 + length bs) r) refl (
          subst (λ (q : Reader). At q t) (advance-add r 1 (length bs))
            (advance-At (advance 1 r) bs t (advance-At r (b ∷ []) (bs ++ t) h))))

  pub run-message_type :
      (v : ℕ) (t : Bytes) (m : MmsMessage) (r : Reader)
      → At r (Fields.message_type ∷ v ∷ t)
      → Continues env xs d (record m { message_type = v }) r t
      → Runs env xs m r d
  unfolding decode_field store
  run-message_type v t m r h k =
      run_field Fields.message_type (v ∷ []) t m _ r h (omega arith)
        (rw (u8-At (advance 1 r) v t (advance-At r (Fields.message_type ∷ []) (v ∷ t) h))) k

  pub run-transaction_id :
      (tid : Text) (t : Bytes) (m : MmsMessage) (r : Reader)
      → IsPlain tid
      → At r (Fields.transaction_id ∷ (write_text_string tid ++ t))
      → Continues env xs d (record m { transaction_id = some tid }) r t
      → Runs env xs m r d
  unfolding decode_field store
  run-transaction_id tid t m r p h k =
      run_field Fields.transaction_id (write_text_string tid) t m _ r h (omega arith)
        (rw (
          text_string-write_text_string tid (advance 1 r) t p
            (advance-At r (Fields.transaction_id ∷ []) _ h)))
        k

  pub run-mms_version :
      (v : ℕ) (t : Bytes) (m : MmsMessage) (r : Reader)
      → At r (Fields.mms_version ∷ v ∷ t)
      → Continues env xs d (record m { version = some v }) r t
      → Runs env xs m r d
  unfolding decode_field store
  run-mms_version v t m r h k =
      run_field Fields.mms_version (v ∷ []) t m _ r h (omega arith)
        (rw (u8-At (advance 1 r) v t (advance-At r (Fields.mms_version ∷ []) (v ∷ t) h))) k

  pub run-personal :
      (t : Bytes) (m : MmsMessage) (r : Reader)
      → At r (Fields.message_class ∷ 0x80 ∷ t)
      → Continues env xs d (record m { message_class = some (codes "personal") }) r t
      → Runs env xs m r d
  unfolding decode_field store
  run-personal t m r h k =
      run_field Fields.message_class (0x80 ∷ []) t m _ r h (omega arith)
        (rw (peek-At (advance 1 r) 0x80 t (advance-At r (Fields.message_class ∷ []) (0x80 ∷ t) h)))
        k

  -- The two reports are skipped.
  pub run_report :
      (b : ℕ) (v : Bool) (t : Bytes) (m : MmsMessage) (r : Reader)
      → ((b ≡ Fields.delivery_report) ⊎ (b ≡ Fields.read_report)) ⊎ (b ≡ Fields.report_allowed)
      → At r (b ∷ yes_no v ∷ t)
      → Continues env xs d m r t
      → Runs env xs m r d
  unfolding decode_field store
  run_report b v t m r e h k =
      run_field b (yes_no v ∷ []) t m m r h (ground arith)
        (skips e
          ∙ rw (skip_value-yes_no env v (advance 1 r) t (advance-At r (b ∷ []) (yes_no v ∷ t) h)))
        k
    where
      skips :
          ((b ≡ Fields.delivery_report) ⊎ (b ≡ Fields.read_report)) ⊎ (b ≡ Fields.report_allowed)
          → decode_field env b m (advance 1 r) ≡ skipped m (skip_value env (advance 1 r))
      skips (inl (inl e)) = rw e
      skips (inl (inr e)) = rw e
      skips (inr e) = rw e

  pub run-to :
      (ts : List Text) (t : Bytes) (m : MmsMessage) (r : Reader)
      → Utf8Laws env
      → All (IsAddress env) ts
      → At r (encode_to ts ++ t)
      → Continues env xs d (record m { to = m.to ++ map format_address ts }) r t
      → Runs env xs m r d
  unfolding decode_field store encode_to
  run-to [] t m r laws w h k =
      subst (λ (l : List Text). Runs env xs (record m { to = l }) r d) (append-nil m.to)
        (k r refl h)
  run-to (a ∷ ts) t m r laws w h k =
      run_field Fields.to bytes (encode_to ts ++ t) m added r h' (omega arith)
        (rw (
          encoded_string-write_encoded_string env laws (format_address a) (advance 1 r)
            (encode_to ts ++ t) w.0 (advance-At r (Fields.to ∷ []) _ h')))
        (λ q e at_q. run-to ts t added q laws w.1 at_q (λ q' e' at_q'.
          subst (λ (l : List Text). Runs env xs (record m { to = l }) q' d)
            (sym (append_assoc m.to (format_address a ∷ []) (map format_address ts)))
            (k q' (e' ∙ e) at_q')))
    where
      bytes : Bytes
      bytes = write_encoded_string (format_address a)

      added : MmsMessage
      added = record m { to = m.to ++ format_address a ∷ [] }

      h' : At r (Fields.to ∷ (bytes ++ (encode_to ts ++ t)))
      h' = h ∙ ap (◌∷◌ Fields.to) (append_assoc bytes (encode_to ts) t)

  pub run-subject :
      (o : Option Text) (t : Bytes) (m : MmsMessage) (r : Reader)
      → Utf8Laws env
      → OnSome (IsEncodable env) o
      → m.subject ≡ none
      → At r (encode_subject o ++ t)
      → Continues env xs d (record m { subject = kept_subject o }) r t
      → Runs env xs m r d
  unfolding decode_field store encode_subject
  run-subject none t m r laws w e h k =
      subst (λ (o : Option Text). Runs env xs (record m { subject = o }) r d) (sym e) (k r refl h)
  run-subject (some []) t m r laws w e h k =
      subst (λ (o : Option Text). Runs env xs (record m { subject = o }) r d) (sym e) (k r refl h)
  run-subject (some (c ∷ s)) t m r laws w e h k =
      run_field Fields.subject (write_encoded_string (c ∷ s)) t m _ r h (omega arith)
        (rw (
          encoded_string-write_encoded_string env laws (c ∷ s) (advance 1 r) t w
            (advance-At r (Fields.subject ∷ []) _ h)))
        k

  pub run-from :
      (o : Option Text) (t : Bytes) (m : MmsMessage) (r : Reader)
      → Utf8Laws env
      → 1 ≤ env.usize_max
      → OnSome (IsAddress env) o
      → OnSome (λ a. FitsLength env (suc (length (write_encoded_string (format_address a))))) o
      → At r (Fields.from ∷ (encode_from o ++ t))
      → Continues env xs d (record m { from = Option.map format_address o }) r t
      → Runs env xs m r d
  unfolding decode_field store encode_from u8
  run-from none t m r laws wide w fits h k =
      run_field Fields.from (write_value_length 1 ++ 0x81 ∷ []) t m _ r h (omega arith)
        (rw
          (sized_value env (λ inner. address_of env (u8 inner)) (0x81 ∷ []) t (advance 1 r)
            (omega arith)
            (advance-At r (Fields.from ∷ []) _ h
              ∙ append_assoc (write_value_length 1) (0x81 ∷ []) t))
          refl)
        k
  run-from (some a) t m r laws wide w fits h k =
      run_field Fields.from (write_value_length (length inner) ++ inner) t m _ r h (omega arith)
        (rw
          (sized_value env (λ q. address_of env (u8 q)) inner t (advance 1 r) fits
            (advance-At r (Fields.from ∷ []) _ h
              ∙ append_assoc (write_value_length (length inner)) inner t))
          (rw address))
        k
    where
      inner : Bytes
      inner = 0x80 ∷ write_encoded_string (format_address a)

      address : address_of env (u8 (new inner)) ≡ some (format_address a)
      address = rw (
          encoded_string-write_encoded_string env laws (format_address a) (advance 1 (new inner)) []
            w (sym (append-nil _)))
