-- ===== src/Push/Frame.antt =====
-- A framed push: its headers and its body are told apart by the declared length.
use modem2sip.Common.{
  ℕ, ◌+◌, ◌%◌, ◌^◌, ◌≤◌, ◌<◌, ◌≡◌, refl, arith, ◌⊎◌, inl, inr, true, List, [], ◌∷◌, ◌++◌, some,
  length, drop, length-append, subst,
}
use modem2sip.Text.{Bytes, Text}
use modem2sip.Wsp.Env.{Env}
use modem2sip.Wsp.Reader.{Reader, new, advance, slice}
use modem2sip.Wsp.Values.{content_type}
use modem2sip.Wsp.Writer.{write_uintvar}
use modem2sip.Wsp.At.{At, u8-At, slice-At, advance-At}
use modem2sip.Wsp.Uintvar.{uintvar-write_uintvar}
use modem2sip.Push.{is_wap_push, pushed, headers_fit, after_length, parse_wap_push}

-- A push: transaction, type, the length of the headers, the headers and the body.
abbrev pub frame : ℕ → ℕ → Bytes → Bytes → Bytes
frame tid kind headers body = tid ∷ kind ∷ (write_uintvar (length headers) ++ (headers ++ body))

is_wap_push_long :
    (tid kind : ℕ) (rest : Bytes)
    → 2 ≤ length rest
    → (kind ≡ 6) ⊎ (kind ≡ 7)
    → is_wap_push (tid ∷ kind ∷ rest) ≡ true
unfolding is_wap_push
is_wap_push_long tid kind [] long k = absurd (omega (arith, long))
is_wap_push_long tid kind (a ∷ []) long k = absurd (omega (arith, long))
is_wap_push_long tid kind (a ∷ b ∷ rest) long (inl six) = rw six
is_wap_push_long tid kind (a ∷ b ∷ rest) long (inr seven) = rw seven

mod_small : (n m : ℕ) → n ≤ m → n % (m + 1) ≡ n
mod_small n m le = grind arith

module _ (env : Env) where
  after_length-frame :
      (data_ headers body : Bytes) (r : Reader) (ct : Text) (params : List (Text × Text))
      (hr : Reader)
      → r.buf ≡ data_
      → At r (headers ++ body)
      → r.pos + length headers ≤ length data_
      → length data_ ≤ env.usize_max
      → content_type env (new headers) ≡ (some (ct, params), hr)
      → after_length env data_ (some (length headers), r)
        ≡ pushed (record { content_type = ct; body = body })
  after_length-frame data_ headers body r ct params hr buf at inside fits typed =
      let small : length headers % (env.usize_max + 1) ≡ length headers =
        mod_small (length headers) env.usize_max (omega arith) in
      let fit : headers_fit env data_ r.pos (length headers) ≡ true = ground arith in
      let cut : slice data_ r.pos (r.pos + length headers) ≡ headers =
        subst (λ b. slice b r.pos (r.pos + length headers) ≡ headers) buf
          (slice-At r headers body at) in
      let behind : drop (r.pos + length headers) data_ ≡ body =
        subst (λ b. drop (r.pos + length headers) b ≡ body) buf (advance-At r headers body at) in
      rw (small, fit, cut, typed, behind)

  -- For a frame of type 6 or 7 with at least four bytes and at most usize::MAX, whose headers
  -- are shorter than 2^56 bytes and start with a content type that decodes, parse_wap_push
  -- returns that content type and exactly the bytes behind the declared headers.
  pub parse_wap_push-frame :
      (tid kind : ℕ) (headers body : Bytes) (ct : Text) (params : List (Text × Text)) (hr : Reader)
      → (kind ≡ 6) ⊎ (kind ≡ 7)
      → 4 ≤ length (frame tid kind headers body)
      → length (frame tid kind headers body) ≤ env.usize_max
      → length headers < 2 ^ 56
      → content_type env (new headers) ≡ (some (ct, params), hr)
      → parse_wap_push env (frame tid kind headers body)
        ≡ pushed (record { content_type = ct; body = body })
  unfolding parse_wap_push
  parse_wap_push-frame tid kind headers body ct params hr k long fits small typed =
      let rest = write_uintvar (length headers) ++ (headers ++ body) in
      let data_ = frame tid kind headers body in
      let r1 = advance 1 (new data_) in
      let r2 = advance 1 r1 in
      let r3 = advance (length (write_uintvar (length headers))) r2 in
      let size : length data_
          ≡ 2 + (length (write_uintvar (length headers)) + (length headers + length body)) =
        omega (
          arith,
          length-append (write_uintvar (length headers)) (headers ++ body),
          length-append headers body,
        ) in
      let at2 : At r2 rest = refl in
      let at3 : At r3 (headers ++ body) =
        advance-At r2 (write_uintvar (length headers)) (headers ++ body) at2 in
      rw
        (
          is_wap_push_long tid kind rest (omega arith) k,
          u8-At (new data_) tid (kind ∷ rest) refl,
          u8-At r1 kind rest refl,
          uintvar-write_uintvar (length headers) r2 (headers ++ body) small at2,
        )
        (after_length-frame data_ headers body r3 ct params hr refl at3 (omega (arith, size)) fits
          typed)
