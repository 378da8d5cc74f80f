-- ===== src/Pdu/Runs.antt =====
-- The header loop of `decode` as a relation: the run from a message and a reader, whatever the fuel.
use modem2sip.Common.{
  ℕ, zero, suc, ◌≤◌, ◌≡◌, refl, ◌∙◌, arith, true, false, ◌⊎◌, inl, inr, ◌∷◌, length, drop,
}
use modem2sip.Text.{Bytes}
use modem2sip.Wsp.Env.{Env}
use modem2sip.Wsp.Reader.{Reader, advance, eof, new}
use modem2sip.Wsp.At.{At, eof-At, peek-At}
use modem2sip.Pdu.Message.{MmsMessage, empty_message}
use modem2sip.Pdu.Decode.{
  next, body, decode_field, decode_header, body_parts, Decoded, ok, stuck, decode_loop, decode,
}
use modem2sip.Pdu.Termination.{decode-ne-stuck}

module _ (env : Env) where
  pub data Runs (xs : Bytes) : MmsMessage → Reader → Decoded → Type 0 where
    ended : {m : MmsMessage} {r : Reader} → eof r ≡ true → Runs xs m r (ok m)
    field :
        {m m' : MmsMessage} {r r' : Reader} {d : Decoded}
        → eof r ≡ false
        → decode_header env m r ≡ next m' r'
        → Runs xs m' r' d
        → Runs xs m r d
    content :
        {m m' : MmsMessage} {r : Reader} {start : ℕ}
        → eof r ≡ false
        → decode_header env m r ≡ body m' start
        → Runs xs m r (ok (record m' { parts = body_parts env m' (drop start xs) }))

  decode_loop-Runs :
      (fuel : ℕ) {xs : Bytes} {m : MmsMessage} {r : Reader} {d : Decoded}
      → Runs xs m r d
      → (decode_loop env fuel xs m r ≡ stuck) ⊎ (decode_loop env fuel xs m r ≡ d)
  unfolding decode_loop
  decode_loop-Runs zero run = inl refl
  decode_loop-Runs (suc fuel) (ended e) = inr (rw (e, decode_loop))
  decode_loop-Runs (suc fuel) (content e h) = inr (rw (e, h, decode_loop))
  decode_loop-Runs (suc fuel) (field e h run) = rw (e, h, decode_loop) (decode_loop-Runs fuel run)

  -- The run from the start of the PDU gives the result of `decode`.
  pub decode-Runs :
      (xs : Bytes) {d : Decoded} → Runs xs empty_message (new xs) d → decode env xs ≡ d
  decode-Runs xs {d} run = go (unfold decode in decode_loop-Runs (suc (length xs)) run)
    where
      go : (decode env xs ≡ stuck) ⊎ (decode env xs ≡ d) → decode env xs ≡ d
      go (inl h) = absurd (decode-ne-stuck env xs h)
      go (inr h) = h

  decode_header-At :
      (b : ℕ) (s : Bytes) (m : MmsMessage) (r : Reader)
      → At r (b ∷ s)
      → 0x80 ≤ b
      → decode_header env m r ≡ decode_field env b m (advance 1 r)
  unfolding decode_header
  decode_header-At b s m r h high = rw (peek-At r b s h) (ground arith)

  -- One field of a PDU.
  pub Runs-field :
      {xs : Bytes} {m m' : MmsMessage} {r r' : Reader} {d : Decoded} (b : ℕ) (s : Bytes)
      → At r (b ∷ s)
      → 0x80 ≤ b
      → decode_field env b m (advance 1 r) ≡ next m' r'
      → Runs xs m' r' d
      → Runs xs m r d
  Runs-field {m} {r} b s h high e run =
      field (eof-At r b s h) (decode_header-At b s m r h high ∙ e) run

  pub Runs-content :
      {xs : Bytes} {m m' : MmsMessage} {r : Reader} {start : ℕ} (b : ℕ) (s : Bytes)
      → At r (b ∷ s)
      → 0x80 ≤ b
      → decode_field env b m (advance 1 r) ≡ body m' start
      → Runs xs m r (ok (record m' { parts = body_parts env m' (drop start xs) }))
  Runs-content {m} {r} b s h high e = content (eof-At r b s h) (decode_header-At b s m r h high ∙ e)
