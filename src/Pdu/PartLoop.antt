-- ===== src/Pdu/PartLoop.antt =====
-- The loop over the headers of a part, run to its end.
use modem2sip.Common.{
  ℕ, zero, suc, ◌-◌, ◌≤◌, ◌≡◌, refl, ap, arith, Bool, true, false, [], Option, none, some, length,
  ltb, ◌==◌, Bool-cases, inl, inr, if◌then◌else◌,
}
use mathlib.Core.Option
use modem2sip.Text.{Bytes, Text}
use modem2sip.Wsp.Env.{Env}
use modem2sip.Wsp.Tables.{unwrap_or, octet_stream}
use modem2sip.Wsp.Reader.{Reader, advance, new, peek, eof, u8, text_string}
use modem2sip.Wsp.Values.{ContentType, content_type, skip_value}
use modem2sip.Wsp.Bounds.{text_string-Moves}
use modem2sip.Wsp.Progress.{content_type-Moves, skip_value-Moves}
use modem2sip.Wsp.Parameters.{
  Behind, Behind-Forward, Behind-trans, put_back, text_string-Behind, eof-true,
}
use modem2sip.Pdu.Message.{MmsPart}
use modem2sip.Pdu.Decode.{
  PartRound, next_header, end_headers, part_store, part_skipped, part_header, strip_angles,
  after_part_header, part_headers_loop, part_of,
}

-- The round that follows, if any, starts behind `r`.
record Later (r : Reader) (round : PartRound) : Type 0 where
  step : (p : MmsPart) (r' : Reader) → round ≡ next_header p r' → Behind r r'

if-Later :
    {r : Reader} (b : Bool) {x y : PartRound} → Later r x → Later r y → Later r (if b then x else y)
if-Later true h k = h
if-Later false h k = k

part_store-Later :
    (r : Reader) (f : Option Text → MmsPart) (x : Option Text × Reader)
    → Behind r x.1
    → Later r (part_store f x)
part_store-Later r f (v, q) h = record {
  step = λ p r' e. record { same = ground (arith, h.same, e); lt = ground (arith, h.lt, e) };
}

part_skipped-Later :
    (r : Reader) (part : MmsPart) (x : Option (Unit {0}) × Reader)
    → Behind r x.1
    → Later r (part_skipped part x)
part_skipped-Later r part (none, q) h = record { step = λ p r' e. cc }
part_skipped-Later r part (some _, q) h = record {
  step = λ p r' e. record { same = ground (arith, h.same, e); lt = ground (arith, h.lt, e) };
}

-- A part before its headers are read.
abbrev pub typed_part : Bytes → Option ContentType → MmsPart
typed_part payload ct =
    let (t, params) = unwrap_or ct (octet_stream, []) in
    record {
      content_type = t;
      params = params;
      content_id = none;
      content_location = none;
      payload = payload;
    }

module _ (env : Env) where
  -- The rounds of the source's `while` loop, from a part and a reader to the part that it ends
  -- with. Nothing here counts fuel: a loop that does not end has none.
  pub data PartHeadersRun : MmsPart → Reader → MmsPart → Type 0 where
    at_end : {part : MmsPart} {r : Reader} → eof r ≡ true → PartHeadersRun part r part
    at_break :
        {part last : MmsPart} {r : Reader}
        → eof r ≡ false
        → part_header env part r ≡ end_headers last
        → PartHeadersRun part r last
    at_header :
        {part part' last : MmsPart} {r r' : Reader}
        → eof r ≡ false
        → part_header env part r ≡ next_header part' r'
        → PartHeadersRun part' r' last
        → PartHeadersRun part r last

  part_header-Later : (part : MmsPart) (r : Reader) → Later r (part_header env part r)
  unfolding part_header u8 peek
  part_header-Later part r = go (peek r) refl
    where
      text : Behind r (text_string (advance 1 r)).1
      text = Behind-Forward r (text_string-Moves.forward (advance 1 r))

      set_id : Option Text → MmsPart
      set_id v = record part { content_id = Option.map strip_angles v }

      set_location : Option Text → MmsPart
      set_location v = record part { content_location = v }

      go : (o : Option ℕ) → peek r ≡ o → Later r (part_header env part r)
      go none e = rw e (record { step = λ p r' eq. cc })
      go (some h) e = rw e (
          if-Later (h == 0xC0) (part_store-Later r set_id (text_string (advance 1 r)) text) (
            if-Later (h == 0x8E) (part_store-Later r set_location (text_string (advance 1 r)) text)
              (if-Later (ltb h 0x80)
                (part_skipped-Later r part (skip_value env (text_string (put_back (advance 1 r))).1)
                  (Behind-trans (text_string-Behind r e)
                    ((skip_value-Moves env).forward (text_string (put_back (advance 1 r))).1)))
                (part_skipped-Later r part (skip_value env (advance 1 r))
                  (Behind-Forward r ((skip_value-Moves env).forward (advance 1 r)))))))

  -- With a round for each byte that is left, the model's loop is the source's.
  part_headers_loop-PartHeadersRun :
      (fuel : ℕ) (part : MmsPart) (r : Reader)
      → length r.buf - r.pos ≤ fuel
      → PartHeadersRun part r (part_headers_loop env fuel part r)
  unfolding part_headers_loop
  part_headers_loop-PartHeadersRun zero part r h = at_end (eof-true r (omega arith))
  part_headers_loop-PartHeadersRun (suc fuel) part r h = elim (Bool-cases (eof r)) [
    | inl end_ ↦ rw (end_, part_headers_loop) (at_end end_)
    | inr more ↦
        rw (more, part_headers_loop)
          (go (part_header env part r) refl (part_header-Later part r)
            (part_headers_loop-PartHeadersRun fuel) more)
  ]
    where
      go :
          (round : PartRound)
          → part_header env part r ≡ round
          → Later r round
          → ((part' : MmsPart) (q : Reader)
              → length q.buf - q.pos ≤ fuel
              → PartHeadersRun part' q (part_headers_loop env fuel part' q))
          → eof r ≡ false
          → PartHeadersRun part r (after_part_header env (part_headers_loop env fuel) round)
      go (end_headers last) e l ih more = at_break more e
      go (next_header part' q) e l ih more =
          let moved : Behind r q = l.step part' q refl in
          at_header more e (ih part' q (omega (arith, moved.lt, h, ap length moved.same)))

  pub part_of-PartHeadersRun :
      (headers payload : Bytes)
      → PartHeadersRun
          (typed_part payload (content_type env (new headers)).0)
          (content_type env (new headers)).1
          (part_of env headers payload (content_type env (new headers)))
  part_of-PartHeadersRun headers payload =
      let f = (content_type-Moves env).forward (new headers) in
      part_headers_loop-PartHeadersRun (length headers)
        (typed_part payload (content_type env (new headers)).0) (content_type env (new headers)).1
        (omega (arith, ap length f.same))
