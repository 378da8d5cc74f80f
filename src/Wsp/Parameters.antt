-- ===== src/Wsp/Parameters.antt =====
-- The loop over the parameters of a content type, run to its end.
use modem2sip.Common.{
  ℕ, zero, suc, ◌+◌, ◌-◌, ◌≤◌, ◌<◌, ◌≡◌, refl, ap, ◌∙◌, arith, true, false, List, [], ◌∷◌, ◌++◌,
  Option, none, some, length, Bool-cases, inl, inr, if◌then◌else◌,
}
use modem2sip.Text.{Text}
use modem2sip.Wsp.Env.{Env}
use modem2sip.Wsp.Reader.{
  Reader, ◌>>=◌, ◌>>◌, return, bump, advance, peeked, peek, eof, u8, text_string, high_bit,
  low_bits,
}
use modem2sip.Wsp.Tables.{content_type_name}
use modem2sip.Wsp.Values.{
  ContentType, lookup_parameter, parameter, push_parameter, parameters, with_parameters,
  content_type_inner,
}
use modem2sip.Wsp.Bounds.{
  Forward, Forward-refl, >>=-Moves, >>=-MovesInside, if-MovesInside, return-Moves,
  with_default-Moves, bump-MovesInside, peeked-Moves, Moves, Moves-MovesInside, then_read-Forward,
  text_string-Moves, text_string-lt,
}
use modem2sip.Wsp.Progress.{encoded_string-Moves, parameter_value-Moves}

-- The slice is the same, and a byte at least was taken.
pub record Behind (r r' : Reader) : Type 0 where
  pub same : r'.buf ≡ r.buf
  pub lt : r.pos < r'.pos

pub Behind-Forward : (r : Reader) {r' : Reader} → Forward (advance 1 r) r' → Behind r r'
Behind-Forward r f = record { same = f.same; lt = omega (arith, f.le) }

-- `self.pos -= 1` behind `u8`.
abbrev pub put_back : Reader → Reader
put_back r = record r { pos = r.pos - 1 }

pub text_string-Behind :
    (r : Reader) {b : ℕ} → peek r ≡ some b → Behind r (text_string (put_back (advance 1 r))).1
unfolding peek
text_string-Behind r {b} e =
    let q = put_back (advance 1 r) in
    let here : r.pos + 1 - 1 ≡ r.pos = omega arith in
    let same_byte : peek q ≡ some b = rw here e in
    let f : Forward q (text_string q).1 = text_string-Moves.forward q in
    let lt : q.pos < (text_string q).1.pos = text_string-lt q same_byte in
    record { same = f.same; lt = omega (arith, lt) }

pub Behind-trans : {r r' r'' : Reader} → Behind r r' → Forward r' r'' → Behind r r''
Behind-trans b f = record { same = f.same ∙ b.same; lt = omega (arith, b.lt, f.le) }

pub eof-true : (r : Reader) → length r.buf ≤ r.pos → eof r ≡ true
unfolding eof
eof-true r h = ground arith

module _ (env : Env) where
  -- The rounds of the source's `while` loop, from a reader and the parameters so far to the
  -- parameters that it ends with. Nothing here counts fuel: a loop that does not end has none.
  pub data ParametersRun : Reader → List (Text × Text) → List (Text × Text) → Type 0 where
    at_end : {r : Reader} {out : List (Text × Text)} → eof r ≡ true → ParametersRun r out out
    at_break :
        {r r' : Reader} {out : List (Text × Text)}
        → eof r ≡ false
        → parameter env r ≡ (none, r')
        → ParametersRun r out out
    at_push :
        {r r' : Reader} {p : Text × Text} {out all : List (Text × Text)}
        → eof r ≡ false
        → parameter env r ≡ (some p, r')
        → ParametersRun r' (out ++ p ∷ []) all
        → ParametersRun r out all

  parameter-Behind : (r : Reader) {b : ℕ} → peek r ≡ some b → Behind r (parameter env r).1
  unfolding parameter u8 peek
  parameter-Behind r {b} e = rw e (elim (Bool-cases (high_bit b)) [
    | inl typed ↦ rw typed (
        Behind-Forward r (
          (>>=-Moves (parameter_value-Moves env (low_bits b))
              (λ value. return-Moves (lookup_parameter (low_bits b), value))).forward
            (advance 1 r)))
    | inr untyped ↦ rw untyped (
        Behind-trans (text_string-Behind r e) (
          then_read-Forward (text_string (put_back (advance 1 r))).1 _
            (text_string (put_back (advance 1 r)))
            (Forward-refl (text_string (put_back (advance 1 r))).1)
            (λ name.
              >>=-Moves (with_default-Moves [] (encoded_string-Moves env))
                (λ value. return-Moves (name, value)))))
  ])

  parameter-none : (r : Reader) → peek r ≡ none → parameter env r ≡ (none, r)
  unfolding parameter u8 peek
  parameter-none r e = rw e

  -- With a round for each byte that is left, the model's loop is the source's.
  pub parameters-ParametersRun :
      (fuel : ℕ) (r : Reader) (out : List (Text × Text))
      → length r.buf - r.pos ≤ fuel
      → ParametersRun r out (parameters env fuel r out)
  unfolding parameters
  parameters-ParametersRun zero r out h = at_end (eof-true r (omega arith))
  parameters-ParametersRun (suc fuel) r out h = elim (Bool-cases (eof r)) [
    | inl end_ ↦ rw (end_, parameters) (at_end end_)
    | inr more ↦
        rw (more, parameters)
          (go (parameter env r) refl (peek r) refl (parameters-ParametersRun fuel) more)
  ]
    where
      go :
          (x : Option (Text × Text) × Reader)
          → parameter env r ≡ x
          → (o : Option ℕ) → peek r ≡ o
          → ((q : Reader) (out' : List (Text × Text))
              → length q.buf - q.pos ≤ fuel
              → ParametersRun q out' (parameters env fuel q out'))
          → eof r ≡ false
          → ParametersRun r out (push_parameter (parameters env fuel) out x)
      go (none, q) e o p ih more = at_break more e
      go (some v, q) e none p ih more = cc (parameter-none r p)
      go (some v, q) e (some b) p ih more =
          let moved : Behind r q = rw e at (parameter-Behind r p) in
          at_push more e (ih q (out ++ v ∷ []) (omega (arith, moved.lt, h, ap length moved.same)))

  -- The parameters of a content type come from a loop over its slice that ended.
  abbrev pub HasRun : Reader → Option ContentType → Type 0
  HasRun inner none = Unit {0}
  HasRun inner (some (name, params)) =
      (r : Reader) × (r.buf ≡ inner.buf) × (inner.pos ≤ r.pos) × ParametersRun r [] params

  pub content_type_inner-HasRun : (inner : Reader) → HasRun inner (content_type_inner env inner)
  unfolding content_type_inner
  content_type_inner-HasRun inner = after (name_at inner) (name-Moves.forward inner)
    where
      name_at : Reader → Option Text × Reader
      name_at = do
        b ← peeked
        if high_bit b then (do bump 1; return (content_type_name (low_bits b))) else text_string

      name-Moves : Moves name_at
      name-Moves = peeked-Moves (λ b.
          if-MovesInside (high_bit b)
            (>>=-MovesInside bump-MovesInside (λ _. return-Moves (content_type_name (low_bits b))))
            (Moves-MovesInside text_string-Moves))

      after :
          (x : Option Text × Reader)
          → Forward inner x.1
          → HasRun inner (with_parameters (λ r. parameters env (length inner.buf) r []) x)
      after (none, r) f = tt
      after (some name, r) f = (
        r,
        f.same,
        f.le,
        parameters-ParametersRun (length inner.buf) r [] (omega (arith, ap length f.same)),
      )
