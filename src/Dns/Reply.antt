-- ===== src/Dns/Reply.antt =====
-- Which datagram a query takes for its reply.
use modem2sip.Common.{
  ℕ, ◌+◌, ◌/◌, ◌%◌, ◌≤◌, ◌<◌, ◌≡◌, ◌≢◌, ◌⊎◌, refl, arith, true, List, [], ◌∷◌, ◌++◌, Option, none,
  some, All, Bool-cases, inl, inr, length,
}
use modem2sip.Text.{Bytes, Text}
use modem2sip.Text.Ops.{eq_ignore_ascii_case}
use modem2sip.Dns.Names.{Result, ok, err, get_range, u16_at, skip_name, read_name}
use modem2sip.Dns.Message.{
  Reply, trim_dots, question_matches, question_at, echoed, classify, parse_answer,
}
use modem2sip.Dns.Resolver.{await_reply}

-- A response with the query's number: a whole header, the number in its first field, and the bit
-- that tells responses from queries.
abbrev pub HasHeader : ℕ → Bytes → Type 0
HasHeader id msg = (12 ≤ length msg) × (u16_at msg 0 ≡ id) × (u16_at msg 2 / 0x8000 % 2 ≡ 1)

-- The type, the class and the name of a question are those asked for.
abbrev pub IsQuestion : Text → ℕ → Text → Bytes → Type 0
IsQuestion host qtype name q =
    (u16_at q 0 ≡ qtype) × (u16_at q 2 ≡ 1) × (eq_ignore_ascii_case name (trim_dots host) ≡ true)

-- The datagram has one question, behind the header, and it is the query's.
abbrev pub Asks : Text → ℕ → Bytes → Type 0
Asks host qtype msg =
    (name : Text) × (after : ℕ) × (q : Bytes) × (u16_at msg 4 ≡ 1)
    × (read_name msg 12 ≡ ok name)
    × (skip_name msg 12 ≡ ok after)
    × (get_range msg after (after + 4) ≡ some q)
    × IsQuestion host qtype name q

-- A datagram that the query passes over: no whole header, another number, no response, or
-- another question and no error code.
abbrev pub IsNoise : ℕ → Text → ℕ → Bytes → Type 0
IsNoise id host qtype msg =
    (length msg < 12)
    ⊎ (u16_at msg 0 ≢ id)
    ⊎ (u16_at msg 2 / 0x8000 % 2 ≡ 0)
    ⊎ ((u16_at msg 2 % 16 ≡ 0) × (¬ Asks host qtype msg))

module _ (host : Text) (qtype : ℕ) (msg : Bytes) where
  Asks-echoed : Asks host qtype msg → echoed msg host qtype ≡ true
  unfolding echoed
  Asks-echoed (name, after, q, one, named, skipped, there, (kind, class, same)) =
      rw (named, skipped, there) (ground (arith, one, kind, class, same))

  matches-IsQuestion :
      (name : Text) (q : Bytes)
      → question_matches host name qtype (some q) ≡ true
      → IsQuestion host qtype name q
  matches-IsQuestion name q h = (ground (arith, h), ground (arith, h), ground (arith, h))

  question_at-Asks :
      u16_at msg 4 ≡ 1
      → (n : Result Text) (s : Result ℕ) → read_name msg 12 ≡ n
      → skip_name msg 12 ≡ s
      → question_at msg host qtype n s ≡ true
      → Asks host qtype msg
  question_at-Asks one (ok name) (ok after) named skipped h =
      behind (get_range msg after (after + 4)) refl h
    where
      behind :
          (o : Option Bytes)
          → get_range msg after (after + 4) ≡ o
          → question_matches host name qtype o ≡ true
          → Asks host qtype msg
      behind none there k = ground (arith, k)
      behind (some q) there k =
          (name, after, q, one, named, skipped, there, matches-IsQuestion name q k)
  question_at-Asks one (ok name) (err e) named skipped h = ground (arith, h)
  question_at-Asks one (err e) (ok after) named skipped h = ground (arith, h)
  question_at-Asks one (err e) (err e') named skipped h = ground (arith, h)

  echoed-Asks : echoed msg host qtype ≡ true → Asks host qtype msg
  unfolding echoed
  echoed-Asks h =
      question_at-Asks (ground (arith, h)) (read_name msg 12) (skip_name msg 12) refl refl
        (ground (arith, h))

  classify-ours :
      (id : ℕ) → HasHeader id msg → Asks host qtype msg → classify msg id host qtype ≡ Reply.ours
  unfolding classify
  classify-ours id (whole, number, response) asks =
      rw (Asks-echoed asks) (ground (arith, whole, number, response))

  classify-noise :
      (id : ℕ) → IsNoise id host qtype msg → classify msg id host qtype ≡ Reply.not_ours
  unfolding classify
  classify-noise id (inl short) = ground (arith, short)
  classify-noise id (inr (inl other)) = ground (arith, other)
  classify-noise id (inr (inr (inl query))) = ground (arith, query)
  classify-noise id (inr (inr (inr (fine, differs)))) = elim (Bool-cases (echoed msg host qtype)) [
    | inl same ↦ absurd (differs (echoed-Asks same))
    | inr other ↦ rw (other, fine) (ground arith)
  ]

-- When each datagram before it has no whole header, another number than the query, or no response
-- bit, or has no error code and does not ask exactly the query's question, then the first
-- datagram with a whole header, the query's number, the response bit and exactly the query's
-- question (its name without regard to case) is the one that the query parses, whatever arrives
-- later.
pub await_reply-ours :
    (id : ℕ) (host : Text) (qtype : ℕ) (noise : List Bytes) (msg : Bytes) (later : List Bytes)
    → All (IsNoise id host qtype) noise
    → HasHeader id msg
    → Asks host qtype msg
    → await_reply id host qtype (noise ++ msg ∷ later) ≡ parse_answer msg id qtype
unfolding await_reply
await_reply-ours id host qtype [] msg later ignored header asks =
    rw (classify-ours host qtype msg id header asks, await_reply)
await_reply-ours id host qtype (m ∷ noise) msg later (here, rest) header asks =
    rw (classify-noise host qtype m id here, await_reply)
      (await_reply-ours id host qtype noise msg later rest header asks)
