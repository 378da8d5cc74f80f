-- ===== src/Dns/Family.antt =====
-- The addresses of an answer are of the family that was asked for.
use modem2sip.Common.{
  ℕ, zero, suc, ◌+◌, ◌≡◌, refl, arith, Bool, true, false, ◌&&◌, length, if◌then◌else◌, ◌==◌,
  Bool-cases, inl, inr, All, All-append, subst,
}
use modem2sip.Text.{Bytes}
use modem2sip.Dns.Names.{Result, ok, err, and_then, ok_or, get_range, u16_at, skip_name}
use modem2sip.Dns.Message.{
  IpAddr, v4, v6, Answer, type_a, type_cname, type_aaaa, add_record, parse_record, parse_records,
  skip_questions, no_records, parse_answer,
}

-- An IPv4 address for a query of type A, an IPv6 address of 16 bytes for one of type AAAA, and none
-- for another.
abbrev pub OfType : ℕ → IpAddr → Type 0
OfType qtype (v4 a b c d) = qtype ≡ type_a
OfType qtype (v6 octets) = (qtype ≡ type_aaaa) × (length octets ≡ 16)

abbrev pub Holds {ℓ κ} : {A : Type ℓ} → (A → Type κ) → Result A → Type κ
Holds P (ok a) = P a
Holds P (err e) = Unit

abbrev AnswerOf : ℕ → Answer → Type 0
AnswerOf qtype answer = All (OfType qtype) answer.addrs

Holds-and_then {ℓ κ μ} :
    {A : Type ℓ} {B : Type κ} (P : B → Type μ) (r : Result A) (f : A → Result B)
    → ((a : A) → r ≡ ok a → Holds P (f a))
    → Holds P (and_then r f)
Holds-and_then P (ok a) f h = h a refl
Holds-and_then P (err e) f h = tt

and_true : (a b c : Bool) → (a && b && c) ≡ true → (b ≡ true) × (c ≡ true)
and_true true true true h = (refl, refl)
and_true true true false h = ground arith
and_true true false c h = ground arith
and_true false b c h = ground arith

add_record-OfType :
    (msg : Bytes) (qtype rtype : ℕ) (rdata : Bytes) (pos : ℕ) (answer : Answer)
    → AnswerOf qtype answer
    → AnswerOf qtype (add_record msg qtype rtype rdata pos answer)
unfolding add_record
add_record-OfType msg qtype rtype rdata pos answer before =
    elim (Bool-cases (rtype == type_a && length rdata == 4 && qtype == type_a)) [
      | inl a ↦ rw a (
          All-append (OfType qtype) answer.addrs _ before (
            let asked = (and_true (rtype == type_a) (length rdata == 4) (qtype == type_a) a).1 in
            (ground arith, tt)))
      | inr not_a ↦
          elim (Bool-cases (rtype == type_aaaa && length rdata == 16 && qtype == type_aaaa)) [
            | inl aaaa ↦
                rw (not_a, aaaa)
                  (All-append (OfType qtype) answer.addrs _ before (
                    let asked =
                      and_true (rtype == type_aaaa) (length rdata == 16) (qtype == type_aaaa)
                        aaaa in
                    let size = asked.0 in let kind = asked.1 in ((ground arith, ground arith), tt)))
            | inr not_aaaa ↦ elim (Bool-cases (rtype == type_cname)) [
              | inl c ↦ rw (not_a, not_aaaa, c) before
              | inr c ↦ rw (not_a, not_aaaa, c) before
            ]
          ]
    ]

parse_record-OfType :
    (msg : Bytes) (qtype start : ℕ) (answer : Answer)
    → AnswerOf qtype answer
    → Holds (λ r. AnswerOf qtype r.0) (parse_record msg qtype start answer)
unfolding parse_record
parse_record-OfType msg qtype start answer before =
    Holds-and_then (λ r. AnswerOf qtype r.0) (skip_name msg start) _
      (λ pos _.
        Holds-and_then (λ r. AnswerOf qtype r.0) (ok_or (get_range msg pos (pos + 10)) _) _
          (λ header _.
            Holds-and_then (λ r. AnswerOf qtype r.0)
              (ok_or (get_range msg (pos + 10) (pos + 10 + u16_at header 8)) _) _
              (λ rdata _.
                add_record-OfType msg qtype (u16_at header 0) rdata (pos + 10) answer before)))

pub Holds-at {ℓ κ} :
    {A : Type ℓ} (P : A → Type κ) (r : Result A) (a : A) → Holds P r → r ≡ ok a → P a
Holds-at P r a h e = subst (Holds P) e h

parse_records-OfType :
    (n : ℕ) (msg : Bytes) (qtype pos : ℕ) (answer : Answer)
    → AnswerOf qtype answer
    → Holds (AnswerOf qtype) (parse_records n msg qtype pos answer)
unfolding parse_records
parse_records-OfType zero msg qtype pos answer before = before
parse_records-OfType (suc n) msg qtype pos answer before =
    Holds-and_then (AnswerOf qtype) (parse_record msg qtype pos answer) _ (λ r at.
      parse_records-OfType n msg qtype r.1 r.0 (
        Holds-at (λ r. AnswerOf qtype r.0) (parse_record msg qtype pos answer) r
          (parse_record-OfType msg qtype pos answer before) at))

Holds-if {ℓ κ} :
    {A : Type ℓ} (P : A → Type κ) (b : Bool) (x y : Result A)
    → Holds P x
    → Holds P y
    → Holds P (if b then x else y)
Holds-if P true x y h k = h
Holds-if P false x y h k = k

parse_answer-Holds :
    (msg : Bytes) (want_id qtype : ℕ) → Holds (AnswerOf qtype) (parse_answer msg want_id qtype)
unfolding parse_answer
parse_answer-Holds msg want_id qtype =
    let records =
      Holds-and_then (AnswerOf qtype) (skip_questions (u16_at msg 4) msg 12) _
        (λ pos _. parse_records-OfType (u16_at msg 6) msg qtype pos no_records tt) in
    ground (arith, records)

-- Every address in an answer that parse_answer accepts is of the family asked for: an IPv4
-- address only for a query of type A, and an IPv6 address, of 16 bytes, only for one of type
-- AAAA.
pub parse_answer-OfType :
    (msg : Bytes) (want_id qtype : ℕ) (answer : Answer)
    → parse_answer msg want_id qtype ≡ ok answer
    → All (OfType qtype) answer.addrs
parse_answer-OfType msg want_id qtype answer parsed =
    Holds-at (AnswerOf qtype) (parse_answer msg want_id qtype) answer
      (parse_answer-Holds msg want_id qtype) parsed
