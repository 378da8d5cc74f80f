-- ===== src/Dns/Termination.antt =====
-- The loop of `read_name` ends: a pointer costs a hop, and between two pointers the position grows.
use modem2sip.Common.{
  ℕ, zero, suc, ◌+◌, ◌-◌, ◌<◌, ◌≡◌, ◌≢◌, refl, arith, [], ◌∷◌, Option, none, some, length,
  get_elem?, ◌==◌, Bool-cases, inl, inr,
}
use modem2sip.Text.{Bytes, Text}
use modem2sip.Dns.Names.{
  DnsError, Result, err, get_range, is_pointer, NameRound, follow_pointer, push_label, name_byte,
  read_name_round, read_name_loop, name_budget, read_name,
}

-- No error of the source is the model's.
abbrev pub NotStuck : Result Text → Type 0
NotStuck r = r ≢ err DnsError.out_of_fuel

get_elem?-in : (xs : Bytes) (i b : ℕ) → get_elem? xs i ≡ some b → i < length xs
get_elem?-in [] i b h = ground arith
get_elem?-in (x ∷ xs) zero b h = omega arith
get_elem?-in (x ∷ xs) (suc i) b h = omega (arith, get_elem?-in xs i b h)

name_budget_positive : (hops size : ℕ) → size < name_budget hops size
unfolding name_budget
name_budget_positive zero size = omega arith
name_budget_positive (suc hops) size = omega (arith, name_budget_positive hops size)

-- What a round leaves: a result that is not the model's error, or less work.
abbrev Smaller : Bytes → ℕ → ℕ → NameRound → Type 0
Smaller msg hops pos (NameRound.finished r) = NotStuck r
Smaller msg hops pos (NameRound.again out hops2 pos2) =
    name_budget hops2 (length msg) - pos2 < name_budget hops (length msg) - pos

follow_pointer-Smaller :
    (msg : Bytes) (out : Text) (hops pos len : ℕ) (lo : Option ℕ)
    → pos < length msg
    → Smaller msg hops pos (follow_pointer out hops len lo)
unfolding name_budget
follow_pointer-Smaller msg out hops pos len none inside = λ e. ground arith
follow_pointer-Smaller msg out zero pos len (some lo) inside = λ e. ground arith
follow_pointer-Smaller msg out (suc hops) pos len (some lo) inside =
    omega (arith, name_budget_positive hops (length msg))

push_label-Smaller :
    (msg : Bytes) (out : Text) (hops pos len : ℕ) (label : Option Bytes)
    → pos < length msg
    → Smaller msg hops pos (push_label out hops (pos + 1 + len) label)
push_label-Smaller msg out hops pos len none inside = λ e. ground arith
push_label-Smaller msg out hops pos len (some label) inside =
    omega (arith, name_budget_positive hops (length msg))

name_byte-Smaller :
    (msg : Bytes) (out : Text) (hops pos : ℕ) (len : Option ℕ)
    → get_elem? msg pos ≡ len
    → Smaller msg hops pos (name_byte msg out hops pos len)
name_byte-Smaller msg out hops pos none at = λ e. ground arith
name_byte-Smaller msg out hops pos (some len) at =
    let inside = get_elem?-in msg pos len at in
    elim (Bool-cases (len == 0)) [
      | inl end_ ↦ rw end_ (λ e. ground arith)
      | inr more ↦ elim (Bool-cases (is_pointer len)) [
        | inl pointer ↦
            rw (more, pointer)
              (follow_pointer-Smaller msg out hops pos len (get_elem? msg (pos + 1)) inside)
        | inr label ↦
            rw (more, label)
              (push_label-Smaller msg out hops pos len (get_range msg (pos + 1) (pos + 1 + len))
                inside)
      ]
    ]

after_round :
    (fuel : ℕ) (msg : Bytes) (hops pos : ℕ) (round : NameRound)
    → Smaller msg hops pos round
    → ((out : Text) (hops2 pos2 : ℕ)
        → name_budget hops2 (length msg) - pos2 < name_budget hops (length msg) - pos
        → NotStuck (read_name_loop fuel msg out hops2 pos2))
    → NotStuck (elim round [
      | NameRound.finished result ↦ result
      | NameRound.again out2 hops2 pos2 ↦ read_name_loop fuel msg out2 hops2 pos2
    ])
after_round fuel msg hops pos (NameRound.finished result) small rec = small
after_round fuel msg hops pos (NameRound.again out2 hops2 pos2) small rec =
    rec out2 hops2 pos2 small

pub read_name_loop-NotStuck :
    (fuel : ℕ) (msg : Bytes) (out : Text) (hops pos : ℕ)
    → name_budget hops (length msg) - pos < fuel
    → NotStuck (read_name_loop fuel msg out hops pos)
unfolding read_name_loop read_name_round
read_name_loop-NotStuck zero msg out hops pos enough = elim (enough) [ ]
read_name_loop-NotStuck (suc fuel) msg out hops pos enough =
    after_round fuel msg hops pos (name_byte msg out hops pos (get_elem? msg pos))
      (name_byte-Smaller msg out hops pos (get_elem? msg pos) refl)
      (λ out2 hops2 pos2 less. read_name_loop-NotStuck fuel msg out2 hops2 pos2 (omega arith))

-- For every message and position, also one whose compression pointers form a cycle, the loop of
-- read_name ends within the model's fuel: the result is a name or an error of the program.
pub read_name-NotStuck : (msg : Bytes) (pos : ℕ) → NotStuck (read_name msg pos)
unfolding read_name
read_name-NotStuck msg pos =
    read_name_loop-NotStuck (suc (name_budget 16 (length msg))) msg [] 16 pos (omega arith)
