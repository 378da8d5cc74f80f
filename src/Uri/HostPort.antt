-- ===== src/Uri/HostPort.antt =====
-- A host and a port, written out and split again.
use modem2sip.Common.{
  ℕ, ◌≤◌, ◌≡◌, refl, arith, Bool, true, false, ◌&&◌, ◌||◌, not, [], ◌∷◌, ◌++◌, Option, none, some,
  ◌==◌, All, All-append, Bool-cases, inl, inr, append_assoc, append-nil,
}
use modem2sip.Text.{Text}
use modem2sip.Text.Ops.{
  contains_char, starts_with, strip_prefix, split_once, rsplit_once, split_last, decimal,
  is_whitespace,
}
use modem2sip.Text.Decimal.{IsDigit, decimal-IsDigit, parse_unsigned-decimal}
use modem2sip.Number.Local.{NoSpace, trim_id, digits-NoSpace}
use modem2sip.Uri.Host.{
  host_for_wire, u16_max, port_of, host_and_port, trimmed_host_port, split_host_port,
}
use modem2sip.Uri.Parse.{port_text}

abbrev pub FitsU16 : Option ℕ → Type 0
FitsU16 none = Unit
FitsU16 (some p) = p ≤ u16_max

-- What a bracket-free host is: a name or an address literal, without white space.
pub record IsHost (host : Text) : Type 0 where
  pub no_space : NoSpace host
  pub no_opening : starts_with host (b'[' ∷ []) ≡ false
  pub no_closing : contains_char host b']' ≡ false

==_self : (c : ℕ) → (c == c) ≡ true
==_self c = ground arith

or_false : (a b : Bool) → (a || b) ≡ false → (a ≡ false) × (b ≡ false)
or_false true b h = ground arith
or_false false true h = ground arith
or_false false false h = (refl, refl)

pub split_once-append :
    (x : ℕ) (s t : Text) → contains_char s x ≡ false → split_once x (s ++ x ∷ t) ≡ some (s, t)
unfolding split_once contains_char
split_once-append x [] t h = rw (==_self x)
split_once-append x (c ∷ s) t h =
    let (here, later) = or_false (c == x) (contains_char s x) h in
    rw (here, split_once-append x s t later)

rsplit_once-none : (x : ℕ) (s : Text) → contains_char s x ≡ false → rsplit_once x s ≡ none
unfolding rsplit_once contains_char
rsplit_once-none x [] h = refl
rsplit_once-none x (c ∷ s) h =
    let (here, later) = or_false (c == x) (contains_char s x) h in
    rw (rsplit_once-none x s later, split_last, here)

rsplit_once-append :
    (x : ℕ) (s t : Text) → contains_char t x ≡ false → rsplit_once x (s ++ x ∷ t) ≡ some (s, t)
unfolding rsplit_once
rsplit_once-append x [] t h = rw (rsplit_once-none x t h, split_last, ==_self x)
rsplit_once-append x (c ∷ s) t h = rw (rsplit_once-append x s t h)

pub digits_no_colon : (s : Text) → All IsDigit s → contains_char s b':' ≡ false
unfolding contains_char
digits_no_colon [] h = refl
digits_no_colon (c ∷ s) h =
    let other : (c == b':') ≡ false = ground (arith, h.0) in rw other (digits_no_colon s h.1)

port_text-NoSpace : (port : Option ℕ) → NoSpace (port_text port)
unfolding is_whitespace
port_text-NoSpace none = tt
port_text-NoSpace (some p) = (refl, digits-NoSpace (decimal p) (decimal-IsDigit p))

host_for_wire-NoSpace : (host : Text) → NoSpace host → NoSpace (host_for_wire host)
unfolding host_for_wire is_whitespace
host_for_wire-NoSpace host h =
    elim (Bool-cases (contains_char host b':' && not (starts_with host (b'[' ∷ [])))) [
      | inl literal ↦
          rw (literal, All)
            (refl, All-append (λ c. is_whitespace c ≡ false) host (b']' ∷ []) h (refl, tt))
      | inr name ↦ rw name h
    ]

strip_prefix-port_text :
    (port : Option ℕ) → FitsU16 port → port_of (strip_prefix (port_text port) (b':' ∷ [])) ≡ port
unfolding strip_prefix
strip_prefix-port_text none fits = refl
strip_prefix-port_text (some p) fits = parse_unsigned-decimal u16_max p fits

no_bracket :
    (host : Text) (port : Option ℕ)
    → starts_with host (b'[' ∷ []) ≡ false
    → strip_prefix (host ++ port_text port) (b'[' ∷ []) ≡ none
unfolding strip_prefix starts_with
no_bracket [] none h = refl
no_bracket [] (some p) h = refl
no_bracket (c ∷ host) port h = elim (Bool-cases (c == b'[')) [
  | inl opening ↦ ground (arith, h, opening)
  | inr other ↦ rw other
]

host_and_port-port_text :
    (host : Text) (port : Option ℕ)
    → FitsU16 port
    → contains_char host b':' ≡ false
    → host_and_port (host ++ port_text port) (rsplit_once b':' (host ++ port_text port))
      ≡ (host, port)
host_and_port-port_text host none fits name = rw (append-nil host, rsplit_once-none b':' host name)
host_and_port-port_text host (some p) fits name = rw (
  rsplit_once-append b':' host (decimal p) (digits_no_colon (decimal p) (decimal-IsDigit p)),
  host_and_port,
  name,
  parse_unsigned-decimal u16_max p fits,
)

trimmed-host_for_wire :
    (host : Text) (port : Option ℕ)
    → IsHost host
    → FitsU16 port
    → trimmed_host_port
        (host_for_wire host ++ port_text port)
        (strip_prefix (host_for_wire host ++ port_text port) (b'[' ∷ []))
      ≡ (host, port)
unfolding host_for_wire strip_prefix
trimmed-host_for_wire host port is_host fits = elim (Bool-cases (contains_char host b':')) [
  | inl literal ↦ rw (
    literal,
    is_host.no_opening,
    append_assoc host (b']' ∷ []) (port_text port),
    split_once-append b']' host (port_text port) is_host.no_closing,
    strip_prefix-port_text port fits,
  )
  | inr name ↦
      rw (name, no_bracket host port is_host.no_opening)
        (host_and_port-port_text host port fits name)
]

-- A host without white space, closing bracket or opening bracket in front, and a 16-bit port or
-- none: what host_for_wire and the port's text write is what split_host_port splits into the
-- same host and port, for a name and an IPv6 literal alike.
pub split_host_port-host_for_wire :
    (host : Text) (port : Option ℕ)
    → IsHost host
    → FitsU16 port
    → split_host_port (host_for_wire host ++ port_text port) ≡ (host, port)
unfolding split_host_port
split_host_port-host_for_wire host port is_host fits =
    rw
      (trim_id (host_for_wire host ++ port_text port) (
        All-append (λ c. is_whitespace c ≡ false) (host_for_wire host) (port_text port)
          (host_for_wire-NoSpace host is_host.no_space) (port_text-NoSpace port)))
      (trimmed-host_for_wire host port is_host fits)
