-- ===== src/Wsp/Reader.antt =====
-- `Reader`: a position in a slice of bytes. A method returns its result and the reader after it,
-- also where the result is `None`. Slices stand for their bytes; Wsp/Bounds shows that no slice
-- index is out of range.
use modem2sip.Common.{
  ℕ, zero, suc, ◌+◌, ◌-◌, ◌*◌, ◌/◌, ◌%◌, ◌^◌, min, Bool, false, not, [], ◌∷◌, Option, none, some,
  length, get_elem?, take, drop, if◌then◌else◌, ltb, leb, ◌==◌,
}
use modem2sip.Text.{Bytes, Text, from_utf8_lossy}
use modem2sip.Wsp.Env.{Env}

pub record Reader : Type 0 where
  pub buf : Bytes
  pub pos : ℕ

-- A method of `Reader` that returns an `Option`.
abbrev pub Read {ℓ} : Type ℓ → Type ℓ
Read A = Reader → Option A × Reader

-- `?` and early return: the reader stays where the failing call left it.
abbrev pub then_read {ℓ κ} :
    {A : Type ℓ} {B : Type κ} → (A → Read B) → Option A × Reader → Option B × Reader
then_read f (none, r) = (none, r)
then_read f (some a, r) = f a r

infixl 5 ◌>>=◌ ◌>>◌
abbrev pub ◌>>=◌ {ℓ κ} : {A : Type ℓ} {B : Type κ} → Read A → (A → Read B) → Read B
◌>>=◌ m f r = then_read f (m r)

abbrev pub ◌>>◌ {ℓ} : {B : Type ℓ} → Read (Unit {0}) → Read B → Read B
m >> k = m >>= λ _. k

abbrev pub return {ℓ} : {A : Type ℓ} → A → Read A
return a r = (some a, r)

abbrev pub fail {ℓ} : {A : Type ℓ} → Read A
fail r = (none, r)

-- `Option::map` and `unwrap_or` on a method's result.
abbrev pub map_or {ℓ κ} : {A : Type ℓ} {B : Type κ} → (A → B) → B → Option A → B
map_or f d none = d
map_or f d (some a) = f a

-- `&data[a..b]`.
abbrev pub slice : Bytes → ℕ → ℕ → Bytes
slice xs a b = take (b - a) (drop a xs)

-- Bit 7, `b & 0x80 != 0`; the low bits `b & 0x7F`; and `b | 0x80`.
abbrev pub high_bit : ℕ → Bool
high_bit b = b / 128 % 2 == 1

abbrev pub low_bits : ℕ → ℕ
low_bits b = b % 128

abbrev pub with_high_bit : ℕ → ℕ
with_high_bit b = if high_bit b then b else b + 128

abbrev pub new : Bytes → Reader
new xs = record { buf = xs; pos = 0 }

-- `self.pos += n`.
abbrev pub advance : ℕ → Reader → Reader
advance n r = record r { pos = r.pos + n }

abbrev pub bump : ℕ → Read (Unit {0})
bump n r = (some tt, advance n r)

unfoldable pub remaining : Reader → ℕ
remaining r = length r.buf - r.pos

unfoldable pub eof : Reader → Bool
eof r = leb (length r.buf) r.pos

unfoldable pub peek : Reader → Option ℕ
peek r = get_elem? r.buf r.pos

abbrev pub take_byte : Reader → Option ℕ → Option ℕ × Reader
take_byte r none = (none, r)
take_byte r (some b) = (some b, advance 1 r)

unfoldable pub u8 : Read ℕ
u8 r = take_byte r (get_elem? r.buf r.pos)

unfoldable pub take_bytes : ℕ → Read Bytes
take_bytes n r =
    if ltb (remaining r) n then (none, r) else (some (slice r.buf r.pos (r.pos + n)), advance n r)

-- The loop of `uintvar`, with the rounds that are left.
unfoldable pub uintvar_loop : ℕ → ℕ → Read ℕ
uintvar_loop zero value = fail
uintvar_loop (suc k) value = do
  b ← u8
  let value' = value * 128 % 2 ^ 64 + low_bits b
  if not (high_bit b) then return value' else uintvar_loop k value'

unfoldable pub uintvar : Read ℕ
uintvar = uintvar_loop 8 0

-- The loop of `text_string` at `pos`; the list is what the buffer holds from there.
unfoldable pub text_loop : Bytes → ℕ → ℕ → Bytes → Option Text × ℕ
text_loop xs start pos [] =
    if ltb start (length xs)
    then (some (from_utf8_lossy (drop start xs)), length xs)
    else (none, pos)
text_loop xs start pos (b ∷ bs) =
    if b == 0
    then (some (from_utf8_lossy (slice xs start pos)), pos + 1)
    else text_loop xs start (pos + 1) bs

abbrev pub is_quote : Option ℕ → Bool
is_quote none = false
is_quote (some b) = b == 0x7F

abbrev pub text_from : Reader → Option Text × Reader
text_from r =
    let (t, pos) = text_loop r.buf r.pos r.pos (drop r.pos r.buf) in (t, record r { pos = pos })

unfoldable pub text_string : Read Text
text_string r = text_from (if is_quote (peek r) then advance 1 r else r)

-- `if let Some(b) = self.peek()` and `self.peek()?`.
abbrev pub peeked : Read ℕ
peeked r = (peek r, r)

-- A method that returns no `Option`.
abbrev pub total {ℓ} : {A : Type ℓ} → (Reader → A × Reader) → Read A
total f r = let (a, r') = f r in (some a, r')

-- `m.map(f).unwrap_or(d)` on a method's result.
abbrev pub or_else {ℓ} : {A : Type ℓ} → A → Option A × Reader → Option A × Reader
or_else d (none, r) = (some d, r)
or_else d (some a, r) = (some a, r)

abbrev pub with_default {ℓ} : {A : Type ℓ} → A → Read A → Read A
with_default d m r = or_else d (m r)

-- `Reader::new(&self.data[self.pos..self.pos + len])`, with the position set behind it.
abbrev pub inner_of : ℕ → Reader → Reader
inner_of len r = new (slice r.buf r.pos (r.pos + len))

module _ (env : Env) where
  unfoldable pub value_length : Read ℕ
  value_length = do
    b ← peeked
    if leb b 30
        then (do bump 1; return b)
        else if b == 0x1F
        then (do bump 1; v ← uintvar; return (min v env.usize_max))
        else fail

  unfoldable pub bounded_value_length : Read ℕ
  bounded_value_length = do len ← value_length; λ r. (some (min len (remaining r)), r)
