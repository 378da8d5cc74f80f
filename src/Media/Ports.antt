-- ===== src/Media/Ports.antt =====
-- `bind_port`: the search for an even port whose odd partner is in the range too.
use modem2sip.Common.{
  ℕ, zero, suc, ◌+◌, ◌-◌, ◌*◌, ◌/◌, ◌%◌, Option, none, some, if◌then◌else◌, leb, ltb, min, ◌&&◌,
}

-- What the system says of a port.
pub data Bound : Type 0 where
  bound in_use refused : Bound

pub data PortResult : Type 0 where
  port : ℕ → PortResult
  no_pair no_address all_in_use : PortResult

abbrev pub even_floor : ℕ → ℕ
even_floor n = n - n % 2

-- `min.saturating_add(1) & !1` on `u16`.
abbrev pub first_port : ℕ → ℕ
first_port low = even_floor (min (low + 1) 65535)

-- `max.checked_sub(1)`, when it is not below the first port.
abbrev pub last_port : ℕ → ℕ → Option ℕ
last_port first high =
    if ltb 0 high && leb first (high - 1) then some (even_floor (high - 1)) else none

abbrev pub slots : ℕ → ℕ → ℕ
slots first last = (last - first) / 2 + 1

-- The system's answer for a port, as it is asked.
module _ (bind : ℕ → Bound) where
  abbrev pub after_bind : ℕ → Bound → PortResult → PortResult
  after_bind p bound rest = port p
  after_bind p refused rest = no_address
  after_bind p in_use rest = rest

  -- The loop, with the rounds that are left.
  unfoldable pub walk : ℕ → ℕ → ℕ → ℕ → PortResult
  walk first last zero p = all_in_use
  walk first last (suc rounds) p =
      after_bind p (bind p) (walk first last rounds (if leb last p then first else p + 2))

  -- The slot is what the random generator gives, below the number of slots.
  abbrev pub bind_between : ℕ → Option ℕ → (ℕ → ℕ) → PortResult
  bind_between first none slot = no_pair
  bind_between first (some last) slot =
      walk first last (slots first last) (first + 2 * slot (slots first last))

  unfoldable pub bind_port : ℕ → ℕ → (ℕ → ℕ) → PortResult
  bind_port low high slot = bind_between (first_port low) (last_port (first_port low) high) slot
