-- ===== src/Media/PortRange.antt =====
-- Which ports `bind_port` hands out.
use modem2sip.Common.{
  ℕ, zero, suc, ◌+◌, ◌-◌, ◌*◌, ◌%◌, ◌<◌, ◌≤◌, ◌≡◌, ◌≢◌, refl, ap, ◌∙◌, arith, true, false, Option,
  none, some, if◌then◌else◌, leb, ltb, ◌&&◌, Bool-cases, inl, inr,
}
use modem2sip.Media.Ports.{
  Bound, bound, in_use, refused, PortResult, port, no_pair, no_address, all_in_use, even_floor,
  first_port, last_port, slots, after_bind, walk, bind_between, bind_port,
}

module _ (bind : ℕ → Bound) where
  -- A port that the system gave, in a pair between the two bounds.
  abbrev pub IsPair : ℕ → ℕ → PortResult → Type 0
  IsPair low high (port p) = (p % 2 ≡ 0) × (low ≤ p) × (p + 1 ≤ high) × (bind p ≡ bound)
  IsPair low high no_pair = Unit
  IsPair low high no_address = Unit
  IsPair low high all_in_use = Unit

  module _ (low high first last : ℕ) (from : low ≤ first) (to : last + 1 ≤ high) where
    after_bind-IsPair :
        (p : ℕ) (b : Bound) (rest : PortResult)
        → bind p ≡ b
        → p % 2 ≡ 0
        → first ≤ p
        → p ≤ last
        → IsPair low high rest
        → IsPair low high (after_bind bind p b rest)
    after_bind-IsPair p bound rest e even above below h =
        (even, omega (arith, from), omega (arith, to), e)
    after_bind-IsPair p in_use rest e even above below h = h
    after_bind-IsPair p refused rest e even above below h = tt

    walk-IsPair :
        (rounds p : ℕ)
        → first % 2 ≡ 0
        → last % 2 ≡ 0
        → first ≤ last
        → p % 2 ≡ 0
        → first ≤ p
        → p ≤ last
        → IsPair low high (walk bind first last rounds p)
    unfolding walk
    walk-IsPair zero p even_first even_last ordered even above below = tt
    walk-IsPair (suc rounds) p even_first even_last ordered even above below =
        let rest : IsPair low high
            (walk bind first last rounds (if leb last p then first else p + 2)) =
          elim (Bool-cases (leb last p)) [
            | inl wraps ↦ rw wraps (
                walk-IsPair rounds first even_first even_last ordered even_first (omega arith)
                  ordered)
            | inr goes ↦
                let room : p < last = ground (arith, goes) in
                rw goes (
                  walk-IsPair rounds (p + 2) even_first even_last ordered (omega arith)
                    (omega arith) (omega arith))
          ] in
        after_bind-IsPair p (bind p) _ refl even above below rest

  -- The last port is even and leaves room for its partner.
  last_port-fits :
      (first high last : ℕ)
      → last_port first high ≡ some last
      → first % 2 ≡ 0
      → (last % 2 ≡ 0) × (first ≤ last) × (last + 1 ≤ high)
  last_port-fits first high last e even = elim (Bool-cases (ltb 0 high && leb first (high - 1))) [
    | inl room ↦
        let same : even_floor (high - 1) ≡ last = ap (unwrap first) (taken room ∙ e) in
        let below : first ≤ high - 1 = ground (arith, room) in
        let some_room : 0 < high = ground (arith, room) in
        (omega (arith, same), omega (arith, same, below, even), omega (arith, same, some_room))
    | inr narrow ↦ absurd (none-ne-some (dropped narrow ∙ e))
  ]
    where
      unwrap : ℕ → Option ℕ → ℕ
      unwrap n none = n
      unwrap n (some m) = m

      taken :
          (ltb 0 high && leb first (high - 1)) ≡ true
          → some (even_floor (high - 1)) ≡ last_port first high
      taken room = rw room

      dropped : (ltb 0 high && leb first (high - 1)) ≡ false → none ≡ last_port first high
      dropped narrow = rw narrow

      none-ne-some : none ≢ some last
      none-ne-some same = ground (arith, same)

  bind_between-IsPair :
      (low high : ℕ) (o : Option ℕ) (slot : ℕ → ℕ)
      → low < 65535
      → high ≤ 65535
      → last_port (first_port low) high ≡ o
      → ((n : ℕ) → 0 < n → slot n < n)
      → IsPair low high (bind_between bind (first_port low) o slot)
  bind_between-IsPair low high none slot small fits e random = tt
  bind_between-IsPair low high (some last) slot small fits e random =
      let even : first_port low % 2 ≡ 0 = omega arith in
      let (even_last, ordered, room) = last_port-fits (first_port low) high last e even in
      let chosen = random (slots (first_port low) last) (omega arith) in
      walk-IsPair low high (first_port low) last (omega (arith, small)) room
        (slots (first_port low) last) (first_port low + 2 * slot (slots (first_port low) last)) even
        even_last ordered (omega (arith, even)) (omega arith)
        (omega (arith, chosen, ordered, even, even_last))

  -- For a range of ports that starts below 65535 and ends at most there, and a random generator
  -- that keeps to its range, a port that bind_port returns was bound by the system, is even,
  -- and lies in the range together with the odd port behind it.
  pub bind_port-IsPair :
      (low high : ℕ) (slot : ℕ → ℕ)
      → low < 65535
      → high ≤ 65535
      → ((n : ℕ) → 0 < n → slot n < n)
      → IsPair low high (bind_port bind low high slot)
  unfolding bind_port
  bind_port-IsPair low high slot small fits random =
      bind_between-IsPair low high (last_port (first_port low) high) slot small fits refl random
