-- ===== src/Core/Schedule.antt =====
-- The instants at which a datagram is sent again, and how the loop ends.
use modem2sip.Common.{
  ℕ, zero, suc, ◌+◌, ◌*◌, ◌≤◌, ◌<◌, ◌≡◌, refl, arith, Bool, true, false, List, [], ◌∷◌, ltb, min,
  All, Bool-cases, inl, inr,
}
use modem2sip.Core.Timers.{
  Ending, stopped_by_flag, send_failed, gave_up, unfinished, retransmit_from,
}

module _ (flag : ℕ → Bool) (goes_out : ℕ → Bool) where
  -- RFC 3261's back-off for UDP from `elapsed` on: the next datagram is one delay later, and the
  -- delay doubles up to four seconds. Behind the last one the loop gives up if 32 seconds are
  -- over, and otherwise at the next instant the flag is set or the socket fails.
  abbrev pub Backoff : ℕ → ℕ → List ℕ → Ending → Type 0
  Backoff delay elapsed [] stopped_by_flag = (elapsed < 32000) × (flag (elapsed + delay) ≡ true)
  Backoff delay elapsed [] send_failed = (elapsed < 32000) × (goes_out (elapsed + delay) ≡ false)
  Backoff delay elapsed [] gave_up = 32000 ≤ elapsed
  Backoff delay elapsed [] unfinished = ⊥
  Backoff delay elapsed (now ∷ later) ending =
      (now ≡ elapsed + delay) × Backoff (min (delay * 2) 4000) now later ending

  -- A datagram is sent in the time of the timer, with the flag not set.
  abbrev pub SentAfter : ℕ → ℕ → Type 0
  SentAfter first now = (first ≤ now) × (now < 36000) × (flag now ≡ false) × (goes_out now ≡ true)

  SentAfter-earlier :
      (a b : ℕ) (instants : List ℕ)
      → a ≤ b
      → All (SentAfter b) instants
      → All (SentAfter a) instants
  SentAfter-earlier a b [] le h = tt
  SentAfter-earlier a b (now ∷ later) le ((first, soon, clear, sent), more) =
      ((omega arith, soon, clear, sent), SentAfter-earlier a b later le more)

  -- For every flag and socket, a delay between half a second and four seconds, and fuel for half
  -- a second in each round until half a second behind the 32, the loop of the retransmission
  -- timer ends by itself: its datagrams follow the back-off, each doubling the delay up to four
  -- seconds, all of them before 36 seconds and at instants at which the flag is not set; and it
  -- stops because the flag is set at the next instant, the socket fails there, or 32 seconds are
  -- over before the next delay begins.
  pub retransmit_from-IsBackoff :
      (fuel delay elapsed : ℕ)
      → 500 ≤ delay
      → delay ≤ 4000
      → (1 ≤ fuel) × (32500 ≤ elapsed + fuel * 500)
      → Backoff delay elapsed
          (retransmit_from flag goes_out fuel delay elapsed).0
          (retransmit_from flag goes_out fuel delay elapsed).1
        × All (SentAfter (elapsed + delay)) (retransmit_from flag goes_out fuel delay elapsed).0
  unfolding retransmit_from
  retransmit_from-IsBackoff zero delay elapsed low high enough = absurd (omega arith)
  retransmit_from-IsBackoff (suc fuel) delay elapsed low high enough =
      elim (Bool-cases (ltb elapsed 32000)) [
        | inr over ↦ rw over (ground (arith, over), tt)
        | inl early ↦ elim (Bool-cases (flag (elapsed + delay))) [
          | inl set ↦ rw (early, set) ((ground (arith, early), set), tt)
          | inr clear ↦ elim (Bool-cases (goes_out (elapsed + delay))) [
            | inr fails ↦ rw (early, clear, fails) ((ground (arith, early), fails), tt)
            | inl sent ↦
                let before : elapsed < 32000 = ground (arith, early) in
                let later =
                  retransmit_from-IsBackoff fuel (min (delay * 2) 4000) (elapsed + delay)
                    (omega arith) (omega arith) (omega arith) in
                rw (early, clear, sent)
                  (
                    (refl, later.0),
                    (
                      (omega arith, omega arith, clear, sent),
                      SentAfter-earlier (elapsed + delay) (elapsed + delay + min (delay * 2) 4000) _
                          (omega arith) later.1,
                    ),
                  )
          ]
        ]
      ]
