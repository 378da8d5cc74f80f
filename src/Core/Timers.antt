-- ===== src/Core/Timers.antt =====
-- The retransmission timers of a request and of a 2xx answer, in milliseconds.
use modem2sip.Common.{ℕ, zero, suc, ◌+◌, ◌*◌, Bool, List, [], ◌∷◌, if◌then◌else◌, ltb, min}

-- How the task ends: stopped by the flag, on an error of the socket, or after its time; `unfinished`
-- is the model's, for a task whose rounds ran out.
pub data Ending : Type 0 where
  stopped_by_flag send_failed gave_up unfinished : Ending

abbrev pub sent_at : ℕ → List ℕ × Ending → List ℕ × Ending
sent_at now (later, ending) = (now ∷ later, ending)

-- The flag as it is read at an instant, and whether a datagram that is sent then goes out.
module _ (flag : ℕ → Bool) (goes_out : ℕ → Bool) where
  -- The loop, from `elapsed` on: the instants of the datagrams. Each round takes a unit of fuel.
  unfoldable pub retransmit_from : ℕ → ℕ → ℕ → List ℕ × Ending
  retransmit_from zero delay elapsed = ([], unfinished)
  retransmit_from (suc fuel) delay elapsed =
      let now = elapsed + delay in
      let rest = retransmit_from fuel (min (delay * 2) 4000) (elapsed + delay) in
      if ltb elapsed 32000
      then if flag now
        then ([], stopped_by_flag)
        else if goes_out now
        then sent_at now rest
        else ([], send_failed)
      else ([], gave_up)

  -- Each round takes half a second at least, so 65 rounds are enough for 32 seconds.
  unfoldable pub retransmit : List ℕ × Ending
  retransmit = retransmit_from 65 500 0
