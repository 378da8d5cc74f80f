-- ===== src/Media/Detector.antt =====
-- The part of `sender_loop` that reports the digits heard from the mobile side.
use modem2sip.Common.{
  ℕ, ◌+◌, ◌-◌, Bool, false, ◌&&◌, not, Option, none, some, if◌then◌else◌, ◌==◌, leb, min,
}

-- Digits are characters; the counters are `u8` and stop at 255.
pub record Detector : Type 0 where
  pub candidate : Option ℕ
  pub streak : ℕ
  pub reported : Option ℕ
  pub gap : ℕ
  pub guard : ℕ

abbrev pub silent : Detector
silent = record { candidate = none; streak = 0; reported = none; gap = 0; guard = 0 }

abbrev pub is_digit : Option ℕ → ℕ → Bool
is_digit none d = false
is_digit (some c) d = c == d

abbrev pub saturating_suc : ℕ → ℕ
saturating_suc n = min (n + 1) 255

abbrev pub with_candidate : Detector → ℕ → Detector
with_candidate s d =
    if is_digit s.candidate d
    then record s { gap = 0; streak = saturating_suc s.streak }
    else record s { gap = 0; candidate = some d; streak = 1 }

-- `DTMF_FRAMES` is three.
abbrev pub report : Detector → ℕ → Detector × Option ℕ
report s d =
    if leb 3 s.streak && not (is_digit s.reported d)
    then (record s { reported = some d }, some d)
    else (s, none)

abbrev pub with_gap : Detector → Detector
with_gap s =
    if leb 2 (saturating_suc s.gap)
    then record s { gap = saturating_suc s.gap; candidate = none; streak = 0; reported = none }
    else record s { gap = saturating_suc s.gap }

abbrev pub hear : Detector → Option ℕ → Detector × Option ℕ
hear s (some d) = report (with_candidate s d) d
hear s none = (with_gap s, none)

-- While a tone is played, and for a while after it, nothing is heard.
abbrev pub guarded : Bool → Detector → Detector
guarded tone_pending s = record s { guard = if tone_pending then 25 else s.guard - 1 }

-- A frame: whether a tone of our own is pending, and what the detection finds.
unfoldable pub detect : Detector → Bool → Option ℕ → Detector × Option ℕ
detect s tone_pending hit =
    let g = guarded tone_pending s in
    let heard = hear g hit in if g.guard == 0 then heard else (g, none)
