-- ===== src/Media/Debounce.antt =====
-- A digit that is held is reported once.
use modem2sip.Common.{
  ℕ, zero, suc, ◌≡◌, refl, ap, ◌∙◌, arith, true, false, List, [], ◌∷◌, Option, none, some,
  if◌then◌else◌, ◌==◌, leb, Bool-cases, inl, inr,
}
use modem2sip.Media.Detector.{Detector, silent, saturating_suc, report, detect}

-- What is reported over frames in which no tone of our own is played.
abbrev cons_report : Option ℕ → List ℕ → List ℕ
cons_report none ds = ds
cons_report (some d) ds = d ∷ ds

unfoldable pub reports : Detector → List (Option ℕ) → List ℕ
reports s [] = []
reports s (hit ∷ hits) =
    let (after, heard) = detect s false hit in cons_report heard (reports after hits)

-- A digit in so many frames.
abbrev pub held : ℕ → ℕ → List (Option ℕ)
held zero d = []
held (suc n) d = some d ∷ held n d

reports-step :
    (s after : Detector) (hit heard : Option ℕ) (hits : List (Option ℕ))
    → detect s false hit ≡ (after, heard)
    → reports s (hit ∷ hits) ≡ cons_report heard (reports after hits)
unfolding reports
reports-step s after hit heard hits e = rw e

-- Listening to a digit, after so many frames.
abbrev hearing : ℕ → ℕ → Option ℕ → Detector
hearing d streak reported = record {
  candidate = some d;
  streak = streak;
  reported = reported;
  gap = 0;
  guard = 0;
}

detect-again :
    (d streak : ℕ) (reported : Option ℕ)
    → detect (hearing d streak reported) false (some d)
      ≡ report (hearing d (saturating_suc streak) reported) d
unfolding detect
detect-again d streak reported = let same : (d == d) ≡ true = ground arith in rw same

detect-reported :
    (d streak : ℕ)
    → detect (hearing d streak (some d)) false (some d)
      ≡ (hearing d (saturating_suc streak) (some d), none)
detect-reported d streak =
    let same : (d == d) ≡ true = ground arith in
    detect-again d streak (some d) ∙ elim (Bool-cases (leb 3 (saturating_suc streak))) [
      | inl long ↦ rw (long, same)
      | inr short ↦ rw short
    ]

-- With the digit on report already.
reports-reported : (n d streak : ℕ) → reports (hearing d streak (some d)) (held n d) ≡ []
unfolding reports
reports-reported zero d streak = refl
reports-reported (suc n) d streak =
    reports-step (hearing d streak (some d)) (hearing d (saturating_suc streak) (some d)) (some d)
      none (held n d) (detect-reported d streak)
    ∙ reports-reported n d (saturating_suc streak)

-- The first two frames.
reports-first :
    (d : ℕ) (hits : List (Option ℕ))
    → reports silent (some d ∷ hits) ≡ reports (hearing d 1 none) hits
unfolding detect
reports-first d hits = reports-step silent (hearing d 1 none) (some d) none hits refl

reports-second :
    (d : ℕ) (hits : List (Option ℕ))
    → reports (hearing d 1 none) (some d ∷ hits) ≡ reports (hearing d 2 none) hits
reports-second d hits =
    reports-step (hearing d 1 none) (hearing d 2 none) (some d) none hits (detect-again d 1 none)

-- A digit that is detected in consecutive frames, from a detector that heard nothing before and
-- with no tone of our own, is reported exactly once when it lasts three frames or more, and not
-- at all when it is shorter.
pub reports-held : (n d : ℕ) → reports silent (held n d) ≡ (if leb 3 n then d ∷ [] else [])
unfolding reports
reports-held zero d = refl
reports-held (suc zero) d = reports-first d []
reports-held (suc (suc zero)) d = reports-first d (some d ∷ []) ∙ reports-second d []
reports-held (suc (suc (suc n))) d =
    reports-first d (some d ∷ some d ∷ held n d)
    ∙ reports-second d (some d ∷ held n d)
    ∙ reports-step (hearing d 2 none) (hearing d 3 (some d)) (some d) (some d) (held n d)
        (detect-again d 2 none)
    ∙ ap (◌∷◌ d) (reports-reported n d 3)
    ∙ (let three : leb 3 (suc (suc (suc n))) ≡ true = ground arith in rw three)
