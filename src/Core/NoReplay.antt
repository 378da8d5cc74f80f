-- ===== src/Core/NoReplay.antt =====
-- A nonce's count that was accepted is not accepted again.
use modem2sip.Common.{
  ℕ, ◌+◌, ◌-◌, ◌<◌, ◌≤◌, ◌≡◌, refl, ◌∙◌, arith, Bool, true, false, List, [], ◌∷◌, Option, none,
  some, leb, ltb, All, Bool-cases, inl, inr, length, lt→ltb, if◌then◌else◌,
}
use modem2sip.Text.{Text}
use modem2sip.Text.Ops.{equal}
use modem2sip.Text.Equal.{equal→≡}
use modem2sip.Text.Table.{lookup, lookup-insert, lookup-insert_other, lookup-keep_values}
use modem2sip.Registrar.{from_secs}
use modem2sip.Auth.Params.{Credentials}
use modem2sip.Core.Nonces.{Seen, nonce_count, claim_count, claim_nonce, is_remembered, gc_nonces}

pub data NonceEvent : Type 0 where
  claims : Credentials → ℕ → NonceEvent
  forgets : ℕ → NonceEvent

abbrev pub at : NonceEvent → ℕ
at (claims creds now) = now
at (forgets now) = now

abbrev pub nonce_step : Seen → NonceEvent → Seen
nonce_step seen (claims creds now) = (claim_nonce seen creds now).1
nonce_step seen (forgets now) = gc_nonces seen now

-- Is this a claim of the nonce with a count up to that one?
abbrev repeats : Text → ℕ → Credentials → Bool
repeats nonce nc creds = if equal creds.nonce nonce then leb (nonce_count creds) nc else false

abbrev pub claim_result : Text → ℕ → Seen → NonceEvent → List Bool → List Bool
claim_result nonce nc seen (claims creds now) later =
    if repeats nonce nc creds then (claim_nonce seen creds now).0 ∷ later else later
claim_result nonce nc seen (forgets now) later = later

-- The results of those claims, along a run.
unfoldable pub results : Text → ℕ → Seen → List NonceEvent → List Bool
results nonce nc seen [] = []
results nonce nc seen (e ∷ es) =
    claim_result nonce nc seen e (results nonce nc (nonce_step seen e) es)

-- While the nonce is remembered, ten minutes from its first use.
abbrev pub Remembered : ℕ → NonceEvent → Type 0
Remembered first e = at e < first + from_secs 600

module _ (nonce : Text) (nc first : ℕ) where
  -- The count is on record, with the instant of the nonce's first use.
  abbrev pub Used : Seen → Type 0
  Used seen = (highest : ℕ) × (lookup nonce seen ≡ some (highest, first)) × (nc ≤ highest)

  claim_count_other :
      (seen : Seen) (other : Text) (count now : ℕ) (o : Option (ℕ × ℕ))
      → equal other nonce ≡ false
      → lookup nonce (claim_count seen other count now o).1 ≡ lookup nonce seen
  claim_count_other seen other count now none differ =
      lookup-insert_other other nonce (count, now) seen differ
  claim_count_other seen other count now (some (highest, since)) differ =
      elim (Bool-cases (ltb highest count)) [
        | inl more ↦ rw more (lookup-insert_other other nonce (count, since) seen differ)
        | inr less ↦ rw less refl
      ]

  claim_count-Used :
      (seen : Seen) (count now highest : ℕ)
      → lookup nonce seen ≡ some (highest, first)
      → nc ≤ highest
      → Used (claim_count seen nonce count now (some (highest, first))).1
  claim_count-Used seen count now highest found le = elim (Bool-cases (ltb highest count)) [
    | inl more ↦ rw more (count, lookup-insert nonce (count, first) seen, ground arith)
    | inr less ↦ rw less (highest, found, le)
  ]

  claim_same-Used :
      (seen : Seen) (other : Text) (count now : ℕ)
      → other ≡ nonce
      → Used seen
      → Used (claim_count seen other count now (lookup other seen)).1
  claim_same-Used seen other count now same (highest, found, le) =
      rw (same, found) (claim_count-Used seen count now highest found le)

  step-Used :
      (seen : Seen) (e : NonceEvent) → Remembered first e → Used seen → Used (nonce_step seen e)
  unfolding claim_nonce gc_nonces
  step-Used seen (claims creds now) in_time (highest, found, le) =
      elim (Bool-cases (equal creds.nonce nonce)) [
        | inl same ↦
            claim_same-Used seen creds.nonce (nonce_count creds) now
              (equal→≡ creds.nonce nonce same) (highest, found, le)
        | inr differ ↦ (
          highest,
          claim_count_other seen creds.nonce (nonce_count creds) now (lookup creds.nonce seen)
                differ
              ∙ found,
          le,
        )
      ]
  step-Used seen (forgets now) in_time (highest, found, le) =
      elim (Bool-cases (ltb 64 (length seen))) [
        | inl many ↦
            let stays : is_remembered now (highest, first) ≡ true =
              lt→ltb (now - first) (from_secs 600) (omega arith) in
            rw many (
              highest,
              lookup-keep_values (is_remembered now) nonce (highest, first) seen found stays,
              le,
            )
        | inr few ↦ rw few (highest, found, le)
      ]

  refused :
      (seen : Seen) (creds : Credentials) (now : ℕ)
      → repeats nonce nc creds ≡ true
      → Used seen
      → (claim_nonce seen creds now).0 ≡ false
  unfolding claim_nonce
  refused seen creds now again (highest, found, le) =
      let same : equal creds.nonce nonce ≡ true = ground (arith, again) in
      let no_more : ltb highest (nonce_count creds) ≡ false = ground (arith, again, le) in
      rw (equal→≡ creds.nonce nonce same, found, claim_count, no_more)

  claim_result-Used :
      (seen : Seen) (e : NonceEvent) (later : List Bool)
      → Used seen
      → All (λ b. b ≡ false) later
      → All (λ b. b ≡ false) (claim_result nonce nc seen e later)
  claim_result-Used seen (claims creds now) later used rest =
      elim (Bool-cases (repeats nonce nc creds)) [
        | inl again ↦ rw again (refused seen creds now again used, rest)
        | inr other ↦ rw other rest
      ]
  claim_result-Used seen (forgets now) later used rest = rest

  results-Used :
      (seen : Seen) (es : List NonceEvent)
      → All (Remembered first) es
      → Used seen
      → All (λ b. b ≡ false) (results nonce nc seen es)
  unfolding results
  results-Used seen [] in_time used = tt
  results-Used seen (e ∷ es) in_time used =
      claim_result-Used seen e (results nonce nc (nonce_step seen e) es) used
        (results-Used (nonce_step seen e) es (in_time.1) (step-Used seen e (in_time.0) used))

-- When the nonce of a claim was used first.
abbrev pub first_use : ℕ → Option (ℕ × ℕ) → ℕ
first_use now none = now
first_use now (some (highest, since)) = since

accepted-Used :
    (seen : Seen) (nonce : Text) (nc now : ℕ) (o : Option (ℕ × ℕ))
    → lookup nonce seen ≡ o
    → (claim_count seen nonce nc now o).0 ≡ true
    → Used nonce nc (first_use now o) (claim_count seen nonce nc now o).1
accepted-Used seen nonce nc now none known accepted =
    (nc, lookup-insert nonce (nc, now) seen, omega arith)
accepted-Used seen nonce nc now (some (highest, since)) known accepted =
    elim (Bool-cases (ltb highest nc)) [
      | inl more ↦ rw more (nc, lookup-insert nonce (nc, since) seen, omega arith)
      | inr less ↦ ground (arith, less, accepted)
    ]

-- After claim_nonce accepted some credentials, in every later sequence of claims and clean-ups
-- within ten minutes of the nonce's first use, no claim of that nonce with the same or a lower
-- count is accepted.
pub claim_nonce-results :
    (seen : Seen) (creds : Credentials) (now : ℕ) (es : List NonceEvent)
    → (claim_nonce seen creds now).0 ≡ true
    → All (Remembered (first_use now (lookup creds.nonce seen))) es
    → All
        (λ accepted. accepted ≡ false)
        (results creds.nonce (nonce_count creds) (claim_nonce seen creds now).1 es)
unfolding claim_nonce
claim_nonce-results seen creds now es accepted in_time =
    results-Used creds.nonce (nonce_count creds) (first_use now (lookup creds.nonce seen))
      (claim_nonce seen creds now).1 es in_time
      (accepted-Used seen creds.nonce (nonce_count creds) now (lookup creds.nonce seen) refl
        accepted)
