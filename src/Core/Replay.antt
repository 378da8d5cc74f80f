-- ===== src/Core/Replay.antt =====
-- Once a request is answered, its retransmissions get that answer.
use modem2sip.Common.{
  ℕ, ◌+◌, ◌<◌, ◌≤◌, ◌≡◌, refl, ◌∙◌, arith, false, List, [], ◌∷◌, some, All, Bool-cases, inl, inr,
}
use modem2sip.Text.{Bytes, Text}
use modem2sip.Text.Ops.{equal}
use modem2sip.Text.Equal.{equal→≡}
use modem2sip.Text.Table.{lookup}
use modem2sip.Core.Transactions.{
  completed, txn_lifetime, Cache, Claim, answered, claim_txn, record_answer,
}
use modem2sip.Core.ExactlyOnce.{
  CacheEvent, arrives, answers, cleans_up, cache_step, told, claims_of, InLifetime, recent,
  claim_known, claim_other, record_other, record_final, gc_keeps,
}

-- No further answer to that request.
abbrev pub NoAnswer : Text → CacheEvent → Type 0
NoAnswer key (arrives other now) = Unit
NoAnswer key (answers other code bytes now) = equal other key ≡ false
NoAnswer key (cleans_up now) = Unit

module _ (key : Text) (bytes : Bytes) (since : ℕ) where
  abbrev Answered : Cache → Type 0
  Answered cache = lookup key cache ≡ some (completed bytes since)

  claim_answered :
      (cache : Cache) (now : ℕ)
      → now < since + txn_lifetime
      → Answered cache
      → claim_txn cache key now ≡ (answered bytes, cache)
  claim_answered cache now to done =
      claim_known cache key now (completed bytes since) done
        (recent since now (completed bytes since) (omega arith) to)

  step-Answered :
      (cache : Cache) (e : CacheEvent)
      → InLifetime since e
      → NoAnswer key e
      → Answered cache
      → Answered (cache_step cache e)
  step-Answered cache (arrives other now) (from, to) quiet done =
      elim (Bool-cases (equal other key)) [
        | inl same ↦ rw (equal→≡ other key same, cache_step, claim_answered cache now to done) done
        | inr differ ↦ claim_other cache key other now differ ∙ done
      ]
  step-Answered cache (answers other code text now) in_time quiet done =
      record_other cache key other code text now quiet ∙ done
  step-Answered cache (cleans_up now) (from, to) quiet done =
      gc_keeps cache key now (completed bytes since) done
        (recent since now (completed bytes since) (omega arith) to)

  abbrev IsReplay : Claim → Type 0
  IsReplay claim = claim ≡ answered bytes

  told-Answered :
      (cache : Cache) (e : CacheEvent) (later : List Claim)
      → InLifetime since e
      → Answered cache
      → All IsReplay later
      → All IsReplay (told key cache e later)
  told-Answered cache (arrives other now) later (from, to) done rest =
      elim (Bool-cases (equal other key)) [
        | inl same ↦ rw (same, claim_answered cache now to done) (refl, rest)
        | inr differ ↦ rw differ rest
      ]
  told-Answered cache (answers other code text now) later in_time done rest = rest
  told-Answered cache (cleans_up now) later in_time done rest = rest

  claims_of-Answered :
      (cache : Cache) (es : List CacheEvent)
      → All (InLifetime since) es
      → All (NoAnswer key) es
      → Answered cache
      → All IsReplay (claims_of key cache es)
  unfolding claims_of
  claims_of-Answered cache [] in_time quiet done = tt
  claims_of-Answered cache (e ∷ es) in_time quiet done =
      told-Answered cache e (claims_of key (cache_step cache e) es) (in_time.0) done (
        claims_of-Answered (cache_step cache e) es (in_time.1) (quiet.1)
          (step-Answered cache e (in_time.0) (quiet.0) done))

-- After a final answer was recorded under a key, in every later sequence of arrivals, clean-ups
-- and answers under other keys within 32 seconds, each arrival under that key is told to replay
-- exactly that answer's bytes.
pub record_answer-claims_of :
    (cache : Cache) (key : Text) (code : ℕ) (bytes : Bytes) (now : ℕ) (es : List CacheEvent)
    → 200 ≤ code
    → All (InLifetime now) es
    → All (NoAnswer key) es
    → All
        (λ claim. claim ≡ answered bytes)
        (claims_of key (record_answer cache key code bytes now) es)
record_answer-claims_of cache key code bytes now es final in_time quiet =
    claims_of-Answered key bytes now (record_answer cache key code bytes now) es in_time quiet
      (record_final cache key code bytes now final)
