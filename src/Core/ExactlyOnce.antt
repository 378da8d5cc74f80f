-- ===== src/Core/ExactlyOnce.antt =====
-- A request is handed to its handler once in the lifetime of its transaction.
use modem2sip.Common.{
  ℕ, ◌+◌, ◌-◌, ◌<◌, ◌≤◌, ◌≡◌, ◌≢◌, refl, sym, ap, ◌∙◌, arith, Bool, true, false, List, [], ◌∷◌,
  Option, none, some, if◌then◌else◌, leb, ltb, All, Bool-cases, inl, inr, length, lt→ltb,
}
use modem2sip.Text.{Bytes, Text}
use modem2sip.Text.Ops.{equal}
use modem2sip.Text.Equal.{equal→≡}
use modem2sip.Text.Table.{lookup, lookup-insert, lookup-insert_other, lookup-keep_values}
use modem2sip.Core.Transactions.{
  ServerTxn, in_progress, completed, started, txn_lifetime, Cache, is_recent, Claim, fresh,
  in_flight, answered, known, claim_entry, claim_txn, keep_provisional, record_answer, gc_cache,
}

-- What happens to the cache: a request arrives, an answer goes out, the receive loop cleans up.
pub data CacheEvent : Type 0 where
  arrives : Text → ℕ → CacheEvent
  answers : Text → ℕ → Bytes → ℕ → CacheEvent
  cleans_up : ℕ → CacheEvent

abbrev pub at : CacheEvent → ℕ
at (arrives key now) = now
at (answers key code bytes now) = now
at (cleans_up now) = now

abbrev pub cache_step : Cache → CacheEvent → Cache
cache_step cache (arrives key now) = (claim_txn cache key now).1
cache_step cache (answers key code bytes now) = record_answer cache key code bytes now
cache_step cache (cleans_up now) = gc_cache cache now

-- What the arrivals under a key are told.
abbrev pub told : Text → Cache → CacheEvent → List Claim → List Claim
told key cache (arrives other now) later =
    if equal other key then (claim_txn cache key now).0 ∷ later else later
told key cache (answers other code bytes now) later = later
told key cache (cleans_up now) later = later

unfoldable pub claims_of : Text → Cache → List CacheEvent → List Claim
claims_of key cache [] = []
claims_of key cache (e ∷ es) = told key cache e (claims_of key (cache_step cache e) es)

-- Between an instant and the end of the lifetime of what was started then.
abbrev pub InLifetime : ℕ → CacheEvent → Type 0
InLifetime since e = (since ≤ at e) × (at e < since + txn_lifetime)

abbrev is_fresh : Claim → Bool
is_fresh fresh = true
is_fresh (in_flight provisional) = false
is_fresh (answered bytes) = false

abbrev pub IsRetransmission : Claim → Type 0
IsRetransmission claim = is_fresh claim ≡ false

-- The cache knows the transaction, started since then.
abbrev pub Known : ℕ → Text → Cache → Type 0
Known since key cache = (txn : ServerTxn) × (lookup key cache ≡ some txn) × (since ≤ started txn)

pub recent :
    (since now : ℕ) (txn : ServerTxn)
    → since ≤ started txn
    → now < since + txn_lifetime
    → is_recent now txn ≡ true
recent since now txn late soon = lt→ltb (now - started txn) txn_lifetime (omega arith)

pub claim_known :
    (cache : Cache) (key : Text) (now : ℕ) (txn : ServerTxn)
    → lookup key cache ≡ some txn
    → is_recent now txn ≡ true
    → claim_txn cache key now ≡ (known txn, cache)
unfolding claim_txn
claim_known cache key now txn found new = rw (found, claim_entry, new)

known-IsRetransmission : (txn : ServerTxn) → IsRetransmission (known txn)
known-IsRetransmission (in_progress since provisional) = refl
known-IsRetransmission (completed answer now) = refl

-- Another key's claim leaves the entry.
claim_entry_other :
    (cache : Cache) (key other : Text) (now : ℕ) (o : Option ServerTxn)
    → equal other key ≡ false
    → lookup key (claim_entry cache other now o).1 ≡ lookup key cache
claim_entry_other cache key other now none differ =
    lookup-insert_other other key (in_progress now none) cache differ
claim_entry_other cache key other now (some txn) differ = elim (Bool-cases (is_recent now txn)) [
  | inl new ↦ rw new
  | inr old ↦ rw old (lookup-insert_other other key (in_progress now none) cache differ)
]

pub claim_other :
    (cache : Cache) (key other : Text) (now : ℕ)
    → equal other key ≡ false
    → lookup key (claim_txn cache other now).1 ≡ lookup key cache
unfolding claim_txn
claim_other cache key other now differ =
    claim_entry_other cache key other now (lookup other cache) differ

keep_provisional_other :
    (cache : Cache) (key other : Text) (bytes : Bytes) (o : Option ServerTxn)
    → equal other key ≡ false
    → lookup key (keep_provisional cache other bytes o) ≡ lookup key cache
keep_provisional_other cache key other bytes none differ = refl
keep_provisional_other cache key other bytes (some (in_progress since provisional)) differ =
    lookup-insert_other other key (in_progress since (some bytes)) cache differ
keep_provisional_other cache key other bytes (some (completed answer now)) differ = refl

pub record_other :
    (cache : Cache) (key other : Text) (code : ℕ) (bytes : Bytes) (now : ℕ)
    → equal other key ≡ false
    → lookup key (record_answer cache other code bytes now) ≡ lookup key cache
unfolding record_answer
record_other cache key other code bytes now differ = elim (Bool-cases (leb 200 code)) [
  | inl final ↦ rw final (lookup-insert_other other key (completed bytes now) cache differ)
  | inr provisional ↦
      rw provisional (keep_provisional_other cache key other bytes (lookup other cache) differ)
]

pub record_final :
    (cache : Cache) (key : Text) (code : ℕ) (bytes : Bytes) (now : ℕ)
    → 200 ≤ code
    → lookup key (record_answer cache key code bytes now) ≡ some (completed bytes now)
unfolding record_answer
record_final cache key code bytes now final =
    let test : leb 200 code ≡ true = ground arith in
    rw test (lookup-insert key (completed bytes now) cache)

pub gc_keeps :
    (cache : Cache) (key : Text) (now : ℕ) (txn : ServerTxn)
    → lookup key cache ≡ some txn
    → is_recent now txn ≡ true
    → lookup key (gc_cache cache now) ≡ some txn
unfolding gc_cache
gc_keeps cache key now txn found new = elim (Bool-cases (ltb 64 (length cache))) [
  | inl many ↦ rw many (lookup-keep_values (is_recent now) key txn cache found new)
  | inr few ↦ rw few found
]

-- An answer under the key itself.
keep_provisional-Known :
    (since : ℕ) (cache : Cache) (key : Text) (bytes : Bytes) (txn : ServerTxn)
    → lookup key cache ≡ some txn
    → since ≤ started txn
    → Known since key (keep_provisional cache key bytes (some txn))
keep_provisional-Known since cache key bytes (in_progress first provisional) found late =
    (in_progress first (some bytes), lookup-insert key (in_progress first (some bytes)) cache, late)
keep_provisional-Known since cache key bytes (completed answer now) found late =
    (completed answer now, found, late)

pub record-Known :
    (since : ℕ) (cache : Cache) (key : Text) (code : ℕ) (bytes : Bytes) (now : ℕ)
    → Known since key cache
    → since ≤ now
    → Known since key (record_answer cache key code bytes now)
unfolding record_answer
record-Known since cache key code bytes now (txn, found, late) later =
    elim (Bool-cases (leb 200 code)) [
      | inl final ↦
          rw final (completed bytes now, lookup-insert key (completed bytes now) cache, later)
      | inr provisional ↦
          rw (provisional, found) (keep_provisional-Known since cache key bytes txn found late)
    ]

-- An entry that was not touched.
pub same_entry :
    (since : ℕ) (key : Text) (cache after : Cache)
    → lookup key after ≡ lookup key cache
    → Known since key cache
    → Known since key after
same_entry since key cache after same (txn, found, late) = (txn, same ∙ found, late)

step-Known :
    (since : ℕ) (key : Text) (cache : Cache) (e : CacheEvent)
    → InLifetime since e
    → Known since key cache
    → Known since key (cache_step cache e)
step-Known since key cache (arrives other now) (from, to) (txn, found, late) =
    elim (Bool-cases (equal other key)) [
      | inl same ↦
          rw
            (
              equal→≡ other key same,
              cache_step,
              claim_known cache key now txn found (recent since now txn late to),
            )
            (txn, found, late)
      | inr differ ↦
          same_entry since key cache (claim_txn cache other now).1
            (claim_other cache key other now differ) (txn, found, late)
    ]
step-Known since key cache (answers other code bytes now) (from, to) known_txn =
    elim (Bool-cases (equal other key)) [
      | inl same ↦
          rw (equal→≡ other key same) (record-Known since cache key code bytes now known_txn from)
      | inr differ ↦
          same_entry since key cache (record_answer cache other code bytes now)
            (record_other cache key other code bytes now differ) known_txn
    ]
step-Known since key cache (cleans_up now) (from, to) (txn, found, late) =
    (txn, gc_keeps cache key now txn found (recent since now txn late to), late)

told-Known :
    (since : ℕ) (key : Text) (cache : Cache) (e : CacheEvent) (later : List Claim)
    → InLifetime since e
    → Known since key cache
    → All IsRetransmission later
    → All IsRetransmission (told key cache e later)
told-Known since key cache (arrives other now) later (from, to) (txn, found, late) rest =
    elim (Bool-cases (equal other key)) [
      | inl same ↦
          rw (same, claim_known cache key now txn found (recent since now txn late to))
            (known-IsRetransmission txn, rest)
      | inr differ ↦ rw differ rest
    ]
told-Known since key cache (answers other code bytes now) later in_time known_txn rest = rest
told-Known since key cache (cleans_up now) later in_time known_txn rest = rest

claims_of-Known :
    (since : ℕ) (key : Text) (cache : Cache) (es : List CacheEvent)
    → All (InLifetime since) es
    → Known since key cache
    → All IsRetransmission (claims_of key cache es)
unfolding claims_of
claims_of-Known since key cache [] in_time known_txn = tt
claims_of-Known since key cache (e ∷ es) (now, later) known_txn =
    told-Known since key cache e (claims_of key (cache_step cache e) es) now known_txn (
      claims_of-Known since key (cache_step cache e) es later
        (step-Known since key cache e now known_txn))

claim_entry-recent :
    (cache : Cache) (key : Text) (now : ℕ) (txn : ServerTxn)
    → is_recent now txn ≡ true
    → claim_entry cache key now (some txn) ≡ (known txn, cache)
claim_entry-recent cache key now txn young = rw young

known-ne-fresh : (txn : ServerTxn) → known txn ≢ fresh
known-ne-fresh txn same = ground (arith, known-IsRetransmission txn, ap is_fresh same)

pub fresh-Known :
    (cache : Cache) (key : Text) (now : ℕ) (o : Option ServerTxn)
    → (claim_entry cache key now o).0 ≡ fresh
    → Known now key (claim_entry cache key now o).1
fresh-Known cache key now none new =
    (in_progress now none, lookup-insert key (in_progress now none) cache, omega arith)
fresh-Known cache key now (some txn) new = elim (Bool-cases (is_recent now txn)) [
  | inl young ↦ absurd (
      known-ne-fresh txn
        (sym (ap (λ (r : Claim × Cache). r.0) (claim_entry-recent cache key now txn young)) ∙ new))
  | inr old ↦
      rw old (in_progress now none, lookup-insert key (in_progress now none) cache, omega arith)
]

-- After a claim of a key came out fresh, in every later sequence of arrivals (under this key or
-- others), answers and clean-ups within the 32 seconds of the transaction, no arrival under
-- that key comes out fresh again: a retransmitted request is executed once.
pub claim_txn-claims_of :
    (cache : Cache) (key : Text) (now : ℕ) (es : List CacheEvent)
    → (claim_txn cache key now).0 ≡ fresh
    → All (InLifetime now) es
    → All IsRetransmission (claims_of key (claim_txn cache key now).1 es)
unfolding claim_txn
claim_txn-claims_of cache key now es new in_time =
    claims_of-Known now key (claim_txn cache key now).1 es in_time
      (fresh-Known cache key now (lookup key cache) new)
