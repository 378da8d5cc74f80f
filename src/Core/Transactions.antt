-- ===== src/Core/Transactions.antt =====
-- Server transactions: which requests are new, and what a retransmission gets.
use modem2sip.Common.{ℕ, ◌-◌, Bool, ◌∷◌, ◌++◌, Option, none, some, if◌then◌else◌, leb, ltb, length}
use modem2sip.Text.{Bytes, Text}
use modem2sip.Text.Ops.{decimal}
use modem2sip.Text.Table.{Table, lookup, insert, keep_values}
use modem2sip.Registrar.{from_secs}
use modem2sip.Sip.Method.{as_str}
use modem2sip.Sip.Message.{Request}
use modem2sip.Sip.Via.{and_then, top_via, branch, call_id, cseq}

-- Instants count nanoseconds, as in the registrar.
pub data ServerTxn : Type 0 where
  in_progress : (since : ℕ) (provisional : Option Bytes) → ServerTxn
  completed : (answer : Bytes) (at : ℕ) → ServerTxn

abbrev pub started : ServerTxn → ℕ
started (in_progress since provisional) = since
started (completed answer at) = at

abbrev pub txn_lifetime : ℕ
txn_lifetime = from_secs 32

abbrev pub Cache : Type 0
Cache = Table ServerTxn

-- `now.duration_since(txn.started()) < TXN_LIFETIME`; the difference stops at 0, as on ℕ.
abbrev pub is_recent : ℕ → ServerTxn → Bool
is_recent now txn = ltb (now - started txn) txn_lifetime

pub data Claim : Type 0 where
  fresh : Claim
  in_flight : Option Bytes → Claim
  answered : Bytes → Claim

abbrev pub known : ServerTxn → Claim
known (in_progress since provisional) = in_flight provisional
known (completed answer at) = answered answer

abbrev pub claim_entry : Cache → Text → ℕ → Option ServerTxn → Claim × Cache
claim_entry cache key now none = (fresh, insert key (in_progress now none) cache)
claim_entry cache key now (some txn) =
    if is_recent now txn
    then (known txn, cache)
    else (fresh, insert key (in_progress now none) cache)

unfoldable pub claim_txn : Cache → Text → ℕ → Claim × Cache
claim_txn cache key now = claim_entry cache key now (lookup key cache)

-- The part of `respond` that records the answer: a final one completes the transaction, a
-- provisional one is kept while it is in progress.
abbrev pub keep_provisional : Cache → Text → Bytes → Option ServerTxn → Cache
keep_provisional cache key bytes (some (in_progress since provisional)) =
    insert key (in_progress since (some bytes)) cache
keep_provisional cache key bytes _ = cache

unfoldable pub record_answer : Cache → Text → ℕ → Bytes → ℕ → Cache
record_answer cache key code bytes now =
    if leb 200 code
    then insert key (completed bytes now) cache
    else keep_provisional cache key bytes (lookup key cache)

-- The part of `gc` on the cache.
unfoldable pub gc_cache : Cache → ℕ → Cache
gc_cache cache now = if ltb 64 (length cache) then keep_values (is_recent now) cache else cache

abbrev pub joined_by_bar : Text → Text → Text
joined_by_bar a b = a ++ (b'|' ∷ b)

unfoldable pub dialog_key : Request → Option Text
dialog_key req = and_then (call_id req.headers) (λ id.
    and_then (cseq req.headers)
      (λ c. let (num, method) = c in some (joined_by_bar id (decimal num))))

unfoldable pub txn_key : Request → Option Text
txn_key req = and_then (and_then (top_via req.headers) branch) (λ b.
    and_then (cseq req.headers) (λ c.
      let (num, method) = c in
      some (joined_by_bar b (joined_by_bar (decimal num) (as_str req.method)))))
