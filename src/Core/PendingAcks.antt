-- ===== src/Core/PendingAcks.antt =====
-- 2xx answers that wait for their ACK: `pending_ack`, and the flags that its timers share with it.
use modem2sip.Common.{ℕ, Bool, false, List, ◌∷◌, Option, none, some, if◌then◌else◌, ◌==◌}
use modem2sip.Text.{Text}
use modem2sip.Text.Table.{Table, lookup, insert, delete}

-- An `Arc<AtomicBool>` is a name, which `Arc::ptr_eq` compares; the names of the flags that are set.
pub record Acks : Type 0 where
  pub pending : Table ℕ
  pub set_flags : List ℕ

abbrev pub set_flag : Option ℕ → List ℕ → List ℕ
set_flag none flags = flags
set_flag (some f) flags = f ∷ flags

-- `on_request`, for an ACK.
unfoldable pub acknowledge : Acks → Text → Acks
acknowledge acks key = record {
  pending = delete key acks.pending;
  set_flags = set_flag (lookup key acks.pending) acks.set_flags;
}

-- `retransmit_until_acked`: the new answer's flag takes the place of an older one, which is set.
unfoldable pub await_ack : Acks → Text → ℕ → Acks
await_ack acks key flag = record {
  pending = insert key flag acks.pending;
  set_flags = set_flag (lookup key acks.pending) acks.set_flags;
}

abbrev pub is_own : ℕ → Option ℕ → Bool
is_own flag none = false
is_own flag (some f) = f == flag

-- The end of a timer that gave up: only its own entry goes.
unfoldable pub give_up : Acks → Text → ℕ → Acks
give_up acks key flag =
    if is_own flag (lookup key acks.pending)
    then record acks { pending = delete key acks.pending }
    else acks
