-- ===== src/Core/Twice.antt =====
-- The second copy of a request.
use modem2sip.Common.{◌+◌, ◌<◌, ◌≤◌, ◌≡◌, refl, ap, ◌∙◌, true, false, List, [], ◌∷◌, none, some}
use modem2sip.Text.{Text}
use modem2sip.Text.Table.{lookup}
use modem2sip.Sip.Method.{ack, same_method}
use modem2sip.Sip.Message.{Request}
use modem2sip.Core.Addresses.{source_allowed}
use modem2sip.Core.Transactions.{
  ServerTxn, in_progress, completed, txn_lifetime, is_recent, Claim, fresh, in_flight, answered,
  known, Cache, claim_txn, txn_key,
}
use modem2sip.Core.State.{SocketAddr, Env, Config, Core, Readings, Effect, sends}
use modem2sip.Core.Requests.{claimed_dispatch, on_request}
use modem2sip.Core.ExactlyOnce.{Known, recent, claim_known, fresh-Known}
use modem2sip.Core.Handled.{KnownAfter, dispatch-Known}

-- What a retransmission is sent.
abbrev pub replayed : ServerTxn → SocketAddr → List Effect
replayed (completed bytes now) src = sends bytes src ∷ []
replayed (in_progress since none) src = []
replayed (in_progress since (some bytes)) src = sends bytes src ∷ []

module _ (env : Env) (cfg : Config) where
  abbrev pub Allowed : SocketAddr → Type 0
  Allowed src = source_allowed env.parse_ip cfg.allow src.ip ≡ true

  claimed_dispatch-known :
      (core : Core) (req : Request) (src : SocketAddr) (readings : Readings) (txn : ServerTxn)
      → claimed_dispatch env cfg core req src readings (known txn, core.server_cache)
        ≡ (core, replayed txn src)
  claimed_dispatch-known core req src readings (in_progress since none) = refl
  claimed_dispatch-known core req src readings (in_progress since (some bytes)) = refl
  claimed_dispatch-known core req src readings (completed bytes now) = refl

  on_request-keyed :
      (core : Core) (req : Request) (src : SocketAddr) (readings : Readings) (key : Text)
      → Allowed src
      → same_method req.method ack ≡ false
      → txn_key req ≡ some key
      → on_request env cfg core req src readings
        ≡ claimed_dispatch env cfg core req src readings
            (claim_txn core.server_cache key readings.claimed)
  unfolding on_request
  on_request-keyed core req src readings key allowed other found = rw (allowed, other, found)

  -- A retransmission of a known request changes nothing and hands nothing over.
  pub on_request-known :
      (core : Core) (req : Request) (src : SocketAddr) (readings : Readings) (key : Text)
      (txn : ServerTxn)
      → Allowed src
      → same_method req.method ack ≡ false
      → txn_key req ≡ some key
      → lookup key core.server_cache ≡ some txn
      → is_recent readings.claimed txn ≡ true
      → on_request env cfg core req src readings ≡ (core, replayed txn src)
  on_request-known core req src readings key txn allowed other found cached new =
      on_request-keyed core req src readings key allowed other found
      ∙ ap (claimed_dispatch env cfg core req src readings)
          (claim_known core.server_cache key readings.claimed txn cached new)
      ∙ claimed_dispatch-known core req src readings txn

  claimed_dispatch-Known :
      (core : Core) (req : Request) (src : SocketAddr) (readings : Readings) (key : Text)
      (claim : Claim × Cache)
      → readings.claimed ≤ readings.recorded
      → Known readings.claimed key claim.1
      → KnownAfter readings.claimed key (claimed_dispatch env cfg core req src readings claim)
  claimed_dispatch-Known core req src readings key (fresh, cache) later k =
      dispatch-Known env cfg readings.claimed key req.method (record core { server_cache = cache })
        req src readings later k
  claimed_dispatch-Known core req src readings key (in_flight provisional, cache) later k = k
  claimed_dispatch-Known core req src readings key (answered bytes, cache) later k = k

  pub on_request-Known :
      (core : Core) (req : Request) (src : SocketAddr) (readings : Readings) (key : Text)
      → Allowed src
      → same_method req.method ack ≡ false
      → txn_key req ≡ some key
      → (claim_txn core.server_cache key readings.claimed).0 ≡ fresh
      → readings.claimed ≤ readings.recorded
      → KnownAfter readings.claimed key (on_request env cfg core req src readings)
  unfolding claim_txn
  on_request-Known core req src readings key allowed other found new later =
      rw (on_request-keyed core req src readings key allowed other found) (
        claimed_dispatch-Known core req src readings key
          (claim_txn core.server_cache key readings.claimed) later
          (fresh-Known core.server_cache key readings.claimed (lookup key core.server_cache) new))

  -- When a request other than ACK, from an allowed source, is handled as a fresh transaction,
  -- and the same request arrives again, from any allowed source, before 32 seconds have passed
  -- since it was claimed, then the cache that the first run left has an entry under the
  -- request's key, and on_request leaves the core exactly as it is and has no effect but a
  -- datagram to the source with the bytes of that entry, the final answer or else the
  -- provisional one, if it has any: no handler runs, nothing is handed to the gateway, no
  -- registration or nonce changes. The answer is taken to be recorded no earlier than the claim.
  pub on_request-twice :
      (core : Core) (req : Request) (src again_from : SocketAddr) (first second : Readings)
      (key : Text)
      → Allowed src
      → Allowed again_from
      → same_method req.method ack ≡ false
      → txn_key req ≡ some key
      → (claim_txn core.server_cache key first.claimed).0 ≡ fresh
      → first.claimed ≤ first.recorded
      → second.claimed < first.claimed + txn_lifetime
      → (txn : ServerTxn) × (lookup key (on_request env cfg core req src first).0.server_cache
          ≡ some txn)
        × (on_request env cfg (on_request env cfg core req src first).0 req again_from second
            ≡ ((on_request env cfg core req src first).0, replayed txn again_from))
  on_request-twice core req src again_from first second key allowed allowed_again other found new
        later soon =
      let (txn, cached, late) =
        on_request-Known core req src first key allowed other found new later in
      (
        txn,
        cached,
        on_request-known (on_request env cfg core req src first).0 req again_from second key txn
            allowed_again other found cached (recent first.claimed second.claimed txn late soon),
      )
