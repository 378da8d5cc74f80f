-- ===== src/Core/Handled.antt =====
-- A request that was handled is known from then on.
use modem2sip.Common.{
  ℕ, ◌≤◌, Bool, true, false, ◌&&◌, List, [], ◌∷◌, Option, none, some, Bool-cases, inl, inr, within,
}
use modem2sip.Text.{Bytes, Text}
use modem2sip.Text.Ops.{equal}
use modem2sip.Text.Equal.{equal→≡}
use modem2sip.Uri.{NameAddr}
use modem2sip.Sip.Method.{
  Method, invite, ack, bye, cancel, register, options, info, message, notify, subscribe, update,
  prack, refer, same_method,
}
use modem2sip.Sip.Via.{to_header}
use modem2sip.Sip.Message.{Request, Response}
use modem2sip.Core.Transactions.{record_answer, txn_key, dialog_key}
use modem2sip.Core.State.{SocketAddr, Env, Config, Core, Readings, Effect, hands_over}
use modem2sip.Core.Respond.{answer_bytes, recorded_core, awaiting, repeated, sent, respond}
use modem2sip.Core.Authenticate.{verdict, check_auth}
use modem2sip.Core.Requests.{
  register_with, when_accepted, hand_over, handle_register, handle_options, dispatch,
}
use modem2sip.Core.ExactlyOnce.{Known, record-Known, record_other, same_entry}

-- What the core remembers of a request, after its handling.
abbrev pub KnownAfter : ℕ → Text → Core × List Effect → Type 0
KnownAfter since key (core, effects) = Known since key core.server_cache

module _ (env : Env) (cfg : Config) (since : ℕ) (key : Text) where
  recorded-Known :
      (core : Core) (o : Option Text) (code : ℕ) (bytes : Bytes) (readings : Readings)
      → since ≤ readings.recorded
      → Known since key core.server_cache
      → Known since key (recorded_core env cfg core o code bytes readings).server_cache
  recorded-Known core none code bytes readings later k = k
  recorded-Known core (some other) code bytes readings later k =
      elim (Bool-cases (equal other key)) [
        | inl same ↦
            rw (equal→≡ other key same)
              (record-Known since core.server_cache key code bytes readings.recorded k later)
        | inr differ ↦
            same_entry since key core.server_cache
              (record_answer core.server_cache other code bytes readings.recorded)
              (record_other core.server_cache key other code bytes readings.recorded differ) k
      ]

  awaiting-Known :
      (core : Core) (o : Option Text) (bytes : Bytes) (src : SocketAddr) (readings : Readings)
      → Known since key core.server_cache
      → KnownAfter since key (awaiting env cfg core o bytes src readings)
  awaiting-Known core none bytes src readings k = k
  awaiting-Known core (some dialog) bytes src readings k = k

  repeated-Known :
      (core : Core) (req : Request) (code : ℕ) (bytes : Bytes) (src : SocketAddr)
      (readings : Readings)
      → Known since key core.server_cache
      → KnownAfter since key (repeated env cfg core req code bytes src readings)
  repeated-Known core req code bytes src readings k =
      elim (Bool-cases (same_method req.method invite && within 200 299 code)) [
        | inl final ↦ rw final (awaiting-Known core (dialog_key req) bytes src readings k)
        | inr other ↦ rw other k
      ]

  sent-Known :
      (bytes : Bytes) (src : SocketAddr) (p : Core × List Effect)
      → KnownAfter since key p
      → KnownAfter since key (sent env cfg bytes src p)
  sent-Known bytes src (core, effects) k = k

  respond-Known :
      (core : Core) (req : Request) (src : SocketAddr) (resp : Response) (readings : Readings)
      → since ≤ readings.recorded
      → Known since key core.server_cache
      → KnownAfter since key (respond env cfg core req src resp readings)
  unfolding respond
  respond-Known core req src resp readings later k =
      let bytes = answer_bytes env cfg req src resp in
      let after = recorded_core env cfg core (txn_key req) resp.code bytes readings in
      sent-Known bytes src (repeated env cfg after req resp.code bytes src readings) (
        repeated-Known after req resp.code bytes src readings
          (recorded-Known core (txn_key req) resp.code bytes readings later k))

  abbrev KnownCheck : Bool × Core × List Effect → Type 0
  KnownCheck (accepted, core, effects) = Known since key core.server_cache

  check_auth-Known :
      (core : Core) (req : Request) (src : SocketAddr) (readings : Readings)
      → since ≤ readings.recorded
      → Known since key core.server_cache
      → KnownCheck (check_auth env cfg core req src readings)
  unfolding check_auth
  check_auth-Known core req src readings later k =
      elim (Bool-cases (verdict env cfg core.nonce_seen req readings).accepted) [
        | inl accepted ↦ rw accepted k
        | inr rejected ↦ rw rejected (respond-Known _ req src _ readings later k)
      ]

  when_accepted-Known :
      (p : Bool × Core × List Effect) (proceed : Core → Core × List Effect)
      → ((c : Core) → Known since key c.server_cache → KnownAfter since key (proceed c))
      → KnownCheck p
      → KnownAfter since key (when_accepted env cfg p proceed)
  when_accepted-Known (true, core, effects) proceed keeps k = keeps core k
  when_accepted-Known (false, core, effects) proceed keeps k = k

  register_with-Known :
      (core : Core) (req : Request) (src : SocketAddr) (readings : Readings) (to : Option NameAddr)
      → since ≤ readings.recorded
      → Known since key core.server_cache
      → KnownAfter since key (register_with env cfg core req src readings to)
  register_with-Known core req src readings none later k =
      respond-Known _ req src _ readings later k
  register_with-Known core req src readings (some to) later k =
      respond-Known _ req src _ readings later k

  register-Known :
      (core : Core) (req : Request) (src : SocketAddr) (readings : Readings)
      → since ≤ readings.recorded
      → Known since key core.server_cache
      → KnownAfter since key (handle_register env cfg core req src readings)
  unfolding handle_register
  register-Known core req src readings later k =
      when_accepted-Known (check_auth env cfg core req src readings)
        (λ c. register_with env cfg c req src readings (to_header req.headers))
        (λ c kc. register_with-Known c req src readings (to_header req.headers) later kc)
        (check_auth-Known core req src readings later k)

  hand_over-Known :
      (core : Core) (req : Request) (src : SocketAddr) (readings : Readings)
      → since ≤ readings.recorded
      → Known since key core.server_cache
      → KnownAfter since key (hand_over env cfg core req src readings)
  hand_over-Known core req src readings later k =
      when_accepted-Known (check_auth env cfg core req src readings)
        (λ c. (c, hands_over req src ∷ [])) (λ c kc. kc)
        (check_auth-Known core req src readings later k)

  pub dispatch-Known :
      (method : Method) (core : Core) (req : Request) (src : SocketAddr) (readings : Readings)
      → since ≤ readings.recorded
      → Known since key core.server_cache
      → KnownAfter since key (dispatch env cfg method core req src readings)
  unfolding handle_options
  dispatch-Known register core req src readings later k =
      register-Known core req src readings later k
  dispatch-Known options core req src readings later k =
      respond-Known core req src _ readings later k
  dispatch-Known invite core req src readings later k =
      hand_over-Known core req src readings later k
  dispatch-Known bye core req src readings later k = hand_over-Known core req src readings later k
  dispatch-Known cancel core req src readings later k =
      hand_over-Known core req src readings later k
  dispatch-Known info core req src readings later k = hand_over-Known core req src readings later k
  dispatch-Known message core req src readings later k =
      hand_over-Known core req src readings later k
  dispatch-Known ack core req src readings later k = k
  dispatch-Known notify core req src readings later k =
      respond-Known core req src _ readings later k
  dispatch-Known subscribe core req src readings later k =
      respond-Known core req src _ readings later k
  dispatch-Known update core req src readings later k =
      respond-Known core req src _ readings later k
  dispatch-Known prack core req src readings later k = respond-Known core req src _ readings later k
  dispatch-Known refer core req src readings later k = respond-Known core req src _ readings later k
