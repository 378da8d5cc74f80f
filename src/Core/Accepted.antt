-- ===== src/Core/Accepted.antt =====
-- Which requests authentication lets through, and what it uses up.
use modem2sip.Common.{
  ◌≡◌, refl, sym, ap, ◌∙◌, arith, true, false, ◌&&◌, ◌||◌, Option, none, some, Bool-cases, inl, inr,
}
use modem2sip.Text.{codes, as_bytes}
use modem2sip.Text.Equal.{equal→≡}
use modem2sip.Sip.Method.{cancel, as_str, same_method}
use modem2sip.Sip.Headers.{get}
use modem2sip.Sip.Via.{and_then}
use modem2sip.Sip.Message.{Request}
use modem2sip.Auth.Params.{Credentials, parse_credentials}
use modem2sip.Auth.Digest.{expected, verify}
use modem2sip.Auth.Nonce.{is_valid}
use modem2sip.Auth.Check.{verify-equal}
use modem2sip.Core.Nonces.{Seen, claim_nonce}
use modem2sip.Core.State.{SocketAddr, Env, Config, Login, Core, Readings, domain_of}
use modem2sip.Core.Authenticate.{
  Verdict, credentials_ok, judge, judge_provided, rides_on_dialog, verdict_with, verdict,
  check_auth,
}

abbrev pub provided : Request → Option Credentials
provided req = and_then (get req.headers (codes "authorization")) parse_credentials

module _ (env : Env) (cfg : Config) where
  -- The request has to carry credentials of its own.
  abbrev pub NeedsCredentials : Request → Type 0
  NeedsCredentials req = (same_method req.method cancel || rides_on_dialog env cfg req) ≡ false

  -- What the credentials of an accepted request are.
  abbrev pub Proven : Login → Core → Request → Readings → Credentials → Type 0
  Proven login core req readings c =
      (provided req ≡ some c)
      × (c.username ≡ login.username)
      × (c.realm ≡ domain_of env cfg)
      × (as_bytes (expected env.md5 c login.password (as_str req.method) req.body)
          ≡ as_bytes c.response)
      × (is_valid env.md5 cfg.secret c.nonce 300 readings.checked ≡ true)
      × ((claim_nonce core.nonce_seen c readings.counted).0 ≡ true)

  verdict_with-needed :
      (login : Login) (seen : Seen) (req : Request) (readings : Readings)
      → NeedsCredentials req
      → verdict_with env cfg (some login) seen req readings
        ≡ judge_provided env cfg login seen req readings (provided req)
  verdict_with-needed login seen req readings needed = rw needed

  pub verdict-needed :
      (login : Login) (seen : Seen) (req : Request) (readings : Readings)
      → cfg.auth ≡ some login
      → NeedsCredentials req
      → verdict env cfg seen req readings
        ≡ judge_provided env cfg login seen req readings (provided req)
  unfolding verdict
  verdict-needed login seen req readings configured needed =
      ap (λ (o : Option Login). verdict_with env cfg o seen req readings) configured
      ∙ verdict_with-needed login seen req readings needed

  check_auth-verdict :
      (core : Core) (req : Request) (src : SocketAddr) (readings : Readings)
      → (check_auth env cfg core req src readings).0
        ≡ (verdict env cfg core.nonce_seen req readings).accepted
  unfolding check_auth
  check_auth-verdict core req src readings =
      elim (Bool-cases (verdict env cfg core.nonce_seen req readings).accepted) [
        | inl accepted ↦ rw accepted
        | inr rejected ↦ rw rejected
      ]

  judge-accepted :
      (login : Login) (seen : Seen) (req : Request) (readings : Readings) (c : Credentials)
      → (judge env cfg login seen req readings c).accepted ≡ true
      → (credentials_ok env cfg login req c ≡ true)
        × (is_valid env.md5 cfg.secret c.nonce 300 readings.checked ≡ true)
        × ((claim_nonce seen c readings.counted).0 ≡ true)
  unfolding judge
  judge-accepted login seen req readings c accepted =
      elim (Bool-cases (
        credentials_ok env cfg login req c
        && is_valid env.md5 cfg.secret c.nonce 300 readings.checked)) [
          | inl good ↦
              let same : (judge env cfg login seen req readings c).accepted
                  ≡ (claim_nonce seen c readings.counted).0 =
                rw good in
              (ground (arith, good), ground (arith, good), sym same ∙ accepted)
          | inr bad ↦
              let same : (judge env cfg login seen req readings c).accepted ≡ false = rw bad in
              ground (arith, same, accepted)
        ]

  pub credentials-Proven :
      (login : Login) (req : Request) (c : Credentials)
      → credentials_ok env cfg login req c ≡ true
      → (c.username ≡ login.username)
        × (c.realm ≡ domain_of env cfg)
        × (as_bytes (expected env.md5 c login.password (as_str req.method) req.body)
            ≡ as_bytes c.response)
  unfolding credentials_ok
  credentials-Proven login req c ok =
      let digest : verify env.md5 c login.password (as_str req.method) req.body ≡ true =
        ground (arith, ok) in
      (
        equal→≡ c.username login.username (ground (arith, ok)),
        equal→≡ c.realm (domain_of env cfg) (ground (arith, ok)),
        equal→≡ (as_bytes (expected env.md5 c login.password (as_str req.method) req.body))
            (as_bytes c.response)
            (sym (verify-equal env.md5 c login.password (as_str req.method) req.body) ∙ digest),
      )

  provided-Proven :
      (login : Login) (core : Core) (req : Request) (readings : Readings) (o : Option Credentials)
      → provided req ≡ o
      → (judge_provided env cfg login core.nonce_seen req readings o).accepted ≡ true
      → (c : Credentials) × Proven login core req readings c
  provided-Proven login core req readings none given accepted = ground (arith, accepted)
  provided-Proven login core req readings (some c) given accepted =
      let (ok, valid, claimed) = judge-accepted login core.nonce_seen req readings c accepted in
      let (user, realm, digest) = credentials-Proven login req c ok in
      (c, (given, user, realm, digest, valid, claimed))

  -- When credentials are configured and the request is neither a CANCEL nor a BYE or INFO
  -- inside a dialog, check_auth accepts it only if it carries an Authorization header with
  -- credentials of the configured user and realm, whose response is the digest for the
  -- configured password and this request's method and body, whose nonce is valid, and whose
  -- count was not used before by claim_nonce.
  pub check_auth-Proven :
      (core : Core) (req : Request) (src : SocketAddr) (readings : Readings) (login : Login)
      → cfg.auth ≡ some login
      → NeedsCredentials req
      → (check_auth env cfg core req src readings).0 ≡ true
      → (c : Credentials) × Proven login core req readings c
  check_auth-Proven core req src readings login configured needed accepted =
      provided-Proven login core req readings (provided req) refl (
        ap (λ (v : Verdict). v.accepted)
          (sym (verdict-needed login core.nonce_seen req readings configured needed))
        ∙ sym (check_auth-verdict core req src readings)
        ∙ accepted)
