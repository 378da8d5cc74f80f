-- ===== src/Core/Refused.antt =====
-- Which credentials are refused, and that a refusal uses nothing up.
use modem2sip.Common.{
  ℕ, ◌≡◌, ◌≢◌, ◌⊎◌, refl, ap, ◌∙◌, arith, Bool, true, false, ◌&&◌, Option, none, some, Bool-cases,
  inl, inr, within, ◌==◌,
}
use modem2sip.Text.{Bytes, Text, as_bytes}
use modem2sip.Text.Ops.{equal}
use modem2sip.Text.Equal.{equal→≡}
use modem2sip.Uri.{Uri, NameAddr}
use modem2sip.Uri.Parse.{parse}
use modem2sip.Sip.Method.{invite, as_str, same_method}
use modem2sip.Sip.Via.{to_header}
use modem2sip.Sip.Message.{Request, Response}
use modem2sip.Auth.Params.{Credentials}
use modem2sip.Auth.Digest.{expected}
use modem2sip.Core.Nonces.{Seen}
use modem2sip.Core.Transactions.{txn_key, dialog_key}
use modem2sip.Core.State.{SocketAddr, Env, Config, Login, Core, Readings, domain_of}
use modem2sip.Core.Respond.{answer_bytes, recorded_core, awaiting, repeated, respond}
use modem2sip.Core.Authenticate.{
  same_option, same_bare, is_to_uri, names_request, credentials_ok, judge, judge_provided, verdict,
  check_auth,
}
use modem2sip.Core.Accepted.{provided, NeedsCredentials, verdict-needed, credentials-Proven}

-- The parts that `bare` leaves are the same.
abbrev pub SameUri : Uri → Uri → Type 0
SameUri u v = (u.scheme ≡ v.scheme) × (u.user ≡ v.user) × (u.host ≡ v.host) × (u.port ≡ v.port)

abbrev pub IsToUri : Uri → Option NameAddr → Type 0
IsToUri u none = ⊥
IsToUri u (some to) = SameUri u to.uri

same_option-≡ {ℓ} :
    {A : Type ℓ} (test : A → A → Bool) (a b : Option A)
    → ((x y : A) → test x y ≡ true → x ≡ y)
    → same_option test a b ≡ true
    → a ≡ b
same_option-≡ test none none sound h = refl
same_option-≡ test (some x) (some y) sound h = ap some (sound x y h)
same_option-≡ test none (some y) sound h = ground (arith, h)
same_option-≡ test (some x) none sound h = ground (arith, h)

same_bare-SameUri : (u v : Uri) → same_bare u v ≡ true → SameUri u v
unfolding same_bare
same_bare-SameUri u v h = (
  equal→≡ u.scheme v.scheme (ground (arith, h)),
  same_option-≡ equal u.user v.user equal→≡ (ground (arith, h)),
  equal→≡ u.host v.host (ground (arith, h)),
  same_option-≡ (λ (m n : ℕ). m == n) u.port v.port (λ m n e. ground (arith, e))
      (ground (arith, h)),
)

-- The credentials' URI names the request: as its Request-URI or as the URI of its To.
abbrev pub NamesRequest : Request → Option Uri → Type 0
NamesRequest req none = ⊥
NamesRequest req (some u) = SameUri u req.uri ⊎ IsToUri u (to_header req.headers)

is_to_uri-IsToUri : (u : Uri) (to : Option NameAddr) → is_to_uri u to ≡ true → IsToUri u to
is_to_uri-IsToUri u none h = ground (arith, h)
is_to_uri-IsToUri u (some to) h = same_bare-SameUri u to.uri h

names_request-NamesRequest :
    (req : Request) (o : Option Uri) → names_request req o ≡ true → NamesRequest req o
names_request-NamesRequest req none h = ground (arith, h)
names_request-NamesRequest req (some u) h = elim (Bool-cases (same_bare u req.uri)) [
  | inl same ↦ inl (same_bare-SameUri u req.uri same)
  | inr differ ↦ inr (is_to_uri-IsToUri u (to_header req.headers) (ground (arith, h, differ)))
]

module _ (env : Env) (cfg : Config) where
  recorded-nonces :
      (core : Core) (o : Option Text) (code : ℕ) (bytes : Bytes) (readings : Readings)
      → (recorded_core env cfg core o code bytes readings).nonce_seen ≡ core.nonce_seen
  recorded-nonces core none code bytes readings = refl
  recorded-nonces core (some key) code bytes readings = refl

  awaiting-nonces :
      (core : Core) (o : Option Text) (bytes : Bytes) (src : SocketAddr) (readings : Readings)
      → (awaiting env cfg core o bytes src readings).0.nonce_seen ≡ core.nonce_seen
  awaiting-nonces core none bytes src readings = refl
  awaiting-nonces core (some key) bytes src readings = refl

  repeated-nonces :
      (core : Core) (req : Request) (code : ℕ) (bytes : Bytes) (src : SocketAddr)
      (readings : Readings)
      → (repeated env cfg core req code bytes src readings).0.nonce_seen ≡ core.nonce_seen
  repeated-nonces core req code bytes src readings =
      elim (Bool-cases (same_method req.method invite && within 200 299 code)) [
        | inl final ↦ rw final (awaiting-nonces core (dialog_key req) bytes src readings)
        | inr other ↦ rw other
      ]

  respond-nonces :
      (core : Core) (req : Request) (src : SocketAddr) (resp : Response) (readings : Readings)
      → (respond env cfg core req src resp readings).0.nonce_seen ≡ core.nonce_seen
  unfolding respond
  respond-nonces core req src resp readings =
      let bytes = answer_bytes env cfg req src resp in
      repeated-nonces (recorded_core env cfg core (txn_key req) resp.code bytes readings) req
        resp.code bytes src readings
      ∙ recorded-nonces core (txn_key req) resp.code bytes readings

  -- What may be wrong with credentials.
  abbrev pub Wrong : Login → Request → Credentials → Type 0
  Wrong login req c =
      (c.username ≢ login.username)
      ⊎ (c.realm ≢ domain_of env cfg)
      ⊎ (¬ NamesRequest req (parse c.uri))
      ⊎ (as_bytes (expected env.md5 c login.password (as_str req.method) req.body)
          ≢ as_bytes c.response)

  credentials-names :
      (login : Login) (req : Request) (c : Credentials)
      → credentials_ok env cfg login req c ≡ true
      → NamesRequest req (parse c.uri)
  unfolding credentials_ok
  credentials-names login req c ok =
      names_request-NamesRequest req (parse c.uri) (ground (arith, ok))

  Wrong-credentials_ok :
      (login : Login) (req : Request) (c : Credentials)
      → Wrong login req c
      → credentials_ok env cfg login req c ≡ false
  Wrong-credentials_ok login req c wrong = elim (Bool-cases (credentials_ok env cfg login req c)) [
    | inl ok ↦
        let (user, realm, digest) = credentials-Proven env cfg login req c ok in
        elim wrong [
          | inl other ↦ absurd (other user)
          | inr (inl other) ↦ absurd (other realm)
          | inr (inr (inl other)) ↦ absurd (other (credentials-names login req c ok))
          | inr (inr (inr other)) ↦ absurd (other digest)
        ]
    | inr bad ↦ bad
  ]

  judge-wrong :
      (login : Login) (seen : Seen) (req : Request) (readings : Readings) (c : Credentials)
      → credentials_ok env cfg login req c ≡ false
      → judge env cfg login seen req readings c
        ≡ record { accepted = false; stale = false; seen = seen }
  unfolding judge
  judge-wrong login seen req readings c wrong = rw wrong

  -- When credentials are configured and needed, and in those that a request carries the user or
  -- the realm is not the configured one, or the URI does not parse or has another scheme, user,
  -- host or port than the Request-URI and than the URI of the To header, or the response is not
  -- the digest for the configured password and this request's method and body, check_auth refuses
  -- the request and uses no nonce count up.
  pub check_auth-Wrong :
      (core : Core) (req : Request) (src : SocketAddr) (readings : Readings) (login : Login)
      (c : Credentials)
      → cfg.auth ≡ some login
      → NeedsCredentials env cfg req
      → provided req ≡ some c
      → Wrong login req c
      → ((check_auth env cfg core req src readings).0 ≡ false)
        × ((check_auth env cfg core req src readings).1.nonce_seen ≡ core.nonce_seen)
  unfolding check_auth
  check_auth-Wrong core req src readings login c configured needed given wrong =
      let refused : verdict env cfg core.nonce_seen req readings
          ≡ record { accepted = false; stale = false; seen = core.nonce_seen } =
        verdict-needed env cfg login core.nonce_seen req readings configured needed
        ∙ ap (judge_provided env cfg login core.nonce_seen req readings) given
        ∙ judge-wrong login core.nonce_seen req readings c
            (Wrong-credentials_ok login req c wrong) in
      rw refused (refl, respond-nonces core req src _ readings)
