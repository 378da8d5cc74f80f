-- ===== src/Core/Authenticate.antt =====
-- `check_auth`.
use modem2sip.Common.{
  ℕ, Bool, true, false, ◌&&◌, ◌||◌, not, List, [], ◌++◌, Option, none, some, if◌then◌else◌, ◌==◌,
}
use modem2sip.Text.{Text, codes}
use modem2sip.Text.Ops.{equal}
use modem2sip.Uri.{Uri, NameAddr}
use modem2sip.Uri.Parse.{parse}
use modem2sip.Sip.Method.{bye, cancel, info, as_str, same_method}
use modem2sip.Sip.Headers.{get, set}
use modem2sip.Sip.Via.{and_then, to_header, is_some}
use modem2sip.Sip.Message.{Request}
use modem2sip.Auth.Params.{Credentials, parse_credentials}
use modem2sip.Auth.Digest.{verify}
use modem2sip.Auth.Nonce.{issue, is_valid}
use modem2sip.Core.Nonces.{Seen, claim_nonce}
use modem2sip.Core.State.{SocketAddr, Env, Config, Login, Core, Readings, Effect, domain_of}
use modem2sip.Core.Respond.{make_response, respond, tag_of}

abbrev pub same_option {ℓ} : {A : Type ℓ} → (A → A → Bool) → Option A → Option A → Bool
same_option test none none = true
same_option test (some a) (some b) = test a b
same_option test _ _ = false

-- `==` on what `bare` leaves.
unfoldable pub same_bare : Uri → Uri → Bool
same_bare u v =
    equal u.scheme v.scheme
    && (same_option equal u.user v.user
        && (equal u.host v.host && same_option (λ (m n : ℕ). m == n) u.port v.port))

abbrev pub is_to_uri : Uri → Option NameAddr → Bool
is_to_uri u none = false
is_to_uri u (some to) = same_bare u to.uri

abbrev pub names_request : Request → Option Uri → Bool
names_request req none = false
names_request req (some u) = same_bare u req.uri || is_to_uri u (to_header req.headers)

-- What the credentials lead to: whether the request may proceed, whether they were stale, and the
-- counts that are used up.
pub record Verdict : Type 0 where
  pub accepted : Bool
  pub stale : Bool
  pub seen : Seen

module _ (env : Env) (cfg : Config) where
  unfoldable pub credentials_ok : Login → Request → Credentials → Bool
  credentials_ok login req c =
      equal c.username login.username
      && (equal c.realm (domain_of env cfg)
          && (names_request req (parse c.uri)
              && verify env.md5 c login.password (as_str req.method) req.body))

  -- A nonce is claimed for good credentials with a valid nonce only.
  unfoldable pub judge : Login → Seen → Request → Readings → Credentials → Verdict
  judge login seen req readings c =
      let ok = credentials_ok login req c in
      let claim = claim_nonce seen c readings.counted in
      if ok && is_valid env.md5 cfg.secret c.nonce 300 readings.checked
      then record { accepted = claim.0; stale = not (claim.0); seen = claim.1 }
      else record { accepted = false; stale = ok; seen = seen }

  abbrev pub judge_provided : Login → Seen → Request → Readings → Option Credentials → Verdict
  judge_provided login seen req readings none = record {
    accepted = false;
    stale = false;
    seen = seen;
  }
  judge_provided login seen req readings (some c) = judge login seen req readings c

  abbrev pub rides_on_dialog : Request → Bool
  rides_on_dialog req =
      is_some (tag_of (to_header req.headers))
      && (same_method req.method bye || same_method req.method info)

  abbrev pub accept : Seen → Verdict
  accept seen = record { accepted = true; stale = false; seen = seen }

  abbrev pub verdict_with : Option Login → Seen → Request → Readings → Verdict
  verdict_with none seen req readings = accept seen
  verdict_with (some login) seen req readings =
      if same_method req.method cancel || rides_on_dialog req
      then accept seen
      else judge_provided login seen req readings
          (and_then (get req.headers (codes "authorization")) parse_credentials)

  unfoldable pub verdict : Seen → Request → Readings → Verdict
  verdict seen req readings = verdict_with cfg.auth seen req readings

  abbrev pub stale_text : Bool → Text
  stale_text true = codes ", stale=true"
  stale_text false = []

  unfoldable pub challenge_text : Bool → ℕ → Text
  challenge_text stale now =
      codes "Digest realm=\""
      ++ (domain_of env cfg
          ++ (codes "\", nonce=\""
              ++ (issue env.md5 cfg.secret now
                  ++ (codes "\", algorithm=MD5, qop=\"auth\"" ++ stale_text stale))))

  abbrev pub challenged : Core → Request → SocketAddr → Readings → Bool → Core × List Effect
  challenged core req src readings stale =
      let resp = make_response cfg req 401 readings.drawn in
      respond env cfg core req src
        (record resp {
          headers =
              set resp.headers (codes "www-authenticate") (challenge_text stale readings.issued);
        })
        readings

  -- The answer, and the core and the effects when the request may not proceed.
  unfoldable pub check_auth : Core → Request → SocketAddr → Readings → Bool × Core × List Effect
  check_auth core req src readings =
      let v = verdict core.nonce_seen req readings in
      let claimed = record core { nonce_seen = v.seen } in
      let (after, effects) = challenged claimed req src readings v.stale in
      if v.accepted then (true, claimed, []) else (false, after, effects)
