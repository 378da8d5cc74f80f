-- ===== src/Core/Requests.antt =====
-- `on_request`, and the requests that the core answers itself.
use modem2sip.Common.{
  ℕ, suc, ◌-◌, ◌/◌, Bool, false, ◌&&◌, ◌||◌, not, List, [], ◌∷◌, ◌++◌, Option, none, some,
  if◌then◌else◌, min,
}
use modem2sip.Text.{Bytes, Text, codes}
use modem2sip.Text.Ops.{equal, trim, decimal, parse_unsigned}
use modem2sip.Uri.{NameAddr, bare}
use modem2sip.Uri.Parse.{
  uri_text, parse_name_addr, name_addr_value, set_name_addr_param, name_addr_text,
}
use modem2sip.Registrar.{Binding, Registrar, update, remove_all, contacts}
use modem2sip.Sip.Method.{
  Method, invite, ack, bye, cancel, register, options, info, message, same_method,
}
use modem2sip.Sip.Headers.{Headers, get, get_all, set, push}
use modem2sip.Sip.Via.{and_then, to_header, u32_max}
use modem2sip.Sip.Message.{Request, Response}
use modem2sip.Core.Addresses.{source_allowed, split_contacts}
use modem2sip.Core.Transactions.{
  Claim, fresh, in_flight, answered, Cache, claim_txn, txn_key, dialog_key,
}
use modem2sip.Core.PendingAcks.{acknowledge}
use modem2sip.Core.State.{SocketAddr, Env, Config, Core, Readings, Effect, sends, hands_over}
use modem2sip.Core.Respond.{make_response, respond}
use modem2sip.Core.Authenticate.{check_auth}

abbrev pub max_register_expires : ℕ
max_register_expires = 3600

abbrev pub unwrap_or : Option ℕ → ℕ → ℕ
unwrap_or none otherwise = otherwise
unwrap_or (some n) otherwise = n

-- The lifetime that a header or a parameter asks for, up to the longest.
abbrev pub granted : Option Text → ℕ → ℕ
granted asked otherwise =
    min (unwrap_or (and_then asked (λ v. parse_unsigned u32_max (trim v))) otherwise)
      max_register_expires

-- `any(|c| c.trim() == "*")`.
unfoldable pub any_star : List Text → Bool
any_star [] = false
any_star (c ∷ cs) = equal (trim c) (codes "*") || any_star cs

-- `iter().flat_map(|c| split_contacts(c))`.
unfoldable pub all_contacts : List Text → List Text
all_contacts [] = []
all_contacts (c ∷ cs) = split_contacts c ++ all_contacts cs

abbrev pub register_entry :
    Registrar SocketAddr → Text → SocketAddr → ℕ → ℕ × ℕ → Option NameAddr → Registrar SocketAddr
register_entry map aor src default clock none = map
register_entry map aor src default (now, later) (some contact) =
    update map aor contact src (granted (name_addr_value contact (codes "expires")) default) now
      later

-- The loop over the entries, with the number of its round.
unfoldable pub register_entries :
    Registrar SocketAddr
    → Text
    → SocketAddr
    → ℕ
    → (ℕ → ℕ × ℕ)
    → ℕ
    → List Text
    → Registrar SocketAddr
register_entries map aor src default clock round [] = map
register_entries map aor src default clock round (raw ∷ raws) =
    register_entries (register_entry map aor src default (clock round) (parse_name_addr raw)) aor
      src default clock (suc round) raws

unfoldable pub registered :
    Registrar SocketAddr → Text → SocketAddr → ℕ → (ℕ → ℕ × ℕ) → List Text → Registrar SocketAddr
registered map aor src default clock fields =
    if any_star fields
    then remove_all map aor
    else register_entries map aor src default clock 0 (all_contacts fields)

-- The bindings in the answer, each with the seconds that it has left.
unfoldable pub push_bindings : Headers → (ℕ → ℕ) → ℕ → List (Binding SocketAddr) → Headers
push_bindings hs remaining round [] = hs
push_bindings hs remaining round (b ∷ bs) =
    let secs = (b.expires_at - remaining round) / 1000000000 in
    push_bindings
      (push hs (codes "contact")
        (name_addr_text (set_name_addr_param b.contact (codes "expires") (some (decimal secs)))))
      remaining (suc round) bs

abbrev pub allowed_methods : Text
allowed_methods = codes "INVITE, ACK, CANCEL, BYE, OPTIONS, INFO, MESSAGE, REGISTER"

module _ (env : Env) (cfg : Config) where
  abbrev pub register_with :
      Core → Request → SocketAddr → Readings → Option NameAddr → Core × List Effect
  register_with core req src readings none =
      respond env cfg core req src (make_response cfg req 400 readings.drawn) readings
  register_with core req src readings (some to) =
      let aor = uri_text (bare to.uri) in
      let default = granted (get req.headers (codes "expires")) max_register_expires in
      let map =
        registered core.registrar aor src default readings.updated
          (get_all req.headers (codes "contact")) in
      let (bindings, after) = contacts map aor readings.listed in
      let resp = make_response cfg req 200 readings.drawn in
      let hs = push_bindings resp.headers readings.remaining 0 bindings in
      respond env cfg (record core { registrar = after }) req src
        (record resp { headers = set hs (codes "expires") (decimal default) }) readings

  abbrev pub when_accepted :
      Bool × Core × List Effect → (Core → Core × List Effect) → Core × List Effect
  when_accepted (accepted, core, effects) proceed =
      let next = proceed core in if accepted then next else (core, effects)

  unfoldable pub handle_register : Core → Request → SocketAddr → Readings → Core × List Effect
  handle_register core req src readings =
      when_accepted (check_auth env cfg core req src readings)
        (λ c. register_with c req src readings (to_header req.headers))

  abbrev pub unavailable : Response → Response
  unavailable r = record r {
    headers =
        set (set r.headers (codes "retry-after") (decimal cfg.retry_after_secs)) (codes "warning")
          (codes "399 modem2sip \"modem not available\"");
  }

  unfoldable pub handle_options : Core → Request → SocketAddr → Readings → Core × List Effect
  handle_options core req src readings =
      let resp =
        if cfg.options_reflect_modem && not readings.modem_ready
        then unavailable (make_response cfg req 503 readings.drawn)
        else make_response cfg req 200 readings.drawn in
      respond env cfg core req src
        (record resp {
          headers =
              set (set resp.headers (codes "allow") allowed_methods) (codes "accept")
                (codes "application/sdp, text/plain, application/json");
        })
        readings

  abbrev pub not_allowed : Core → Request → SocketAddr → Readings → Core × List Effect
  not_allowed core req src readings =
      let resp = make_response cfg req 405 readings.drawn in
      respond env cfg core req src
        (record resp { headers = set resp.headers (codes "allow") allowed_methods }) readings

  abbrev pub hand_over : Core → Request → SocketAddr → Readings → Core × List Effect
  hand_over core req src readings =
      when_accepted (check_auth env cfg core req src readings) (λ c. (c, hands_over req src ∷ []))

  abbrev pub dispatch : Method → Core → Request → SocketAddr → Readings → Core × List Effect
  dispatch register core req src readings = handle_register core req src readings
  dispatch options core req src readings = handle_options core req src readings
  dispatch invite core req src readings = hand_over core req src readings
  dispatch bye core req src readings = hand_over core req src readings
  dispatch cancel core req src readings = hand_over core req src readings
  dispatch info core req src readings = hand_over core req src readings
  dispatch message core req src readings = hand_over core req src readings
  dispatch ack core req src readings = (core, hands_over req src ∷ [])
  dispatch _ core req src readings = not_allowed core req src readings

  abbrev pub acknowledged : Core → Option Text → Core
  acknowledged core none = core
  acknowledged core (some key) = record core { pending_ack = acknowledge core.pending_ack key }

  abbrev pub resend : Option Bytes → SocketAddr → List Effect
  resend none src = []
  resend (some bytes) src = sends bytes src ∷ []

  abbrev pub claimed_dispatch :
      Core → Request → SocketAddr → Readings → Claim × Cache → Core × List Effect
  claimed_dispatch core req src readings (answered bytes, cache) =
      (record core { server_cache = cache }, sends bytes src ∷ [])
  claimed_dispatch core req src readings (in_flight provisional, cache) =
      (record core { server_cache = cache }, resend provisional src)
  claimed_dispatch core req src readings (fresh, cache) =
      dispatch req.method (record core { server_cache = cache }) req src readings

  abbrev pub with_key : Core → Request → SocketAddr → Readings → Option Text → Core × List Effect
  with_key core req src readings none = dispatch req.method core req src readings
  with_key core req src readings (some key) =
      claimed_dispatch core req src readings (claim_txn core.server_cache key readings.claimed)

  abbrev pub allowed_request : Core → Request → SocketAddr → Readings → Core × List Effect
  allowed_request core req src readings =
      if same_method req.method ack
      then dispatch req.method (acknowledged core (dialog_key req)) req src readings
      else with_key core req src readings (txn_key req)

  unfoldable pub on_request : Core → Request → SocketAddr → Readings → Core × List Effect
  on_request core req src readings =
      if source_allowed env.parse_ip cfg.allow src.ip
      then allowed_request core req src readings
      else respond env cfg core req src (make_response cfg req 403 readings.drawn) readings
