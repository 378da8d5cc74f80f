-- ===== src/Core/Clients.antt =====
-- Client transactions: responses on their way to the request that they answer.
use modem2sip.Common.{
  ℕ, Bool, true, false, ◌||◌, List, [], ◌∷◌, ◌++◌, Option, none, some, if◌then◌else◌, ◌==◌, leb,
}
use modem2sip.Text.{Bytes, Text, codes}
use modem2sip.Text.Ops.{decimal}
use modem2sip.Text.Table.{Table, lookup, insert, delete}
use modem2sip.Uri.{Uri, NameAddr}
use modem2sip.Uri.Host.{host_for_wire}
use modem2sip.Uri.Parse.{uri_text, name_addr_text}
use modem2sip.Sip.Method.{Method, invite, as_str, same_method}
use modem2sip.Sip.Headers.{Headers, get, get_all, set, push}
use modem2sip.Sip.Via.{Via, parse_via, via_text, set_via_param, and_then, top_via, branch, cseq}
use modem2sip.Sip.Message.{Request, Response}
use modem2sip.Sip.Encode.{is_provisional, new_request}
use modem2sip.Auth.Params.{Challenge, parse_challenge, is_supported, to_header}
use modem2sip.Auth.Digest.{random_hex, answer}
use modem2sip.Core.State.{SocketAddr, Env, Config, advertised_ip}
use modem2sip.Core.Respond.{own_contact}

-- The channel to the transaction's handle is the list of what was sent into it.
pub record ClientTxn : Type 0 where
  pub method : Method
  pub received : List Response
  pub stop_retransmit : Bool

abbrev pub Clients : Type 0
Clients = Table ClientTxn

-- A final response stops the timer, and any response that of an INVITE.
abbrev pub delivered : ClientTxn → Response → ClientTxn
delivered entry resp = record {
  method = entry.method;
  received = entry.received ++ resp ∷ [];
  stop_retransmit = entry.stop_retransmit || (leb 200 resp.code || same_method entry.method invite);
}

abbrev pub deliver : Clients → Text → Method → Response → Option ClientTxn → Clients
deliver clients key method resp none = clients
deliver clients key method resp (some entry) =
    if same_method entry.method method then insert key (delivered entry resp) clients else clients

abbrev pub deliver_by : Clients → Response → Text → Option (ℕ × Method) → Clients
deliver_by clients resp key none = clients
deliver_by clients resp key (some (num, method)) =
    deliver clients key method resp (lookup key clients)

abbrev pub deliver_to : Clients → Response → Option Text → Clients
deliver_to clients resp none = clients
deliver_to clients resp (some key) = deliver_by clients resp key (cseq resp.headers)

unfoldable pub on_response : Clients → Response → Clients
on_response clients resp = deliver_to clients resp (and_then (top_via resp.headers) branch)

-- `send_request` up to the datagram, and `Drop` for the handle.
unfoldable pub start_client : Clients → Text → Method → Clients
start_client clients key method =
    insert key (record { method = method; received = []; stop_retransmit = false }) clients

unfoldable pub drop_client : Clients → Text → Clients
drop_client clients key = delete key clients

-- `final_response`: what the channel gives, each response with the instant at which it arrives, or
-- nothing for the deadline or the channel's end.
unfoldable pub final_response : ℕ → List (ℕ × Response) → Option Response
final_response deadline [] = none
final_response deadline ((arrival, resp) ∷ later) =
    let rest = final_response deadline later in
    if leb deadline arrival then none else if is_provisional resp then rest else some resp

-- The first challenge that can be answered.
unfoldable pub first_supported : List Text → Option Challenge
first_supported [] = none
first_supported (v ∷ vs) = supported_or (parse_challenge v) (first_supported vs)
  where
    supported_or : Option Challenge → Option Challenge → Option Challenge
    supported_or none rest = rest
    supported_or (some c) rest = if is_supported c then some c else rest

abbrev pub challenge_header : ℕ → Text
challenge_header code = if code == 401 then codes "www-authenticate" else codes "proxy-authenticate"

abbrev pub credentials_header : ℕ → Text
credentials_header code = if code == 401 then codes "authorization" else codes "proxy-authorization"

-- What `transact` does with the first final response: it is the result, it has no challenge that can
-- be answered, or the request is sent again.
pub data Next : Type 0 where
  done : Response → Next
  unanswerable : Next
  again : Request → Next

abbrev pub cseq_text : ℕ → Method → Text
cseq_text num method = decimal num ++ (b' ' ∷ as_str method)

abbrev pub new_branch : Bytes → Text
new_branch drawn = codes "z9hG4bK" ++ random_hex drawn

abbrev pub refreshed : Headers → Bytes → Option Via → Headers
refreshed hs drawn none = hs
refreshed hs drawn (some via) =
    set hs (codes "via") (via_text (set_via_param via (codes "branch") (some (new_branch drawn))))

unfoldable pub refresh_via_branch : Headers → Bytes → Headers
refresh_via_branch hs drawn = refreshed hs drawn (and_then (get hs (codes "via")) parse_via)

module _ (env : Env) (cfg : Config) where
  -- `num` is the next sequence number; `client` and `drawn` are the random bytes of the client's nonce
  -- and of the branch.
  abbrev pub authorized : Request → ℕ → Text × Text → ℕ → Bytes → Bytes → Challenge → Request
  authorized req code (user, pass) num client drawn challenge =
      let creds =
        answer env.md5 challenge user pass (as_str req.method) (uri_text req.uri) req.body 1
          client in
      let hs =
        refresh_via_branch (set req.headers (codes "cseq") (cseq_text num req.method)) drawn in
      record req { headers = set hs (credentials_header code) (to_header creds) }

  abbrev pub challenged_next :
      Request → ℕ → Text × Text → ℕ → Bytes → Bytes → Option Challenge → Next
  challenged_next req code login num client drawn none = unanswerable
  challenged_next req code login num client drawn (some c) =
      again (authorized req code login num client drawn c)

  abbrev pub next_with : Request → Response → ℕ → Bytes → Bytes → Option (Text × Text) → Next
  next_with req resp num client drawn none = done resp
  next_with req resp num client drawn (some login) =
      challenged_next req resp.code login num client drawn
        (first_supported (get_all resp.headers (challenge_header resp.code)))

  unfoldable pub after_response :
      Request → Response → Option (Text × Text) → ℕ → Bytes → Bytes → Next
  after_response req resp creds num client drawn =
      if resp.code == 401 || resp.code == 407
      then next_with req resp num client drawn creds
      else done resp

  abbrev pub via_line : SocketAddr → Bytes → Text
  via_line dest drawn =
      codes "SIP/2.0/UDP "
      ++ (host_for_wire (env.ip_text (advertised_ip env cfg dest))
          ++ (b':' ∷ (decimal cfg.bound.port ++ (codes ";rport;branch=" ++ new_branch drawn))))

  abbrev pub contact_if : Bool → Headers → NameAddr → SocketAddr → Headers
  contact_if true hs from dest = set hs (codes "contact") (own_contact env cfg from.uri.user dest)
  contact_if false hs from dest = hs

  unfoldable pub build_request :
      Method → Uri → NameAddr → NameAddr → Text → ℕ → SocketAddr → Bool → Bytes → Request
  build_request method request_uri from to call_id num dest with_contact drawn =
      let req = new_request method request_uri in
      let h1 = push req.headers (codes "via") (via_line dest drawn) in
      let h2 = set h1 (codes "max-forwards") (codes "70") in
      let h3 = set h2 (codes "from") (name_addr_text from) in
      let h4 = set h3 (codes "to") (name_addr_text to) in
      let h5 = set h4 (codes "call-id") call_id in
      let h6 = set h5 (codes "cseq") (cseq_text num method) in
      let h7 = contact_if with_contact h6 from dest in
      record req { headers = set h7 (codes "user-agent") cfg.user_agent }
