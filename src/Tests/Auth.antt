-- ===== src/Tests/Auth.antt =====
-- Authentication, timers and messages at concrete inputs.
use modem2sip.Common.{
  ℕ, ◌≤◌, ◌<◌, ◌≡◌, ◌≢◌, ◌⊎◌, refl, arith, inl, inr, Bool, true, false, ◌&&◌, List, [], ◌∷◌, none,
  some, All, leb, ◌-◌, if◌then◌else◌,
}
use modem2sip.Text.{Text, codes, as_bytes, encode_utf8}
use modem2sip.Text.Ops.{
  equal, to_ascii_lowercase, eq_ignore_ascii_case, starts_with, contains_char, trim, trim_matches,
  trim_start, trim_end, trim_end_with, is_whitespace, split_once, rsplit_once, split_first, split,
  split_items, parse_unsigned, digits_from, decimal, decimal_from, strip_prefix,
}
use modem2sip.Text.Words.{split_whitespace, words_from, split_once_where, to_ascii_uppercase}
use modem2sip.Text.Table.{lookup, insert, delete}
use modem2sip.Uri.Host.{split_host_port}
use modem2sip.Uri.Parse.{cut, find_param, parse_uri_params, parse_uri_headers, parse, uri_of}
use modem2sip.Sip.Method.{message, same_method, as_str, parse_method, named}
use modem2sip.Sip.Headers.{
  canonical, full_form, get, get_all, set, push, remove, replace_first, find_header,
}
use modem2sip.Sip.Via.{
  parse_via, parse_via_params, top_via, branch, via_param, cseq, and_then, to_header,
}
use modem2sip.Sip.Message.{Request, Response}
use modem2sip.Sip.Encode.{reply}
use modem2sip.Sip.HeaderMap.{get-set, or_first}
use modem2sip.Sip.Reply.{get-reply}
use modem2sip.Auth.Params.{
  Challenge, Credentials, parse_credentials, digest_table, parse_params, params_from, scan,
  param_value,
}
use modem2sip.Auth.Digest.{
  md5_hex, hex, digest_response, same_bytes, difference, answer, expected, verify,
}
use modem2sip.Auth.Nonce.{issue, is_valid, parse_i64}
use modem2sip.Auth.Check.{verify-equal, verify-answer}
use modem2sip.Auth.Validity.{is_valid-issue}
use modem2sip.Core.Nonces.{nonce_count, claim_nonce}
use modem2sip.Core.NoReplay.{NonceEvent, claims, forgets, results, claim_nonce-results}
use modem2sip.Core.Timers.{retransmit_from, retransmit}
use modem2sip.Core.Schedule.{Backoff, retransmit_from-IsBackoff}
use modem2sip.Core.OneTimer.{
  AckEvent, StoppedIn, AllSettled, answers, acks, expires, no_timers, timer_run,
  timer_run-AllSettled,
}
use modem2sip.Core.Clients.{Clients, on_response}
use modem2sip.Core.Delivered.{Expected, lookup-on_response}
use modem2sip.Core.State.{Config, Login, domain_of}
use modem2sip.Core.Authenticate.{credentials_ok, check_auth, judge, verdict, same_bare}
use modem2sip.Core.Accepted.{Proven, NeedsCredentials, provided, check_auth-Proven}
use modem2sip.Core.Refused.{NamesRequest, check_auth-Wrong}
use modem2sip.Tests.Core.{env, cfg, core, reads_at, phone, sms}

abbrev login : Login
login = record { username = codes "u"; password = codes "p" }

abbrev guarded : Config
guarded = record cfg { auth = some login }

abbrev challenge : Challenge
challenge = record {
  realm = codes "gw";
  nonce = codes "5:";
  opaque = none;
  qop = none;
  algorithm = none;
}

abbrev credentials : Credentials
credentials = record {
  username = codes "u";
  realm = codes "gw";
  nonce = codes "5:";
  uri = codes "sip:gw";
  response = [];
  algorithm = none;
  cnonce = none;
  nc = none;
  qop = none;
  opaque = none;
}

abbrev authorization : Text
authorization = codes "Digest username=u,realm=gw,nonce=5:,uri=sip:gw"

abbrev authorized : Request
authorized = record sms { headers = (codes "authorization", authorization) ∷ sms.headers }

given : provided authorized ≡ some credentials
unfolding get find_header canonical full_form to_ascii_lowercase trim trim_matches trim_start
    trim_end trim_end_with is_whitespace equal parse_credentials digest_table split_once_where
    eq_ignore_ascii_case parse_params params_from scan param_value lookup insert delete
given = refl

needs : NeedsCredentials env guarded authorized
unfolding same_method to_header get find_header canonical full_form to_ascii_lowercase trim
    trim_matches trim_start trim_end trim_end_with is_whitespace equal
needs = refl

accepted : (check_auth env guarded core authorized phone (reads_at 100)).0 ≡ true
unfolding get find_header canonical full_form to_ascii_lowercase trim trim_matches trim_start
    trim_end trim_end_with is_whitespace equal parse_credentials digest_table split_once_where
    eq_ignore_ascii_case parse_params params_from scan param_value lookup insert delete same_method
    to_header check_auth verdict judge credentials_ok domain_of same_bare parse uri_of split_once
    rsplit_once split_host_port cut contains_char starts_with verify same_bytes difference
    digest_response md5_hex hex as_bytes encode_utf8 is_valid parse_i64 parse_unsigned digits_from
    claim_nonce as_str parse_uri_params parse_uri_headers decimal decimal_from nonce_count
    strip_prefix
accepted = refl

check_auth-Proven_example :
    (c : Credentials) × Proven env guarded login core authorized (reads_at 100) c
check_auth-Proven_example =
    check_auth-Proven env guarded core authorized phone (reads_at 100) login refl needs accepted

-- Credentials for another URI.
abbrev elsewhere : Credentials
elsewhere = record credentials { uri = codes "sip:gx" }

abbrev misdirected : Request
misdirected = record sms {
  headers =
      (codes "authorization", codes "Digest username=u,realm=gw,nonce=5:,uri=sip:gx") ∷ sms.headers;
}

elsewhere_given : provided misdirected ≡ some elsewhere
unfolding get find_header canonical full_form to_ascii_lowercase trim trim_matches trim_start
    trim_end trim_end_with is_whitespace equal parse_credentials digest_table split_once_where
    eq_ignore_ascii_case parse_params params_from scan param_value lookup insert delete
elsewhere_given = refl

misdirected_needs : NeedsCredentials env guarded misdirected
unfolding same_method to_header get find_header canonical full_form to_ascii_lowercase trim
    trim_matches trim_start trim_end trim_end_with is_whitespace equal
misdirected_needs = refl

names_other : ¬ NamesRequest misdirected (parse elsewhere.uri)
unfolding get find_header canonical full_form to_ascii_lowercase trim trim_matches trim_start
    trim_end trim_end_with is_whitespace equal to_header parse uri_of split_once rsplit_once
    split_host_port cut contains_char starts_with parse_uri_params parse_uri_headers strip_prefix
names_other names = elim names [
  | inl same ↦ let host : codes "gx" ≡ codes "gw" = same.2 in ground (arith, host)
  | inr to ↦ absurd to
]

check_auth-Wrong_example :
    ((check_auth env guarded core misdirected phone (reads_at 100)).0 ≡ false)
    × ((check_auth env guarded core misdirected phone (reads_at 100)).1.nonce_seen
        ≡ core.nonce_seen)
check_auth-Wrong_example =
    check_auth-Wrong env guarded core misdirected phone (reads_at 100) login elsewhere refl
      misdirected_needs elsewhere_given (inr (inr (inl names_other)))

verify-equal_example :
    verify env.md5 credentials (codes "p") (codes "MESSAGE") (codes "hi")
    ≡ equal
        (as_bytes (expected env.md5 credentials (codes "p") (codes "MESSAGE") (codes "hi")))
        (as_bytes credentials.response)
verify-equal_example = verify-equal env.md5 credentials (codes "p") (codes "MESSAGE") (codes "hi")

verify-answer_example :
    verify env.md5
      (answer env.md5 challenge
        (codes "u")
        (codes "p")
        (codes "MESSAGE")
        (codes "sip:gw")
        (codes "hi")
        1
        (7 ∷ []))
      (codes "p")
      (codes "MESSAGE")
      (codes "hi")
    ≡ true
verify-answer_example =
    verify-answer env.md5 challenge (codes "u") (codes "p") (codes "MESSAGE") (codes "sip:gw")
      (codes "hi") 1 (7 ∷ [])

is_valid-issue_example :
    is_valid env.md5 (codes "s") (issue env.md5 (codes "s") 1000) 300 1200
    ≡ (leb 1000 1200 && leb (1200 - 1000) 300)
is_valid-issue_example = is_valid-issue env.md5 (codes "s") 1000 1200 300 (omega arith)

abbrev later_claims : List NonceEvent
later_claims = claims credentials 200 ∷ forgets 300 ∷ claims credentials 400 ∷ []

first_claim : (claim_nonce [] credentials 100).0 ≡ true
unfolding claim_nonce lookup
first_claim = refl

claim_nonce-results_example :
    All
      (λ allowed. allowed ≡ false)
      (results
        (codes "5:")
        (nonce_count credentials)
        (claim_nonce [] credentials 100).1
        later_claims)
unfolding lookup
claim_nonce-results_example =
    claim_nonce-results [] credentials 100 later_claims first_claim
      (omega arith, (omega arith, (omega arith, tt)))

abbrev acked_at_4s : ℕ → Bool
acked_at_4s now = leb 4000 now

abbrev always : ℕ → Bool
always now = true

retransmit-IsBackoff_example :
    Backoff acked_at_4s always 500 0
      (retransmit acked_at_4s always).0
      (retransmit acked_at_4s always).1
    × All
        (λ now. (500 ≤ now) × (now < 36000) × (acked_at_4s now ≡ false) × (always now ≡ true))
        (retransmit acked_at_4s always).0
unfolding retransmit
retransmit-IsBackoff_example =
    retransmit_from-IsBackoff acked_at_4s always 65 500 0 (omega arith) (omega arith) (omega arith)

-- The last datagram of an answer that nobody acknowledges.
never_acked :
    (retransmit (λ now. false) always).0
    ≡ 500 ∷ 1500 ∷ 3500 ∷ 7500 ∷ 11500 ∷ 15500 ∷ 19500 ∷ 23500 ∷ 27500 ∷ 31500 ∷ 35500 ∷ []
unfolding retransmit retransmit_from
never_acked = refl

abbrev answered_twice : List AckEvent
answered_twice = answers (codes "d") 1 ∷ answers (codes "d") 2 ∷ expires (codes "d") 1 ∷ []

abbrev answered_again : List AckEvent
answered_again = answers (codes "d") 3 ∷ []

timer_run-AllSettled_example :
    AllSettled (timer_run no_timers answered_twice)
    × All
        (StoppedIn
          (codes "d")
          (timer_run (timer_run no_timers answered_twice) (acks (codes "d") ∷ answered_again)))
        (timer_run no_timers answered_twice).timers
timer_run-AllSettled_example = timer_run-AllSettled answered_twice answered_again (codes "d")

abbrev ok : Response
ok = record { code = 200; reason = codes "OK"; headers = sms.headers; body = [] }

ok_branch : and_then (top_via ok.headers) branch ≡ some (codes "b")
unfolding top_via get find_header canonical full_form to_ascii_lowercase trim trim_matches
    trim_start trim_end trim_end_with is_whitespace equal parse_via split_first split_once_where cut
    split_once split_host_port rsplit_once contains_char starts_with split split_items
    parse_via_params branch via_param find_param eq_ignore_ascii_case
ok_branch = refl

ok_cseq : cseq ok.headers ≡ some (7, message)
unfolding get find_header canonical full_form to_ascii_lowercase trim trim_matches trim_start
    trim_end trim_end_with is_whitespace equal cseq split_whitespace words_from parse_unsigned
    digits_from parse_method named to_ascii_uppercase
ok_cseq = refl

abbrev waiting : Clients
waiting = (codes "b", record { method = message; received = []; stop_retransmit = false }) ∷ []

lookup-on_response_example :
    ((codes "b" ≡ codes "b")
      × Expected ok message
          (lookup (codes "b") waiting)
          (lookup (codes "b") (on_response waiting ok)))
    ⊎ ((codes "b" ≢ codes "b")
        × (lookup (codes "b") (on_response waiting ok) ≡ lookup (codes "b") waiting))
lookup-on_response_example =
    lookup-on_response waiting ok (codes "b") (codes "b") 7 message ok_branch ok_cseq

get-set_example :
    (get (set sms.headers (codes "v") (codes "new")) (codes "via") ≡ (
      if equal (canonical (codes "v")) (canonical (codes "via"))
      then some (codes "new")
      else get sms.headers (codes "via")))
    × (get (replace_first sms.headers (codes "v") (codes "new")) (codes "via") ≡ (
        if equal (canonical (codes "v")) (canonical (codes "via"))
        then some (codes "new")
        else get sms.headers (codes "via")))
    × (get (remove sms.headers (codes "v")) (codes "via") ≡ (
        if equal (canonical (codes "v")) (canonical (codes "via"))
        then none
        else get sms.headers (codes "via")))
    × (get (push sms.headers (codes "v") (codes "new")) (codes "via")
        ≡ or_first (get sms.headers (codes "via")) (
            if equal (canonical (codes "v")) (canonical (codes "via"))
            then some (codes "new")
            else none))
get-set_example = get-set sms.headers (codes "v") (codes "via") (codes "new")

get-reply_example :
    (get_all (reply sms 200 (codes "OK")).headers (codes "via") ≡ get_all sms.headers (codes "via"))
    × (get_all (reply sms 200 (codes "OK")).headers (codes "record-route")
        ≡ get_all sms.headers (codes "record-route"))
    × (get (reply sms 200 (codes "OK")).headers (codes "from") ≡ get sms.headers (codes "from"))
    × (get (reply sms 200 (codes "OK")).headers (codes "to") ≡ get sms.headers (codes "to"))
    × (get (reply sms 200 (codes "OK")).headers (codes "call-id")
        ≡ get sms.headers (codes "call-id"))
    × (get (reply sms 200 (codes "OK")).headers (codes "cseq") ≡ get sms.headers (codes "cseq"))
get-reply_example = get-reply sms 200 (codes "OK")
