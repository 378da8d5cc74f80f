-- ===== src/Tests/Core.antt =====
-- The core at concrete inputs.
use modem2sip.Common.{ℕ, ◌≡◌, refl, arith, true, false, List, [], ◌∷◌, none, some, All}
use modem2sip.Text.{codes}
use modem2sip.Text.Ops.{
  equal, to_ascii_lowercase, eq_ignore_ascii_case, starts_with, contains_char, trim, trim_matches,
  trim_start, trim_end, trim_end_with, is_whitespace, split_once, rsplit_once, split_first, split,
  split_items, parse_unsigned, digits_from, decimal, decimal_from,
}
use modem2sip.Text.Words.{split_whitespace, words_from, split_once_where, to_ascii_uppercase}
use modem2sip.Text.Table.{lookup}
use modem2sip.Uri.{new}
use modem2sip.Uri.Host.{split_host_port}
use modem2sip.Uri.Parse.{cut, find_param}
use modem2sip.Sip.Method.{message, same_method, as_str, parse_method, named, ack}
use modem2sip.Sip.Headers.{Target, Headers, canonical, full_form, get, find_header}
use modem2sip.Sip.Via.{parse_via, parse_via_params, top_via, branch, via_param, cseq}
use modem2sip.Sip.Message.{Request}
use modem2sip.Core.Addresses.{v4, source_allowed}
use modem2sip.Core.Transactions.{txn_key, claim_txn, record_answer, ServerTxn, fresh, answered}
use modem2sip.Core.State.{SocketAddr, Env, Config, Core, Readings}
use modem2sip.Core.Requests.{on_request}
use modem2sip.Core.Twice.{replayed, on_request-twice}
use modem2sip.Core.ExactlyOnce.{
  CacheEvent, arrives, cleans_up, IsRetransmission, claims_of, claim_txn-claims_of,
}
use modem2sip.Core.Replay.{record_answer-claims_of}

abbrev pub target : Target
target = record { usize_max = 18446744073709551615; to_uppercase = λ c. c ∷ [] }

abbrev pub phone : SocketAddr
phone = record { ip = v4 167772162; port = 5060 }

abbrev pub env : Env
env = record {
  md5 = λ bytes. [];
  target = target;
  parse_ip = λ s. none;
  ip_text = λ ip. codes "10.0.0.2";
  local_ip_for = λ dest. none;
}

abbrev pub cfg : Config
cfg = record {
  allow = [];
  auth = none;
  domain = some (codes "gw");
  user_agent = codes "m";
  options_reflect_modem = false;
  retry_after_secs = 30;
  public_ip = none;
  bound = phone;
  secret = codes "s";
}

abbrev pub core : Core
core = record {
  server_cache = [];
  nonce_seen = [];
  pending_ack = record { pending = []; set_flags = [] };
  registrar = [];
}

abbrev pub reads_at : ℕ → Readings
reads_at now = record {
  claimed = now;
  checked = 7;
  counted = now;
  issued = 7;
  updated = λ round. (now, now);
  listed = now;
  remaining = λ round. now;
  recorded = now;
  modem_ready = true;
  drawn = 1 ∷ [];
  new_flag = 1;
}

abbrev pub sms_headers : Headers
sms_headers = (codes "via", codes "U h;branch=b") ∷ (codes "cseq", codes "7 MESSAGE") ∷ []

abbrev pub sms : Request
sms = record {
  method = message;
  uri = new none (codes "gw") none;
  headers = sms_headers;
  body = codes "hi";
}

sms_key : txn_key sms ≡ some (codes "b|7|MESSAGE")
unfolding txn_key top_via get find_header canonical full_form to_ascii_lowercase trim trim_matches
    trim_start trim_end trim_end_with is_whitespace equal parse_via split_first split_once_where cut
    split_once split_host_port rsplit_once contains_char starts_with split split_items
    parse_via_params branch via_param find_param eq_ignore_ascii_case cseq split_whitespace
    words_from parse_unsigned digits_from parse_method named to_ascii_uppercase decimal decimal_from
    as_str
sms_key = refl

sms_not_ack : same_method message ack ≡ false
unfolding same_method
sms_not_ack = refl

sms_fresh : (claim_txn [] (codes "b|7|MESSAGE") 100).0 ≡ fresh
unfolding claim_txn lookup
sms_fresh = refl

everyone : source_allowed env.parse_ip cfg.allow phone.ip ≡ true
unfolding source_allowed
everyone = refl

on_request-twice_example :
    (txn : ServerTxn) × (lookup
        (codes "b|7|MESSAGE")
        (on_request env cfg core sms phone (reads_at 100)).0.server_cache
      ≡ some txn)
    × (on_request env cfg
          (on_request env cfg core sms phone (reads_at 100)).0
          sms
          phone
          (reads_at 200)
        ≡ ((on_request env cfg core sms phone (reads_at 100)).0, replayed txn phone))
on_request-twice_example =
    on_request-twice env cfg core sms phone phone (reads_at 100) (reads_at 200)
      (codes "b|7|MESSAGE") everyone everyone sms_not_ack sms_key sms_fresh (omega arith)
      (omega arith)

abbrev pub traffic : List CacheEvent
traffic =
    arrives (codes "a") 200 ∷ cleans_up 300 ∷ arrives (codes "b") 400 ∷ arrives (codes "a") 500 ∷ []

a_fresh : (claim_txn [] (codes "a") 100).0 ≡ fresh
unfolding claim_txn lookup
a_fresh = refl

claim_txn-claims_of_example :
    All IsRetransmission (claims_of (codes "a") (claim_txn [] (codes "a") 100).1 traffic)
claim_txn-claims_of_example = claim_txn-claims_of [] (codes "a") 100 traffic a_fresh (
  (omega arith, omega arith),
  ((omega arith, omega arith), ((omega arith, omega arith), ((omega arith, omega arith), tt))),
)

record_answer-claims_of_example :
    All
      (λ claim. claim ≡ answered (codes "ok"))
      (claims_of (codes "a") (record_answer [] (codes "a") 200 (codes "ok") 100) traffic)
record_answer-claims_of_example =
    record_answer-claims_of [] (codes "a") 200 (codes "ok") 100 traffic (omega arith)
      (
        (omega arith, omega arith),
        (
          (omega arith, omega arith),
          ((omega arith, omega arith), ((omega arith, omega arith), tt)),
        ),
      )
      (tt, (tt, (tt, (tt, tt))))
