-- ===== src/Tests/Dns.antt =====
-- DNS messages at concrete inputs.
use modem2sip.Common.{inl, inr, arith, ℕ, suc, ◌≡◌, ◌≢◌, refl, List, [], ◌∷◌, none, All}
use modem2sip.Text.{Bytes, Text, codes, from_utf8_lossy}
use modem2sip.Text.Ops.{eq_ignore_ascii_case, trim_end, trim_end_with}
use modem2sip.Dns.Names.{
  Result, ok, get_range, skip_name_loop, skip_name, read_name_round, read_name_loop, name_budget,
  read_name,
}
use modem2sip.Dns.Message.{
  trim_dots, IpAddr, v4, Answer, add_record, parse_record, parse_records, skip_questions,
  parse_answer,
}
use modem2sip.Dns.Resolver.{await_reply, SocketAddr, with_port, query_all_servers, lookup}
use modem2sip.Dns.Termination.{NotStuck, read_name-NotStuck}
use modem2sip.Dns.Family.{OfType, parse_answer-OfType}
use modem2sip.Dns.Lookup.{lookup-Reachable}
use modem2sip.Dns.Reply.{Asks, await_reply-ours}

-- A pointer to itself.
read_name-NotStuck_example : NotStuck (read_name (0xC0 ∷ 0 ∷ []) 0)
read_name-NotStuck_example = read_name-NotStuck (0xC0 ∷ 0 ∷ []) 0

-- One record of type A for the root.
abbrev one_address : Bytes
one_address =
    0 ∷ 7 ∷ 0x81 ∷ 0x80 ∷ 0 ∷ 0 ∷ 0 ∷ 1 ∷ 0 ∷ 0 ∷ 0 ∷ 0 ∷ 0 ∷ 0 ∷ 1 ∷ 0 ∷ 1 ∷ 0 ∷ 0 ∷ 0 ∷ 9 ∷ 0 ∷ 4
    ∷ 10 ∷ 0 ∷ 0 ∷ 1 ∷ []

abbrev the_address : Answer
the_address = record { addrs = v4 10 0 0 1 ∷ []; cname = none }

one_address_parsed : parse_answer one_address 7 1 ≡ ok the_address
unfolding parse_answer skip_questions parse_records parse_record skip_name skip_name_loop get_range
    add_record
one_address_parsed = refl

parse_answer-OfType_example : All (OfType 1) the_address.addrs
parse_answer-OfType_example = parse_answer-OfType one_address 7 1 the_address one_address_parsed

-- The question for the host `a`, echoed.
abbrev echo : Bytes
echo = 0 ∷ 7 ∷ 0x81 ∷ 0x80 ∷ 0 ∷ 1 ∷ 0 ∷ 0 ∷ 0 ∷ 0 ∷ 0 ∷ 0 ∷ 1 ∷ b'a' ∷ 0 ∷ 0 ∷ 1 ∷ 0 ∷ 1 ∷ []

echo-Asks : Asks (codes "a") 1 echo
unfolding read_name name_budget read_name_loop read_name_round skip_name skip_name_loop get_range
    from_utf8_lossy eq_ignore_ascii_case trim_dots trim_end trim_end_with
echo-Asks = (codes "a", 15, 0 ∷ 1 ∷ 0 ∷ 1 ∷ [], refl, refl, refl, refl, (refl, refl, refl))

-- The same reply with another number.
abbrev forged : Bytes
forged = 0 ∷ 8 ∷ 0x81 ∷ 0x80 ∷ 0 ∷ 1 ∷ 0 ∷ 0 ∷ 0 ∷ 0 ∷ 0 ∷ 0 ∷ 1 ∷ b'a' ∷ 0 ∷ 0 ∷ 1 ∷ 0 ∷ 1 ∷ []

await_reply-ours_example : await_reply 7 (codes "a") 1 (forged ∷ echo ∷ []) ≡ parse_answer echo 7 1
await_reply-ours_example =
    await_reply-ours 7 (codes "a") 1 (forged ∷ []) echo [] (inr (inl (omega arith)), tt)
      (omega arith) echo-Asks

-- A network that counts the queries and gives every host the same address.
abbrev answering : IpAddr → Text → ℕ → ℕ → Result Answer × ℕ
answering server host qtype w = (ok the_address, suc w)

abbrev found : List SocketAddr
found = with_port 80 (v4 10 0 0 1) ∷ []

lookup-found : (lookup answering (λ s. none) (v4 1 1 1 1 ∷ []) (codes "mmsc") 80 0).0 ≡ ok found
unfolding lookup query_all_servers
lookup-found = refl

lookup-Reachable_example : (found ≢ []) × All (λ a. a.port ≡ 80) found
lookup-Reachable_example =
    lookup-Reachable answering (λ s. none) (v4 1 1 1 1 ∷ []) (codes "mmsc") 80 0 found lookup-found
