-- ===== src/Core/Addresses.antt =====
-- Which source addresses are allowed, and which entries a Contact field holds.
use Prim.Native.Nat.{bit_and}
use modem2sip.Common.{
  ℕ, ◌-◌, ◌*◌, ◌^◌, ◌%◌, Bool, true, false, ◌&&◌, not, List, [], ◌∷◌, Option, none, some,
  if◌then◌else◌, ◌==◌, leb,
}
use modem2sip.Text.{Text}
use modem2sip.Text.Ops.{trim, split_once, parse_unsigned}
use modem2sip.Sip.Via.{u32_max}

-- `IpAddr`: an address is the number of its 32 or 128 bits.
pub data IpAddr : Type 0 where
  v4 : ℕ → IpAddr
  v6 : ℕ → IpAddr

abbrev pub same_address : IpAddr → IpAddr → Bool
same_address (v4 a) (v4 b) = a == b
same_address (v6 a) (v6 b) = a == b
same_address _ _ = false

-- `MAX << (width - prefix)`, with the bits that leave the integer dropped, and no bits for a prefix of 0.
abbrev pub mask : ℕ → ℕ → ℕ
mask width prefix = if prefix == 0 then 0 else (2 ^ width - 1) * 2 ^ (width - prefix) % 2 ^ width

abbrev pub in_network : ℕ → ℕ → ℕ → ℕ → Bool
in_network width net prefix ip =
    leb prefix width && bit_and net (mask width prefix) == bit_and ip (mask width prefix)

abbrev pub same_network : IpAddr → ℕ → IpAddr → Bool
same_network (v4 n) prefix (v4 a) = in_network 32 n prefix a
same_network (v6 n) prefix (v6 a) = in_network 128 n prefix a
same_network _ prefix _ = false

-- `parse::<IpAddr>()` is the standard library's.
module _ (parse_ip : Text → Option IpAddr) where
  abbrev pub network_matches : Option IpAddr → Option ℕ → IpAddr → Bool
  network_matches (some net) (some prefix) ip = same_network net prefix ip
  network_matches _ _ ip = false

  abbrev pub address_matches : Option IpAddr → IpAddr → Bool
  address_matches none ip = false
  address_matches (some r) ip = same_address r ip

  abbrev pub rule_matches : Text → Option (Text × Text) → IpAddr → Bool
  rule_matches rule none ip = address_matches (parse_ip rule) ip
  rule_matches rule (some (net, prefix)) ip =
      network_matches (parse_ip (trim net)) (parse_unsigned u32_max (trim prefix)) ip

  unfoldable pub ip_matches : Text → IpAddr → Bool
  ip_matches rule ip = rule_matches (trim rule) (split_once b'/' (trim rule)) ip

  unfoldable pub any_rule : List Text → IpAddr → Bool
  any_rule [] ip = false
  any_rule (r ∷ rules) ip = let rest = any_rule rules ip in if ip_matches r ip then true else rest

  -- An empty list of rules allows everyone.
  unfoldable pub source_allowed : List Text → IpAddr → Bool
  source_allowed [] ip = true
  source_allowed (r ∷ rules) ip = any_rule (r ∷ rules) ip

-- The entry that is being read, and those behind it.
abbrev pub cons_entry : ℕ → Text × List Text → Text × List Text
cons_entry c (entry, others) = (c ∷ entry, others)

abbrev pub new_entry : Text × List Text → Text × List Text
new_entry (entry, others) = ([], entry ∷ others)

-- The arms of the `match`: the two flags behind a character, and whether it ends an entry.
abbrev pub after_quote : Bool → Bool → ℕ → Bool
after_quote in_angle in_quote c = if c == b'"' && not in_angle then not in_quote else in_quote

abbrev pub after_angle : Bool → Bool → ℕ → Bool
after_angle in_angle in_quote c =
    if in_quote then in_angle else if c == b'<' then true else if c == b'>' then false else in_angle

abbrev pub ends_entry : Bool → Bool → ℕ → Bool
ends_entry in_angle in_quote c = c == b',' && (not in_angle && not in_quote)

-- The loop of `split_contacts`, with `in_angle` and `in_quote` as they are before the character.
unfoldable pub contact_entries : Bool → Bool → Text → Text × List Text
contact_entries in_angle in_quote [] = ([], [])
contact_entries in_angle in_quote (c ∷ s) =
    let behind =
      contact_entries (after_angle in_angle in_quote c) (after_quote in_angle in_quote c) s in
    if ends_entry in_angle in_quote c then new_entry behind else cons_entry c behind

abbrev pub push_entry : Text → List Text → List Text
push_entry [] entries = entries
push_entry (c ∷ s) entries = (c ∷ s) ∷ entries

unfoldable pub trimmed_entries : List Text → List Text
trimmed_entries [] = []
trimmed_entries (e ∷ es) = push_entry (trim e) (trimmed_entries es)

unfoldable pub split_contacts : Text → List Text
split_contacts field =
    let (first, others) = contact_entries false false field in trimmed_entries (first ∷ others)
