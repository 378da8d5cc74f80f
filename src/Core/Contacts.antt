-- ===== src/Core/Contacts.antt =====
-- A Contact field without quotes and angle brackets is split at its commas.
use modem2sip.Common.{
  ℕ, ◌≡◌, refl, arith, false, List, [], ◌∷◌, ◌==◌, All, Bool-cases, inl, inr, if◌then◌else◌,
}
use modem2sip.Text.{Text}
use modem2sip.Text.Ops.{split, split_items, split_cons}
use modem2sip.Core.Addresses.{
  after_quote, after_angle, ends_entry, cons_entry, new_entry, contact_entries, trimmed_entries,
  split_contacts,
}

abbrev pub IsPlain : ℕ → Type 0
IsPlain c = ((c == b'"') ≡ false) × ((c == b'<') ≡ false) × ((c == b'>') ≡ false)

plain_step :
    (c : ℕ) (p : Text × List Text)
    → (if c == b',' then new_entry p else cons_entry c p) ≡ split_cons c (c == b',') p
plain_step c (entry, others) = elim (Bool-cases (c == b',')) [
  | inl comma ↦ rw comma
  | inr other ↦ rw other
]

contact_entries-plain :
    (s : Text) → All IsPlain s → contact_entries false false s ≡ split_items b',' s
unfolding contact_entries split_items
contact_entries-plain [] plain = refl
contact_entries-plain (c ∷ s) (here, later) =
    let rest = contact_entries-plain s later in
    let no_quote : after_quote false false c ≡ false = ground (arith, here.0) in
    let no_angle : after_angle false false c ≡ false = ground (arith, here.1, here.2) in
    let comma : ends_entry false false c ≡ (c == b',') = ground arith in
    rw (no_quote, no_angle, comma, rest) (plain_step c (split_items b',' s))

-- A Contact field without quotation marks and angle brackets is split at every comma into its
-- entries, trimmed and without the empty ones.
pub split_contacts-split :
    (field : Text) → All IsPlain field → split_contacts field ≡ trimmed_entries (split b',' field)
unfolding split_contacts split
split_contacts-split field plain = rw (contact_entries-plain field plain)
