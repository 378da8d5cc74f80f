-- ===== src/Sdp/FirstStream.antt =====
-- The first audio stream of a description is the one that counts.
use modem2sip.Common.{
  ℕ, ◌≡◌, refl, Bool, true, false, ◌||◌, not, List, [], ◌∷◌, Option, none, some, if◌then◌else◌,
  ◌==◌, Bool-cases, inl, inr,
}
use modem2sip.Text.{Text, codes}
use modem2sip.Text.Ops.{
  equal, split_once, strip_prefix, starts_with, to_ascii_lowercase, eq_ignore_ascii_case, trim,
  trim_end,
}
use modem2sip.Sdp.{Addresses}
use modem2sip.Sdp.Parse.{
  State, connection_line, media_words, media_line, rtpmap_words, direction_named, other_attribute,
  attribute, attribute_line, keyed_line, parse_line, parse_lines,
}
use modem2sip.Text.Words.{split_whitespace}

module _ (net : Addresses) where
  abbrev pub Stream : State net → ℕ → List ℕ → Type 0
  Stream st port pts = (st.port ≡ port) × (st.payload_types ≡ pts)

  Stream-if :
      (b : Bool) (x y : State net) (port : ℕ) (pts : List ℕ)
      → Stream x port pts
      → Stream y port pts
      → Stream (if b then x else y) port pts
  Stream-if true x y port pts h k = h
  Stream-if false x y port pts h k = k

  connection_line-Stream :
      (st : State net) (value : Text) (port : ℕ) (pts : List ℕ)
      → Stream st port pts
      → Stream (connection_line net st value) port pts
  unfolding connection_line
  connection_line-Stream st value port pts h = elim (Bool-cases st.seen_media) [
    | inl seen ↦ elim (Bool-cases st.in_audio) [
      | inl audio ↦ rw (seen, audio) h
      | inr other ↦ rw (seen, other) h
    ]
    | inr first ↦ rw first h
  ]

  media_words-Stream :
      (st : State net) (words : List Text) (port p : ℕ) (ps : List ℕ)
      → Stream st port (p ∷ ps)
      → Stream (media_words net st words) port (p ∷ ps)
  media_words-Stream st [] port p ps h = h
  media_words-Stream st (kind ∷ rest) port p ps h = elim (Bool-cases (equal kind (codes "audio"))) [
    | inl audio ↦ rw (audio, h.1) (h.0, refl)
    | inr other ↦ rw other h
  ]

  rtpmap_words-Stream :
      (st : State net) (words : List Text) (port : ℕ) (pts : List ℕ)
      → Stream st port pts
      → Stream (rtpmap_words net st words) port pts
  rtpmap_words-Stream st [] port pts h = h
  rtpmap_words-Stream st (a ∷ []) port pts h = h
  rtpmap_words-Stream st (pt ∷ enc ∷ rest) port pts h =
      Stream-if (starts_with (to_ascii_lowercase enc) (codes "telephone-event"))
        (record st { telephone_event = _ }) st port pts h h

  direction_named-Stream :
      (st : State net) (attr : Text) (port : ℕ) (pts : List ℕ)
      → Stream st port pts
      → Stream (direction_named net st attr) port pts
  direction_named-Stream st attr port pts h =
      Stream-if (eq_ignore_ascii_case attr (codes "sendonly")) _ _ port pts h (
        Stream-if (eq_ignore_ascii_case attr (codes "recvonly")) _ _ port pts h (
          Stream-if (eq_ignore_ascii_case attr (codes "inactive")) _ _ port pts h
            (Stream-if (eq_ignore_ascii_case attr (codes "sendrecv")) _ _ port pts h h)))

  other_attribute-Stream :
      (st : State net) (attr : Text) (rest : Option Text) (port : ℕ) (pts : List ℕ)
      → Stream st port pts
      → Stream (other_attribute net st attr rest) port pts
  other_attribute-Stream st attr (some rest) port pts h = h
  other_attribute-Stream st attr none port pts h = direction_named-Stream st attr port pts h

  attribute-Stream :
      (st : State net) (attr : Text) (rest : Option Text) (port : ℕ) (pts : List ℕ)
      → Stream st port pts
      → Stream (attribute net st attr rest) port pts
  attribute-Stream st attr (some rest) port pts h =
      rtpmap_words-Stream st (split_whitespace rest) port pts h
  attribute-Stream st attr none port pts h =
      other_attribute-Stream st attr (strip_prefix attr (codes "ptime:")) port pts h

  attribute_line-Stream :
      (st : State net) (value : Text) (port : ℕ) (pts : List ℕ)
      → Stream st port pts
      → Stream (attribute_line net st value) port pts
  unfolding attribute_line
  attribute_line-Stream st value port pts h =
      Stream-if (st.in_audio || not st.seen_media) _ _ port pts
        (attribute-Stream st (trim value) (strip_prefix (trim value) (codes "rtpmap:")) port pts h)
        h

  keyed_line-Stream :
      (st : State net) (line : Option (Text × Text)) (port p : ℕ) (ps : List ℕ)
      → Stream st port (p ∷ ps)
      → Stream (keyed_line net st line) port (p ∷ ps)
  unfolding media_line
  keyed_line-Stream st none port p ps h = h
  keyed_line-Stream st (some (key, value)) port p ps h =
      Stream-if (equal key (codes "c")) _ _ port (p ∷ ps)
        (connection_line-Stream st value port (p ∷ ps) h)
        (Stream-if (equal key (codes "m")) _ _ port (p ∷ ps)
          (media_words-Stream st (split_whitespace value) port p ps h)
          (Stream-if (equal key (codes "a")) _ _ port (p ∷ ps)
            (attribute_line-Stream st value port (p ∷ ps) h) h))

  -- Once the parser's state has the payload types of an audio stream, no later lines change
  -- them or the port, whatever further media, connections and attributes the description holds:
  -- the first audio stream wins.
  pub parse_lines-Stream :
      (st : State net) (lines : List Text) (port p : ℕ) (ps : List ℕ)
      → st.port ≡ port
      → st.payload_types ≡ p ∷ ps
      → ((parse_lines net st lines).port ≡ port)
        × ((parse_lines net st lines).payload_types ≡ p ∷ ps)
  unfolding parse_lines parse_line
  parse_lines-Stream st [] port p ps h k = (h, k)
  parse_lines-Stream st (l ∷ ls) port p ps h k =
      let (h', k') =
        keyed_line-Stream st (split_once b'=' (trim_end (λ c. c == 13) l)) port p ps (h, k) in
      parse_lines-Stream (parse_line net st l) ls port p ps h' k'
