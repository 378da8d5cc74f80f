-- ===== src/Sip/Headers.antt =====
-- `Headers`: a list of names, in canonical form, and values.
use modem2sip.Common.{
  ℕ, ◌≡◌, Bool, true, false, List, [], ◌∷◌, ◌++◌, Option, none, some, if◌then◌else◌, ◌==◌, ◌<◌,
}
use modem2sip.Text.{Text, codes}
use modem2sip.Text.Ops.{equal, to_ascii_lowercase, trim}
use modem2sip.Text.Words.{upper}

-- The arms of the `match`: the compact forms, and the names that they stand for.
abbrev pub compact_forms : List (Text × Text)
compact_forms =
    (codes "i", codes "call-id")
    ∷ (codes "m", codes "contact")
    ∷ (codes "f", codes "from")
    ∷ (codes "t", codes "to")
    ∷ (codes "v", codes "via")
    ∷ (codes "c", codes "content-type")
    ∷ (codes "l", codes "content-length")
    ∷ (codes "s", codes "subject")
    ∷ (codes "k", codes "supported")
    ∷ (codes "e", codes "content-encoding")
    ∷ (codes "o", codes "event")
    ∷ (codes "r", codes "refer-to")
    ∷ (codes "x", codes "session-expires")
    ∷ []

unfoldable pub full_form : List (Text × Text) → Text → Text
full_form [] name = name
full_form ((short, full) ∷ forms) name =
    let rest = full_form forms name in if equal name short then full else rest

unfoldable pub canonical : Text → Text
canonical name = full_form compact_forms (to_ascii_lowercase (trim name))

-- What the code takes from the target: the width of `usize`, and `char::to_uppercase`.
pub record Target : Type 0 where
  pub usize_max : ℕ
  pub to_uppercase : ℕ → Text

-- Unicode's upper case of an ASCII character.
pub record AsciiUpper (target : Target) : Type 0 where
  pub ascii : (c : ℕ) → c < 0x80 → target.to_uppercase c ≡ upper c ∷ []

module _ (target : Target) where
  -- The loop of `pretty`, with `upper` as the first argument.
  unfoldable pub title_case : Bool → Text → Text
  title_case up [] = []
  title_case true (c ∷ s) = target.to_uppercase c ++ title_case (c == b'-') s
  title_case false (c ∷ s) = c ∷ title_case (c == b'-') s

  unfoldable pub pretty : Text → Text
  pretty name =
      let canon = canonical name in
      if equal canon (codes "call-id")
      then codes "Call-ID"
      else if equal canon (codes "cseq")
      then codes "CSeq"
      else if equal canon (codes "www-authenticate")
      then codes "WWW-Authenticate"
      else if equal canon (codes "mime-version")
      then codes "MIME-Version"
      else title_case true canon

abbrev pub Headers : Type 0
Headers = List (Text × Text)

-- With the name in canonical form, the loops of the methods.
unfoldable pub find_header : Text → Headers → Option Text
find_header n [] = none
find_header n ((k, v) ∷ hs) = let rest = find_header n hs in if equal k n then some v else rest

unfoldable pub values_of : Text → Headers → List Text
values_of n [] = []
values_of n ((k, v) ∷ hs) = let rest = values_of n hs in if equal k n then v ∷ rest else rest

unfoldable pub without : Text → Headers → Headers
without n [] = []
without n ((k, v) ∷ hs) = let rest = without n hs in if equal k n then rest else (k, v) ∷ rest

unfoldable pub replace_or_push : Text → Text → Headers → Headers
replace_or_push n value [] = (n, value) ∷ []
replace_or_push n value ((k, v) ∷ hs) =
    let rest = replace_or_push n value hs in if equal k n then (k, value) ∷ hs else (k, v) ∷ rest

unfoldable pub get : Headers → Text → Option Text
get hs name = find_header (canonical name) hs

unfoldable pub get_all : Headers → Text → List Text
get_all hs name = values_of (canonical name) hs

unfoldable pub set : Headers → Text → Text → Headers
set hs name value = without (canonical name) hs ++ (canonical name, value) ∷ []

unfoldable pub push : Headers → Text → Text → Headers
push hs name value = hs ++ (canonical name, value) ∷ []

unfoldable pub replace_first : Headers → Text → Text → Headers
replace_first hs name value = replace_or_push (canonical name) value hs

unfoldable pub remove : Headers → Text → Headers
remove hs name = without (canonical name) hs
