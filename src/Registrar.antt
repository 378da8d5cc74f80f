-- ===== src/Registrar.antt =====
-- src/sip/registrar.rs: the bindings of each address of record. The map is a list of its entries,
-- each key once; time is a number, and `Instant::now()` a parameter.
pub mod Invariant
pub mod Lookup
use modem2sip.Common.{
  ℕ, zero, suc, ◌+◌, ◌*◌, Bool, true, false, not, List, [], ◌∷◌, ◌++◌, Option, none, some,
  if◌then◌else◌, ltb, leb, ◌==◌,
}
use modem2sip.Text.{Text}
use modem2sip.Text.Ops.{equal}
use modem2sip.Uri.{NameAddr, bare}
use modem2sip.Uri.Parse.{uri_text}

-- Instants count nanoseconds.
abbrev pub from_secs : ℕ → ℕ
from_secs n = n * 1000000000

-- `SocketAddr` is a parameter: it is stored and handed back.
module _ (SocketAddr : Type 0) where
  pub record Binding : Type 0 where
    pub contact : NameAddr
    pub source : SocketAddr
    pub expires_at : ℕ
    pub registered_at : ℕ

  abbrev pub Registrar : Type 0
  Registrar = List (Text × List Binding)

module _ {SocketAddr : Type 0} where
  -- `b.contact.uri.bare().to_string()`.
  abbrev pub contact_key : Binding SocketAddr → Text
  contact_key b = uri_text (bare b.contact.uri)

  unfoldable pub retain :
      (Binding SocketAddr → Bool) → List (Binding SocketAddr) → List (Binding SocketAddr)
  retain test [] = []
  retain test (b ∷ bs) = let rest = retain test bs in if test b then b ∷ rest else rest

  unfoldable pub get : Text → Registrar SocketAddr → List (Binding SocketAddr)
  get aor [] = []
  get aor ((k, bs) ∷ map) = let rest = get aor map in if equal k aor then bs else rest

  unfoldable pub remove : Text → Registrar SocketAddr → Registrar SocketAddr
  remove aor [] = []
  remove aor ((k, bs) ∷ map) =
      let rest = remove aor map in if equal k aor then rest else (k, bs) ∷ rest

  -- The entry with a list that may have become empty.
  abbrev pub put : Text → List (Binding SocketAddr) → Registrar SocketAddr → Registrar SocketAddr
  put aor [] map = remove aor map
  put aor (b ∷ bs) map = (aor, b ∷ bs) ∷ remove aor map

  unfoldable pub update_list :
      List (Binding SocketAddr) → NameAddr → SocketAddr → ℕ → ℕ → ℕ → List (Binding SocketAddr)
  update_list list contact source expires now later =
      let others = retain (λ b. not (equal (contact_key b) (uri_text (bare contact.uri)))) list in
      if ltb 0 expires
      then others
        ++ record {
          contact = contact;
          source = source;
          expires_at = now + from_secs expires;
          registered_at = later;
        }
          ∷ []
      else others

  -- `now` and `later` are the two readings of the clock.
  unfoldable pub update :
      Registrar SocketAddr → Text → NameAddr → SocketAddr → ℕ → ℕ → ℕ → Registrar SocketAddr
  update map aor contact source expires now later =
      put aor (update_list (get aor map) contact source expires now later) map

  unfoldable pub remove_all : Registrar SocketAddr → Text → Registrar SocketAddr
  remove_all map aor = remove aor map

  abbrev pub keep_entry :
      Text → List (Binding SocketAddr) → Registrar SocketAddr → Registrar SocketAddr
  keep_entry aor [] map = map
  keep_entry aor (b ∷ bs) map = (aor, b ∷ bs) ∷ map

  unfoldable pub expire : ℕ → Registrar SocketAddr → Registrar SocketAddr
  expire now [] = []
  expire now ((k, bs) ∷ map) = keep_entry k (retain (λ b. ltb now b.expires_at) bs) (expire now map)

  -- The result and the map after it.
  unfoldable pub contacts :
      Registrar SocketAddr → Text → ℕ → List (Binding SocketAddr) × Registrar SocketAddr
  contacts map aor now = (get aor (expire now map), expire now map)

  unfoldable pub values : Registrar SocketAddr → List (Binding SocketAddr)
  values [] = []
  values ((k, bs) ∷ map) = bs ++ values map

  -- `max_by_key(|b| b.registered_at)`: the last of the greatest.
  abbrev pub newer : Binding SocketAddr → Option (Binding SocketAddr) → Binding SocketAddr
  newer b none = b
  newer b (some c) = if leb b.registered_at c.registered_at then c else b

  unfoldable pub max_by_registered : List (Binding SocketAddr) → Option (Binding SocketAddr)
  max_by_registered [] = none
  max_by_registered (b ∷ bs) = some (newer b (max_by_registered bs))

  unfoldable pub newest :
      Registrar SocketAddr → ℕ → Option (Binding SocketAddr) × Registrar SocketAddr
  newest map now = (max_by_registered (values (expire now map)), expire now map)
