-- ===== src/Registrar/Invariant.antt =====
-- One binding per contact in each list, and no list empty.
use modem2sip.Common.{
  ℕ, ◌≡◌, ◌≢◌, refl, arith, Bool, true, false, not, List, [], ◌∷◌, ◌++◌, ltb, All, All-append,
  Bool-cases, inl, inr,
}
use modem2sip.Text.{Text}
use modem2sip.Text.Ops.{equal}
use modem2sip.Uri.{NameAddr, bare}
use modem2sip.Uri.Parse.{uri_text}
use modem2sip.Registrar.{
  Binding, Registrar, contact_key, retain, get, remove, put, update_list, update, remove_all,
  keep_entry, expire, contacts, newest,
}

not-true : (b : Bool) → not b ≡ true → b ≡ false
not-true true h = ground arith
not-true false h = refl

module _ {SocketAddr : Type 0} where
  abbrev Differs : Text → Binding SocketAddr → Type 0
  Differs key b = equal (contact_key b) key ≡ false

  -- No two bindings of a list have one contact.
  unfoldable pub Distinct : List (Binding SocketAddr) → Type 0
  Distinct [] = Unit
  Distinct (b ∷ bs) = All (λ c. equal (contact_key b) (contact_key c) ≡ false) bs × Distinct bs

  -- Each entry has bindings, of different contacts.
  unfoldable pub IsRegistrar : Registrar SocketAddr → Type 0
  unfolding Distinct
  IsRegistrar [] = Unit
  IsRegistrar ((k, bs) ∷ map) = (bs ≢ []) × Distinct bs × IsRegistrar map

  All-retain :
      (P : Binding SocketAddr → Type 0) (test : Binding SocketAddr → Bool)
      (bs : List (Binding SocketAddr))
      → All P bs
      → All P (retain test bs)
  unfolding retain
  All-retain P test [] h = tt
  All-retain P test (b ∷ bs) h = elim (Bool-cases (test b)) [
    | inl kept ↦ rw (kept, All) (h.0, All-retain P test bs h.1)
    | inr dropped ↦ rw dropped (All-retain P test bs h.1)
  ]

  retain-Distinct :
      (test : Binding SocketAddr → Bool) (bs : List (Binding SocketAddr))
      → Distinct bs
      → Distinct (retain test bs)
  unfolding retain Distinct
  retain-Distinct test [] h = tt
  retain-Distinct test (b ∷ bs) h = elim (Bool-cases (test b)) [
    | inl kept ↦
        rw (kept, Distinct)
          (
            All-retain (λ c. equal (contact_key b) (contact_key c) ≡ false) test bs h.0,
            retain-Distinct test bs h.1,
          )
    | inr dropped ↦ rw dropped (retain-Distinct test bs h.1)
  ]

  retain-Differs :
      (key : Text) (bs : List (Binding SocketAddr))
      → All (Differs key) (retain (λ b. not (equal (contact_key b) key)) bs)
  unfolding retain
  retain-Differs key [] = tt
  retain-Differs key (b ∷ bs) = elim (Bool-cases (not (equal (contact_key b) key))) [
    | inl kept ↦ rw (kept, All) (not-true (equal (contact_key b) key) kept, retain-Differs key bs)
    | inr dropped ↦ rw dropped (retain-Differs key bs)
  ]

  Distinct-snoc :
      (bs : List (Binding SocketAddr)) (b : Binding SocketAddr)
      → Distinct bs
      → All (Differs (contact_key b)) bs
      → Distinct (bs ++ b ∷ [])
  unfolding Distinct
  Distinct-snoc [] b h k = (tt, tt)
  Distinct-snoc (c ∷ bs) b h k = (
    All-append (λ d. equal (contact_key c) (contact_key d) ≡ false) bs (b ∷ []) h.0 (k.0, tt),
    Distinct-snoc bs b h.1 k.1,
  )

  update_list-Distinct :
      (list : List (Binding SocketAddr)) (contact : NameAddr) (source : SocketAddr)
      (expires now later : ℕ)
      → Distinct list
      → Distinct (update_list list contact source expires now later)
  unfolding update_list
  update_list-Distinct list contact source expires now later h =
      let key = uri_text (bare contact.uri) in
      let others = retain-Distinct (λ b. not (equal (contact_key b) key)) list h in
      elim (Bool-cases (ltb 0 expires)) [
        | inl added ↦ rw added (Distinct-snoc _ _ others (retain-Differs key list))
        | inr removed ↦ rw removed others
      ]

  get-Distinct :
      (aor : Text) (map : Registrar SocketAddr) → IsRegistrar map → Distinct (get aor map)
  unfolding get IsRegistrar Distinct
  get-Distinct aor [] h = tt
  get-Distinct aor ((k, bs) ∷ map) h = elim (Bool-cases (equal k aor)) [
    | inl found ↦ rw found (h.1)
    | inr other ↦ rw other (get-Distinct aor map h.2)
  ]

  remove-IsRegistrar :
      (aor : Text) (map : Registrar SocketAddr) → IsRegistrar map → IsRegistrar (remove aor map)
  unfolding remove IsRegistrar
  remove-IsRegistrar aor [] h = tt
  remove-IsRegistrar aor ((k, bs) ∷ map) h = elim (Bool-cases (equal k aor)) [
    | inl found ↦ rw found (remove-IsRegistrar aor map h.2)
    | inr other ↦ rw (other, IsRegistrar) (h.0, h.1, remove-IsRegistrar aor map h.2)
  ]

  put-IsRegistrar :
      (aor : Text) (bs : List (Binding SocketAddr)) (map : Registrar SocketAddr)
      → Distinct bs
      → IsRegistrar map
      → IsRegistrar (put aor bs map)
  unfolding IsRegistrar
  put-IsRegistrar aor [] map h k = remove-IsRegistrar aor map k
  put-IsRegistrar aor (b ∷ bs) map h k = ((λ e. ground arith), h, remove-IsRegistrar aor map k)

  keep_entry-IsRegistrar :
      (aor : Text) (bs : List (Binding SocketAddr)) (map : Registrar SocketAddr)
      → Distinct bs
      → IsRegistrar map
      → IsRegistrar (keep_entry aor bs map)
  unfolding IsRegistrar
  keep_entry-IsRegistrar aor [] map h k = k
  keep_entry-IsRegistrar aor (b ∷ bs) map h k = ((λ e. ground arith), h, k)

  expire-IsRegistrar :
      (now : ℕ) (map : Registrar SocketAddr) → IsRegistrar map → IsRegistrar (expire now map)
  unfolding expire IsRegistrar
  expire-IsRegistrar now [] h = tt
  expire-IsRegistrar now ((k, bs) ∷ map) h =
      keep_entry-IsRegistrar k (retain (λ b. ltb now b.expires_at) bs) (expire now map)
        (retain-Distinct (λ b. ltb now b.expires_at) bs h.1) (expire-IsRegistrar now map h.2)

  -- From a well-formed registrar (no empty list, and no two bindings of one contact in a list),
  -- update with any contact and expiry, remove_all, and the expiry in contacts and newest leave
  -- it well formed.
  pub update-IsRegistrar :
      (map : Registrar SocketAddr) (aor : Text) (contact : NameAddr) (source : SocketAddr)
      (expires now later : ℕ)
      → IsRegistrar map
      → IsRegistrar (update map aor contact source expires now later)
        × IsRegistrar (remove_all map aor)
        × IsRegistrar (contacts map aor now).1
        × IsRegistrar (newest map now).1
  unfolding update remove_all contacts newest
  update-IsRegistrar map aor contact source expires now later h = (
    put-IsRegistrar aor (update_list (get aor map) contact source expires now later) map
        (update_list-Distinct (get aor map) contact source expires now later
          (get-Distinct aor map h))
        h,
    remove-IsRegistrar aor map h,
    expire-IsRegistrar now map h,
    expire-IsRegistrar now map h,
  )
