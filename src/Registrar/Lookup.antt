-- ===== src/Registrar/Lookup.antt =====
-- What `contacts` and `newest` hand out.
use modem2sip.Common.{
  ℕ, ◌<◌, ◌≤◌, ◌≡◌, refl, arith, Bool, true, false, List, [], ◌∷◌, Option, none, some,
  if◌then◌else◌, ltb, leb, All, All-append, Bool-cases, inl, inr, ltb→lt,
}
use modem2sip.Text.{Text}
use modem2sip.Registrar.{
  Binding, Registrar, retain, keep_entry, expire, values, newer, max_by_registered, newest,
}

module _ {SocketAddr : Type 0} where
  abbrev IsLive : ℕ → Binding SocketAddr → Type 0
  IsLive now b = now < b.expires_at

  retain-IsLive :
      (now : ℕ) (bs : List (Binding SocketAddr))
      → All (IsLive now) (retain (λ b. ltb now b.expires_at) bs)
  unfolding retain
  retain-IsLive now [] = tt
  retain-IsLive now (b ∷ bs) = elim (Bool-cases (ltb now b.expires_at)) [
    | inl live ↦ rw (live, All) (ltb→lt now b.expires_at live, retain-IsLive now bs)
    | inr over ↦ rw over (retain-IsLive now bs)
  ]

  values-keep_entry :
      (now : ℕ) (k : Text) (bs : List (Binding SocketAddr)) (map : Registrar SocketAddr)
      → All (IsLive now) bs
      → All (IsLive now) (values map)
      → All (IsLive now) (values (keep_entry k bs map))
  unfolding values
  values-keep_entry now k [] map here there = there
  values-keep_entry now k (b ∷ bs) map here there =
      All-append (IsLive now) (b ∷ bs) (values map) here there

  pub values-expire :
      (now : ℕ) (map : Registrar SocketAddr) → All (IsLive now) (values (expire now map))
  unfolding expire values
  values-expire now [] = tt
  values-expire now ((k, bs) ∷ map) =
      values-keep_entry now k (retain (λ b. ltb now b.expires_at) bs) (expire now map)
        (retain-IsLive now bs) (values-expire now map)

  -- Everything in the list is at most as new, and lives.
  abbrev pub Newest : ℕ → List (Binding SocketAddr) → Option (Binding SocketAddr) → Type 0
  Newest now bs none = bs ≡ []
  Newest now bs (some m) = (now < m.expires_at) × All (λ b. b.registered_at ≤ m.registered_at) bs

  All-weaken :
      (m n : ℕ) (bs : List (Binding SocketAddr))
      → m ≤ n
      → All (λ b. b.registered_at ≤ m) bs
      → All (λ b. b.registered_at ≤ n) bs
  All-weaken m n [] le h = tt
  All-weaken m n (b ∷ bs) le h = (omega (arith, h.0), All-weaken m n bs le h.1)

  newer-Newest-if :
      (now : ℕ) (b c : Binding SocketAddr) (bs : List (Binding SocketAddr)) (older : Bool)
      → leb b.registered_at c.registered_at ≡ older
      → now < b.expires_at
      → Newest now bs (some c)
      → Newest now (b ∷ bs) (some (if older then c else b))
  newer-Newest-if now b c bs true e live rest = (rest.0, (ground arith, rest.1))
  newer-Newest-if now b c bs false e live rest =
      (live, (omega arith, All-weaken c.registered_at b.registered_at bs (ground arith) rest.1))

  newer-Newest :
      (now : ℕ) (b : Binding SocketAddr) (bs : List (Binding SocketAddr))
      (m : Option (Binding SocketAddr))
      → now < b.expires_at
      → Newest now bs m
      → Newest now (b ∷ bs) (some (newer b m))
  newer-Newest now b bs none live rest = rw rest (live, (omega arith, tt))
  newer-Newest now b bs (some c) live rest =
      newer-Newest-if now b c bs (leb b.registered_at c.registered_at) refl live rest

  max_by_registered-Newest :
      (now : ℕ) (bs : List (Binding SocketAddr))
      → All (IsLive now) bs
      → Newest now bs (max_by_registered bs)
  unfolding max_by_registered
  max_by_registered-Newest now [] live = refl
  max_by_registered-Newest now (b ∷ bs) live =
      newer-Newest now b bs (max_by_registered bs) live.0 (max_by_registered-Newest now bs live.1)

  -- After newest every binding in the map is unexpired; it returns none only if no binding is
  -- left, and otherwise an unexpired binding than which none in the map was registered later.
  pub newest-Newest :
      (map : Registrar SocketAddr) (now : ℕ)
      → All (λ b. now < b.expires_at) (values (newest map now).1)
        × Newest now (values (newest map now).1) (newest map now).0
  unfolding newest
  newest-Newest map now = (
    values-expire now map,
    max_by_registered-Newest now (values (expire now map)) (values-expire now map),
  )
