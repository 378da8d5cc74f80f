-- ===== src/Text/Table.antt =====
-- A `HashMap` with texts for keys, as the list of its entries.
use modem2sip.Common.{
  ◌≡◌, refl, ap, subst, Bool, true, false, List, [], ◌∷◌, Option, none, some, if◌then◌else◌,
  Bool-cases, inl, inr,
}
use modem2sip.Text.{Text}
use modem2sip.Text.Ops.{equal}
use modem2sip.Text.Equal.{equal_self, equal→≡}

abbrev pub Table {ℓ} : Type ℓ → Type ℓ
Table V = List (Text × V)

module _ {ℓ} {V : Type ℓ} where
  unfoldable pub lookup : Text → Table V → Option V
  lookup key [] = none
  lookup key ((k, v) ∷ table) = let rest = lookup key table in if equal k key then some v else rest

  unfoldable pub delete : Text → Table V → Table V
  delete key [] = []
  delete key ((k, v) ∷ table) =
      let rest = delete key table in if equal k key then rest else (k, v) ∷ rest

  unfoldable pub insert : Text → V → Table V → Table V
  insert key v table = (key, v) ∷ delete key table

  -- `HashMap::retain`, by the value.
  unfoldable pub keep_values : (V → Bool) → Table V → Table V
  keep_values test [] = []
  keep_values test ((k, v) ∷ table) =
      let rest = keep_values test table in if test v then (k, v) ∷ rest else rest

  pub lookup-delete :
      (key other : Text) (table : Table V)
      → equal key other ≡ false
      → lookup other (delete key table) ≡ lookup other table
  unfolding lookup delete
  lookup-delete key other [] differ = refl
  lookup-delete key other ((k, v) ∷ table) differ =
      let rest = lookup-delete key other table differ in
      elim (Bool-cases (equal k key)) [
        | inl dropped ↦
            let kept : equal k other ≡ false = rw (equal→≡ k key dropped) differ in
            rw (dropped, kept) rest
        | inr kept ↦ rw (kept, lookup, rest)
      ]

  pub lookup-delete_same : (key : Text) (table : Table V) → lookup key (delete key table) ≡ none
  unfolding lookup delete
  lookup-delete_same key [] = refl
  lookup-delete_same key ((k, v) ∷ table) = elim (Bool-cases (equal k key)) [
    | inl dropped ↦ rw dropped (lookup-delete_same key table)
    | inr kept ↦ rw (kept, lookup, kept) (lookup-delete_same key table)
  ]

  pub lookup-insert :
      (key : Text) (v : V) (table : Table V) → lookup key (insert key v table) ≡ some v
  unfolding lookup insert
  lookup-insert key v table = rw (equal_self key)

  pub lookup-insert_other :
      (key other : Text) (v : V) (table : Table V)
      → equal key other ≡ false
      → lookup other (insert key v table) ≡ lookup other table
  unfolding lookup insert
  lookup-insert_other key other v table differ = rw differ (lookup-delete key other table differ)

  abbrev got : V → Option V → V
  got v none = v
  got v (some w) = w

  -- An entry that passes the test stays, when it is the first of its key.
  pub lookup-keep_values :
      (test : V → Bool) (key : Text) (v : V) (table : Table V)
      → lookup key table ≡ some v
      → test v ≡ true
      → lookup key (keep_values test table) ≡ some v
  unfolding lookup keep_values
  lookup-keep_values test key v [] found passes = found
  lookup-keep_values test key v ((k, w) ∷ table) found passes = elim (Bool-cases (equal k key)) [
    | inl here ↦
        let first : some w ≡ some v =
          subst (λ b. (if b then some w else lookup key table) ≡ some v) here found in
        let same : w ≡ v = ap (got v) first in rw (same, passes, lookup, here)
    | inr later ↦
        let behind : lookup key table ≡ some v =
          subst (λ b. (if b then some w else lookup key table) ≡ some v) later found in
        let rest = lookup-keep_values test key v table behind passes in
        elim (Bool-cases (test w)) [
          | inl kept ↦ rw (kept, lookup, later) rest
          | inr dropped ↦ rw dropped rest
        ]
  ]
