-- ===== src/Uri/Params.antt =====
-- A parameter that is set is the one that is read.
use modem2sip.Common.{
  ℕ, ◌≡◌, refl, arith, true, false, List, [], ◌∷◌, ◌++◌, Option, some, Bool-cases, inl, inr,
}
use modem2sip.Text.{Text, codes}
use modem2sip.Text.Equal.{equal_self, equal→≡}
use modem2sip.Text.Ops.{lower, to_ascii_lowercase, eq_ignore_ascii_case}
use modem2sip.Uri.{Uri, NameAddr}
use modem2sip.Uri.Parse.{
  find_param, without_param, param, set_param, name_addr_value, set_name_addr_param, tag, with_tag,
}

lower_twice : (c : ℕ) → lower (lower c) ≡ lower c
lower_twice c = ground arith

to_ascii_lowercase_twice :
    (s : Text) → to_ascii_lowercase (to_ascii_lowercase s) ≡ to_ascii_lowercase s
unfolding to_ascii_lowercase
to_ascii_lowercase_twice [] = refl
to_ascii_lowercase_twice (c ∷ s) = rw (lower_twice c, to_ascii_lowercase_twice s)

pub eq_ignore_ascii_case_self : (s : Text) → eq_ignore_ascii_case s s ≡ true
unfolding eq_ignore_ascii_case
eq_ignore_ascii_case_self s = equal_self (to_ascii_lowercase s)

eq_ignore_ascii_case_lower : (s : Text) → eq_ignore_ascii_case (to_ascii_lowercase s) s ≡ true
unfolding eq_ignore_ascii_case
eq_ignore_ascii_case_lower s = rw (to_ascii_lowercase_twice s) (equal_self (to_ascii_lowercase s))

differ_alike :
    (name other k : Text)
    → eq_ignore_ascii_case name other ≡ false
    → eq_ignore_ascii_case k name ≡ true
    → eq_ignore_ascii_case k other ≡ false
unfolding eq_ignore_ascii_case
differ_alike name other k differ same =
    rw (equal→≡ (to_ascii_lowercase k) (to_ascii_lowercase name) same) differ

module _ {ℓ} {A : Type ℓ} where
  find_param-last :
      (name key : Text) (value : A) (ps : List (Text × A))
      → eq_ignore_ascii_case key name ≡ true
      → find_param name (without_param name ps ++ (key, value) ∷ []) ≡ some value
  unfolding find_param without_param
  find_param-last name key value [] same = rw same
  find_param-last name key value ((k, v) ∷ ps) same =
      elim (Bool-cases (eq_ignore_ascii_case k name)) [
        | inl dropped ↦ rw dropped (find_param-last name key value ps same)
        | inr kept ↦ rw (kept, find_param, kept) (find_param-last name key value ps same)
      ]

  find_param-other :
      (name other key : Text) (value : A) (ps : List (Text × A))
      → ((k : Text) → eq_ignore_ascii_case k name ≡ true → eq_ignore_ascii_case k other ≡ false)
      → eq_ignore_ascii_case key name ≡ true
      → find_param other (without_param name ps ++ (key, value) ∷ []) ≡ find_param other ps
  unfolding find_param without_param
  find_param-other name other key value [] differ same = rw (differ key same)
  find_param-other name other key value ((k, v) ∷ ps) differ same =
      let rest = find_param-other name other key value ps differ same in
      elim (Bool-cases (eq_ignore_ascii_case k name)) [
        | inl dropped ↦ rw (dropped, differ k dropped) rest
        | inr kept ↦ rw (kept, find_param, rest)
      ]

-- For every URI, name and value, the value that set_param gives a parameter is the one that
-- param then reads under that name, whatever parameters the URI had.
pub param-set_param :
    (u : Uri) (name : Text) (value : Option Text) → param (set_param u name value) name ≡ value
unfolding param set_param
param-set_param u name value =
    rw (find_param-last name name value u.params (eq_ignore_ascii_case_self name))

-- Setting a parameter of a name-addr gives it the value, and leaves a parameter whose name
-- differs by more than case as it was; with_tag sets what tag reads.
pub name_addr_value-set_name_addr_param :
    (a : NameAddr) (name other value : Text)
    → eq_ignore_ascii_case name other ≡ false
    → (name_addr_value (set_name_addr_param a name (some value)) name ≡ some value)
      × (name_addr_value (set_name_addr_param a name (some value)) other ≡ name_addr_value a other)
      × (tag (with_tag a value) ≡ some value)
unfolding name_addr_value set_name_addr_param
name_addr_value-set_name_addr_param a name other value differ = (
  find_param-last name (to_ascii_lowercase name) value a.params (eq_ignore_ascii_case_lower name),
  find_param-other name other (to_ascii_lowercase name) value a.params
      (λ k. differ_alike name other k differ) (eq_ignore_ascii_case_lower name),
  find_param-last (codes "tag") (to_ascii_lowercase (codes "tag")) value a.params
      (eq_ignore_ascii_case_lower (codes "tag")),
)
