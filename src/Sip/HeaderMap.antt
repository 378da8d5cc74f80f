-- ===== src/Sip/HeaderMap.antt =====
-- The headers as a map from names to values.
use modem2sip.Common.{
  ◌≡◌, refl, ap, ◌∙◌, arith, true, false, List, [], ◌∷◌, ◌++◌, Option, none, some, if◌then◌else◌,
  Bool-cases, inl, inr,
}
use modem2sip.Text.{Text}
use modem2sip.Text.Ops.{equal}
use modem2sip.Text.Equal.{equal_self, equal→≡, equal_sym}
use modem2sip.Sip.Headers.{
  Headers, canonical, find_header, values_of, without, replace_or_push, get, get_all, set, push,
  replace_first, remove,
}

-- The first of two results.
abbrev pub or_first : Option Text → Option Text → Option Text
or_first none b = b
or_first (some a) b = some a

-- `equal` is an equivalence.
equal_alike : (k n m : Text) → equal k n ≡ true → equal k m ≡ equal n m
equal_alike k n m same = rw (equal→≡ k n same)

pub find_header-append :
    (m : Text) (hs ks : Headers)
    → find_header m (hs ++ ks) ≡ or_first (find_header m hs) (find_header m ks)
unfolding find_header
find_header-append m [] ks = refl
find_header-append m ((k, v) ∷ hs) ks = elim (Bool-cases (equal k m)) [
  | inl found ↦ rw found
  | inr other ↦ rw other (find_header-append m hs ks)
]

pub find_header-without :
    (n m : Text) (hs : Headers)
    → find_header m (without n hs) ≡ (if equal n m then none else find_header m hs)
unfolding find_header without
find_header-without n m [] = elim (Bool-cases (equal n m)) [ inl e ↦ rw e | inr e ↦ rw e ]
find_header-without n m ((k, v) ∷ hs) =
    let rest = find_header-without n m hs in
    elim (Bool-cases (equal k n)) [
      | inl dropped ↦ rw (dropped, equal_alike k n m dropped, rest) (ground arith)
      | inr kept ↦
          rw (kept, find_header, rest)
            (elim (Bool-cases (equal k m)) [
              | inl found ↦
                  let differ : equal n m ≡ false = rw (← equal→≡ k m found, equal_sym n k) kept in
                  rw (found, differ)
              | inr other ↦ rw other (ground arith)
            ])
    ]

pub find_header-replace_or_push :
    (n m value : Text) (hs : Headers)
    → find_header m (replace_or_push n value hs)
      ≡ (if equal n m then some value else find_header m hs)
unfolding find_header replace_or_push
find_header-replace_or_push n m value [] = refl
find_header-replace_or_push n m value ((k, v) ∷ hs) =
    let rest = find_header-replace_or_push n m value hs in
    elim (Bool-cases (equal k n)) [
      | inl here ↦ rw (here, find_header, equal_alike k n m here) (ground arith)
      | inr later ↦
          rw (later, find_header, rest)
            (elim (Bool-cases (equal k m)) [
              | inl found ↦
                  let differ : equal n m ≡ false = rw (← equal→≡ k m found, equal_sym n k) later in
                  rw (found, differ)
              | inr other ↦ rw other (ground arith)
            ])
    ]

set_one :
    (n m value : Text) (before : Option Text)
    → or_first (if equal n m then none else before) (if equal n m then some value else none)
      ≡ (if equal n m then some value else or_first before none)
set_one n m value before = ground arith

or_first-none : (o : Option Text) → or_first o none ≡ o
or_first-none none = refl
or_first-none (some a) = refl

find_header-one :
    (m n value : Text) → find_header m ((n, value) ∷ []) ≡ (if equal n m then some value else none)
unfolding find_header
find_header-one m n value = refl

find_header-push :
    (m n value : Text) (hs : Headers)
    → find_header m (hs ++ (n, value) ∷ [])
      ≡ or_first (find_header m hs) (if equal n m then some value else none)
find_header-push m n value hs =
    find_header-append m hs ((n, value) ∷ [])
    ∙ ap (or_first (find_header m hs)) (find_header-one m n value)

pub find_header-set :
    (m n value : Text) (hs : Headers)
    → find_header m (without n hs ++ (n, value) ∷ [])
      ≡ (if equal n m then some value else find_header m hs)
find_header-set m n value hs =
    find_header-push m n value (without n hs)
    ∙ ap (λ (o : Option Text). or_first o (if equal n m then some value else none))
        (find_header-without n m hs)
    ∙ set_one n m value (find_header m hs)
    ∙ ap (λ (o : Option Text). if equal n m then some value else o)
        (or_first-none (find_header m hs))

-- The list of headers implements a map under canonical names: after set and replace_first get
-- gives the new value for every spelling of the name and what it gave before for any other,
-- after remove it gives nothing for the name, and after push the value that was first stays
-- first.
pub get-set :
    (hs : Headers) (name other value : Text)
    → (get (set hs name value) other
        ≡ (if equal (canonical name) (canonical other) then some value else get hs other))
      × (get (replace_first hs name value) other
          ≡ (if equal (canonical name) (canonical other) then some value else get hs other))
      × (get (remove hs name) other
          ≡ (if equal (canonical name) (canonical other) then none else get hs other))
      × (get (push hs name value) other
          ≡ or_first
              (get hs other)
              (if equal (canonical name) (canonical other) then some value else none))
unfolding get set push replace_first remove
get-set hs name other value = (
  find_header-set (canonical other) (canonical name) value hs,
  find_header-replace_or_push (canonical name) (canonical other) value hs,
  find_header-without (canonical name) (canonical other) hs,
  find_header-push (canonical other) (canonical name) value hs,
)

abbrev pub tail_of : List Text → List Text
tail_of [] = []
tail_of (v ∷ vs) = vs

values_of-replace_or_push :
    (n value : Text) (hs : Headers)
    → values_of n (replace_or_push n value hs) ≡ value ∷ tail_of (values_of n hs)
unfolding values_of replace_or_push
values_of-replace_or_push n value [] = rw (equal_self n)
values_of-replace_or_push n value ((k, v) ∷ hs) = elim (Bool-cases (equal k n)) [
  | inl here ↦ rw (here, values_of, here)
  | inr later ↦ rw (later, values_of, later) (values_of-replace_or_push n value hs)
]

values_of-replace_or_push_other :
    (n m value : Text) (hs : Headers)
    → equal n m ≡ false
    → values_of m (replace_or_push n value hs) ≡ values_of m hs
unfolding values_of replace_or_push
values_of-replace_or_push_other n m value [] differ = rw differ
values_of-replace_or_push_other n m value ((k, v) ∷ hs) differ = elim (Bool-cases (equal k n)) [
  | inl here ↦
      let other : equal k m ≡ false = equal_alike k n m here ∙ differ in rw (here, values_of, other)
  | inr later ↦ rw (later, values_of, values_of-replace_or_push_other n m value hs differ)
]

-- replace_first changes the topmost value of a name and leaves its further values, and all
-- values of a name that differs in canonical form, as they were and in order.
pub get_all-replace_first :
    (hs : Headers) (name other value : Text)
    → equal (canonical name) (canonical other) ≡ false
    → (get_all (replace_first hs name value) name ≡ value ∷ tail_of (get_all hs name))
      × (get_all (replace_first hs name value) other ≡ get_all hs other)
unfolding get_all replace_first
get_all-replace_first hs name other value differ = (
  values_of-replace_or_push (canonical name) value hs,
  values_of-replace_or_push_other (canonical name) (canonical other) value hs differ,
)

pub values_of-append :
    (m : Text) (hs ks : Headers) → values_of m (hs ++ ks) ≡ values_of m hs ++ values_of m ks
unfolding values_of
values_of-append m [] ks = refl
values_of-append m ((k, v) ∷ hs) ks = elim (Bool-cases (equal k m)) [
  | inl found ↦ rw found (ap (◌∷◌ v) (values_of-append m hs ks))
  | inr other ↦ rw other (values_of-append m hs ks)
]

pub values_of-without :
    (n m : Text) (hs : Headers) → equal n m ≡ false → values_of m (without n hs) ≡ values_of m hs
unfolding values_of without
values_of-without n m [] differ = refl
values_of-without n m ((k, v) ∷ hs) differ =
    let rest = values_of-without n m hs differ in
    elim (Bool-cases (equal k n)) [
      | inl dropped ↦
          let other : equal k m ≡ false = equal_alike k n m dropped ∙ differ in
          rw (dropped, other) rest
      | inr kept ↦ rw (kept, values_of, rest)
    ]
