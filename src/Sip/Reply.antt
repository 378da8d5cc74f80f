-- ===== src/Sip/Reply.antt =====
-- What a response takes over from its request.
use modem2sip.Common.{
  ℕ, ◌≡◌, refl, sym, ap, ◌∙◌, false, List, [], ◌∷◌, ◌++◌, Option, none, some, append_assoc,
  append-nil,
}
use modem2sip.Text.{Text, codes}
use modem2sip.Text.Ops.{
  equal, to_ascii_lowercase, trim, trim_matches, trim_start, trim_end, trim_end_with, is_whitespace,
}
use modem2sip.Text.Equal.{equal_self}
use modem2sip.Sip.Headers.{
  Headers, canonical, full_form, find_header, values_of, without, get, get_all, set, push,
}
use modem2sip.Sip.Message.{Request}
use modem2sip.Sip.Encode.{push_all, set_some, reply_headers, reply}
use modem2sip.Sip.HeaderMap.{get-set, values_of-append, values_of-without, or_first}

values_of-one : (n value : Text) → values_of n ((n, value) ∷ []) ≡ value ∷ []
unfolding values_of
values_of-one n value = rw (equal_self n)

values_of-other : (n m value : Text) → equal n m ≡ false → values_of m ((n, value) ∷ []) ≡ []
unfolding values_of
values_of-other n m value other = rw other

get_all-push_all :
    (hs : Headers) (name : Text) (vs : List Text)
    → get_all (push_all hs name vs) name ≡ get_all hs name ++ vs
unfolding push_all get_all push
get_all-push_all hs name [] = sym (append-nil (values_of (canonical name) hs))
get_all-push_all hs name (v ∷ vs) =
    get_all-push_all (hs ++ (canonical name, v) ∷ []) name vs
    ∙ ap (λ (l : List Text). l ++ vs)
        (values_of-append (canonical name) hs ((canonical name, v) ∷ [])
          ∙ ap (λ (l : List Text). values_of (canonical name) hs ++ l)
              (values_of-one (canonical name) v))
    ∙ append_assoc (values_of (canonical name) hs) (v ∷ []) vs

get_all-push_all_other :
    (hs : Headers) (name other : Text) (vs : List Text)
    → equal (canonical name) (canonical other) ≡ false
    → get_all (push_all hs name vs) other ≡ get_all hs other
unfolding push_all get_all push
get_all-push_all_other hs name other [] d = refl
get_all-push_all_other hs name other (v ∷ vs) d =
    get_all-push_all_other (hs ++ (canonical name, v) ∷ []) name other vs d
    ∙ values_of-append (canonical other) hs ((canonical name, v) ∷ [])
    ∙ ap (λ (l : List Text). values_of (canonical other) hs ++ l)
        (values_of-other (canonical name) (canonical other) v d)
    ∙ append-nil (values_of (canonical other) hs)

get_all-set_some :
    (hs : Headers) (name other : Text) (v : Option Text)
    → equal (canonical name) (canonical other) ≡ false
    → get_all (set_some hs name v) other ≡ get_all hs other
unfolding get_all set
get_all-set_some hs name other none d = refl
get_all-set_some hs name other (some v) d =
    values_of-append (canonical other) (without (canonical name) hs) ((canonical name, v) ∷ [])
    ∙ ap (λ (l : List Text). values_of (canonical other) (without (canonical name) hs) ++ l)
        (values_of-other (canonical name) (canonical other) v d)
    ∙ append-nil (values_of (canonical other) (without (canonical name) hs))
    ∙ values_of-without (canonical name) (canonical other) hs d

-- A header that is set from an option, where there was none before.
get-set_some :
    (hs : Headers) (name : Text) (v : Option Text)
    → get hs name ≡ none
    → get (set_some hs name v) name ≡ v
get-set_some hs name none h = h
get-set_some hs name (some v) h = (get-set hs name name v).0 ∙ rw (equal_self (canonical name))

get-set_some_other :
    (hs : Headers) (name other : Text) (v : Option Text)
    → equal (canonical name) (canonical other) ≡ false
    → get (set_some hs name v) other ≡ get hs other
get-set_some_other hs name other none d = refl
get-set_some_other hs name other (some v) d = (get-set hs name other v).0 ∙ rw d

get-push_all_other :
    (hs : Headers) (name other : Text) (vs : List Text)
    → equal (canonical name) (canonical other) ≡ false
    → get (push_all hs name vs) other ≡ get hs other
unfolding push_all
get-push_all_other hs name other [] d = refl
get-push_all_other hs name other (v ∷ vs) d =
    get-push_all_other (push hs name v) name other vs d
    ∙ (get-set hs name other v).3
    ∙ rw d (or_first-none (get hs other))
  where
    or_first-none : (o : Option Text) → or_first o none ≡ o
    or_first-none none = refl
    or_first-none (some a) = refl

module _ (hs : Headers) where
  abbrev vias : Headers
  vias = push_all [] (codes "via") (get_all hs (codes "via"))

  abbrev routes : Headers
  routes = push_all vias (codes "record-route") (get_all hs (codes "record-route"))

  -- The four headers that are set, in order.
  abbrev with_from : Headers
  with_from = set_some routes (codes "from") (get hs (codes "from"))

  abbrev with_to : Headers
  with_to = set_some with_from (codes "to") (get hs (codes "to"))

  abbrev with_call_id : Headers
  with_call_id = set_some with_to (codes "call-id") (get hs (codes "call-id"))

  -- The four sets leave a list of another name alone.
  get_all-reply_headers :
      (name : Text)
      → equal (canonical (codes "from")) (canonical name) ≡ false
      → equal (canonical (codes "to")) (canonical name) ≡ false
      → equal (canonical (codes "call-id")) (canonical name) ≡ false
      → equal (canonical (codes "cseq")) (canonical name) ≡ false
      → get_all (reply_headers hs) name ≡ get_all routes name
  unfolding reply_headers
  get_all-reply_headers name a b c d =
      get_all-set_some with_call_id (codes "cseq") name (get hs (codes "cseq")) d
      ∙ get_all-set_some with_to (codes "call-id") name (get hs (codes "call-id")) c
      ∙ get_all-set_some with_from (codes "to") name (get hs (codes "to")) b
      ∙ get_all-set_some routes (codes "from") name (get hs (codes "from")) a

  get-routes :
      (name : Text)
      → equal (canonical (codes "via")) (canonical name) ≡ false
      → equal (canonical (codes "record-route")) (canonical name) ≡ false
      → get routes name ≡ none
  unfolding get find_header
  get-routes name a b =
      get-push_all_other vias (codes "record-route") name (get_all hs (codes "record-route")) b
      ∙ get-push_all_other [] (codes "via") name (get_all hs (codes "via")) a

  get-from : get (reply_headers hs) (codes "from") ≡ get hs (codes "from")
  unfolding equal canonical full_form to_ascii_lowercase trim trim_matches trim_start trim_end
      trim_end_with is_whitespace reply_headers get get_all
  get-from =
      get-set_some_other with_call_id (codes "cseq") (codes "from") (get hs (codes "cseq")) refl
      ∙ get-set_some_other with_to (codes "call-id") (codes "from") (get hs (codes "call-id")) refl
      ∙ get-set_some_other with_from (codes "to") (codes "from") (get hs (codes "to")) refl
      ∙ get-set_some routes (codes "from") (get hs (codes "from"))
          (get-routes (codes "from") refl refl)

  get-to : get (reply_headers hs) (codes "to") ≡ get hs (codes "to")
  unfolding equal canonical full_form to_ascii_lowercase trim trim_matches trim_start trim_end
      trim_end_with is_whitespace reply_headers get get_all
  get-to =
      get-set_some_other with_call_id (codes "cseq") (codes "to") (get hs (codes "cseq")) refl
      ∙ get-set_some_other with_to (codes "call-id") (codes "to") (get hs (codes "call-id")) refl
      ∙ get-set_some with_from (codes "to") (get hs (codes "to")) (
          get-set_some_other routes (codes "from") (codes "to") (get hs (codes "from")) refl
          ∙ get-routes (codes "to") refl refl)

  get-call_id : get (reply_headers hs) (codes "call-id") ≡ get hs (codes "call-id")
  unfolding equal canonical full_form to_ascii_lowercase trim trim_matches trim_start trim_end
      trim_end_with is_whitespace reply_headers get get_all
  get-call_id =
      get-set_some_other with_call_id (codes "cseq") (codes "call-id") (get hs (codes "cseq")) refl
      ∙ get-set_some with_to (codes "call-id") (get hs (codes "call-id")) (
          get-set_some_other with_from (codes "to") (codes "call-id") (get hs (codes "to")) refl
          ∙ get-set_some_other routes (codes "from") (codes "call-id") (get hs (codes "from")) refl
          ∙ get-routes (codes "call-id") refl refl)

  get-cseq : get (reply_headers hs) (codes "cseq") ≡ get hs (codes "cseq")
  unfolding equal canonical full_form to_ascii_lowercase trim trim_matches trim_start trim_end
      trim_end_with is_whitespace reply_headers get get_all
  get-cseq = get-set_some with_call_id (codes "cseq") (get hs (codes "cseq")) (
      get-set_some_other with_to (codes "call-id") (codes "cseq") (get hs (codes "call-id")) refl
      ∙ get-set_some_other with_from (codes "to") (codes "cseq") (get hs (codes "to")) refl
      ∙ get-set_some_other routes (codes "from") (codes "cseq") (get hs (codes "from")) refl
      ∙ get-routes (codes "cseq") refl refl)

  get_all-via : get_all (reply_headers hs) (codes "via") ≡ get_all hs (codes "via")
  unfolding equal canonical full_form to_ascii_lowercase trim trim_matches trim_start trim_end
      trim_end_with is_whitespace reply_headers get get_all values_of
  get_all-via =
      get_all-reply_headers (codes "via") refl refl refl refl
      ∙ get_all-push_all_other vias (codes "record-route") (codes "via")
          (get_all hs (codes "record-route")) refl
      ∙ get_all-push_all [] (codes "via") (get_all hs (codes "via"))

  get_all-record_route :
      get_all (reply_headers hs) (codes "record-route") ≡ get_all hs (codes "record-route")
  unfolding equal canonical full_form to_ascii_lowercase trim trim_matches trim_start trim_end
      trim_end_with is_whitespace reply_headers get get_all values_of
  get_all-record_route =
      get_all-reply_headers (codes "record-route") refl refl refl refl
      ∙ get_all-push_all vias (codes "record-route") (get_all hs (codes "record-route"))
      ∙ ap (λ (l : List Text). l ++ get_all hs (codes "record-route"))
          (get_all-push_all_other [] (codes "via") (codes "record-route") (get_all hs (codes "via"))
            refl)

-- A response has all the Via and Record-Route values of its request, in order, and its From,
-- To, Call-ID and CSeq, or none where the request has none.
pub get-reply :
    (req : Request) (code : ℕ) (reason : Text)
    → (get_all (reply req code reason).headers (codes "via") ≡ get_all req.headers (codes "via"))
      × (get_all (reply req code reason).headers (codes "record-route")
          ≡ get_all req.headers (codes "record-route"))
      × (get (reply req code reason).headers (codes "from") ≡ get req.headers (codes "from"))
      × (get (reply req code reason).headers (codes "to") ≡ get req.headers (codes "to"))
      × (get (reply req code reason).headers (codes "call-id") ≡ get req.headers (codes "call-id"))
      × (get (reply req code reason).headers (codes "cseq") ≡ get req.headers (codes "cseq"))
unfolding reply
get-reply req code reason = (
  get_all-via req.headers,
  get_all-record_route req.headers,
  get-from req.headers,
  get-to req.headers,
  get-call_id req.headers,
  get-cseq req.headers,
)
