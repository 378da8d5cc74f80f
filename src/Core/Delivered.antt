-- ===== src/Core/Delivered.antt =====
-- Which transaction a response reaches.
use modem2sip.Common.{
  ℕ, ◌≡◌, ◌≢◌, ◌⊎◌, ◌≤◌, ◌<◌, refl, arith, Bool, true, false, [], ◌∷◌, ◌++◌, Option, none, some,
  Bool-cases, inl, inr, leb,
}
use modem2sip.Text.{Text}
use modem2sip.Text.Ops.{equal}
use modem2sip.Text.Equal.{equal→≡, equal_self}
use modem2sip.Text.Table.{lookup, lookup-insert, lookup-insert_other}
use modem2sip.Sip.Method.{Method, invite, same_method}
use modem2sip.Sip.Via.{and_then, top_via, branch, cseq}
use modem2sip.Sip.Message.{Response}
use modem2sip.Core.Clients.{ClientTxn, Clients, delivered, deliver, on_response}

-- The timer is stopped exactly if it was stopped before, or by a final response, or by any response
-- to an INVITE.
abbrev pub TimerAfter : Response → ClientTxn → Bool → Type 0
TimerAfter resp entry stopped =
    ((stopped ≡ true)
      × ((entry.stop_retransmit ≡ true)
          ⊎ (200 ≤ resp.code)
          ⊎ (same_method entry.method invite ≡ true)))
    ⊎ ((stopped ≡ false)
        × (entry.stop_retransmit ≡ false)
        × (resp.code < 200)
        × (same_method entry.method invite ≡ false))

-- What a transaction under the response's branch becomes.
abbrev pub ReachedBy : Response → Method → ClientTxn → ClientTxn → Type 0
ReachedBy resp method entry after =
    ((same_method entry.method method ≡ false) × (after ≡ entry))
    ⊎ ((same_method entry.method method ≡ true)
        × (after.method ≡ entry.method)
        × (after.received ≡ entry.received ++ resp ∷ [])
        × TimerAfter resp entry after.stop_retransmit)

abbrev pub Expected : Response → Method → Option ClientTxn → Option ClientTxn → Type 0
Expected resp method none after = after ≡ none
Expected resp method (some entry) after =
    (entry' : ClientTxn) × (after ≡ some entry') × ReachedBy resp method entry entry'

delivered-TimerAfter :
    (entry : ClientTxn) (resp : Response)
    → TimerAfter resp entry (delivered entry resp).stop_retransmit
delivered-TimerAfter entry resp = elim (Bool-cases entry.stop_retransmit) [
  | inl stopped ↦ inl (ground (arith, stopped), inl stopped)
  | inr runs ↦ elim (Bool-cases (leb 200 resp.code)) [
    | inl final ↦ inl (ground (arith, final), inr (inl (ground (arith, final))))
    | inr provisional ↦ elim (Bool-cases (same_method entry.method invite)) [
      | inl invites ↦ inl (ground (arith, invites), inr (inr invites))
      | inr other ↦
          inr (ground (arith, runs, provisional, other), runs, ground (arith, provisional), other)
    ]
  ]
]

deliver-own :
    (clients : Clients) (key : Text) (method : Method) (resp : Response) (o : Option ClientTxn)
    → lookup key clients ≡ o
    → Expected resp method o (lookup key (deliver clients key method resp o))
deliver-own clients key method resp none found = found
deliver-own clients key method resp (some entry) found =
    elim (Bool-cases (same_method entry.method method)) [
      | inl same ↦ (
        delivered entry resp,
        rw same (lookup-insert key (delivered entry resp) clients),
        inr (same, refl, refl, delivered-TimerAfter entry resp),
      )
      | inr other ↦ (entry, rw other found, inl (other, refl))
    ]

deliver-other :
    (clients : Clients) (key other : Text) (method : Method) (resp : Response)
    (o : Option ClientTxn)
    → equal key other ≡ false
    → lookup other (deliver clients key method resp o) ≡ lookup other clients
deliver-other clients key other method resp none differ = refl
deliver-other clients key other method resp (some entry) differ =
    elim (Bool-cases (same_method entry.method method)) [
      | inl same ↦ rw same (lookup-insert_other key other (delivered entry resp) clients differ)
      | inr apart ↦ rw apart
    ]

-- A response with a branch and a CSeq changes no transaction but the one under its branch, and
-- that one only if it has the method of the CSeq, so a response to a CANCEL never reaches the
-- INVITE: then the method stays, the response goes into its channel behind those before it, and
-- its timer is stopped exactly if it was stopped already, the response is final (200 or more),
-- or the transaction is an INVITE.
pub lookup-on_response :
    (clients : Clients) (resp : Response) (key other : Text) (num : ℕ) (method : Method)
    → and_then (top_via resp.headers) branch ≡ some key
    → cseq resp.headers ≡ some (num, method)
    → ((key ≡ other)
        × Expected resp method (lookup other clients) (lookup other (on_response clients resp)))
      ⊎ ((key ≢ other) × (lookup other (on_response clients resp) ≡ lookup other clients))
unfolding on_response
lookup-on_response clients resp key other num method names counts =
    rw (names, counts)
      (elim (Bool-cases (equal key other)) [
        | inl same ↦
            let here = equal→≡ key other same in
            inl (here, rw (← here) (deliver-own clients key method resp (lookup key clients) refl))
        | inr differ ↦ inr (
          λ same. ground (arith, rw same at differ, equal_self other),
          deliver-other clients key other method resp (lookup key clients) differ,
        )
      ])
