-- ===== src/Core/OneTimer.antt =====
-- A dialog has one timer at most whose answer is still repeated.
use modem2sip.Common.{
  ℕ, ◌≡◌, ◌≢◌, ◌⊎◌, ap, ◌∙◌, arith, Bool, true, false, ◌||◌, List, [], ◌∷◌, Option, none, some,
  ◌==◌, All, Bool-cases, inl, inr,
}
use modem2sip.Text.{Text}
use modem2sip.Text.Ops.{equal}
use modem2sip.Text.Equal.{equal→≡, equal_self}
use modem2sip.Text.Table.{lookup, lookup-insert, lookup-insert_other, lookup-delete}
use modem2sip.Core.PendingAcks.{Acks, set_flag, acknowledge, await_ack, is_own, give_up}

pub data AckEvent : Type 0 where
  answers : Text → ℕ → AckEvent
  acks : Text → AckEvent
  expires : Text → ℕ → AckEvent

-- The timers that were started, and those that gave up.
pub record Timers : Type 0 where
  pub shared : Acks
  pub timers : List (Text × ℕ)
  pub over : List ℕ

abbrev pub timer_step : Timers → AckEvent → Timers
timer_step t (answers key flag) = record t {
  shared = await_ack t.shared key flag;
  timers = (key, flag) ∷ t.timers;
}
timer_step t (acks key) = record t { shared = acknowledge t.shared key }
timer_step t (expires key flag) = record t {
  shared = give_up t.shared key flag;
  over = flag ∷ t.over;
}

unfoldable pub timer_run : Timers → List AckEvent → Timers
timer_run t [] = t
timer_run t (e ∷ es) = timer_run (timer_step t e) es

abbrev pub no_timers : Timers
no_timers = record { shared = record { pending = []; set_flags = [] }; timers = []; over = [] }

abbrev pub is_set : ℕ → List ℕ → Bool
is_set f [] = false
is_set f (g ∷ flags) = f == g || is_set f flags

-- A timer stops at its flag, is over, or is the one on record for its dialog.
abbrev pub Settled : Acks → List ℕ → Text × ℕ → Type 0
Settled a over (key, flag) =
    ((is_set flag a.set_flags || is_set flag over) ≡ true) ⊎ (lookup key a.pending ≡ some flag)

set_flag-keeps :
    (f : ℕ) (o : Option ℕ) (flags over : List ℕ)
    → (is_set f flags || is_set f over) ≡ true
    → (is_set f (set_flag o flags) || is_set f over) ≡ true
set_flag-keeps f none flags over h = h
set_flag-keeps f (some g) flags over h = ground (arith, h)

set_flag-sets :
    (f : ℕ) (o : Option ℕ) (flags over : List ℕ)
    → o ≡ some f
    → (is_set f (set_flag o flags) || is_set f over) ≡ true
set_flag-sets f o flags over h = rw h (ground arith)

-- Another dialog's entry.
await-Settled :
    (a : Acks) (over : List ℕ) (key : Text) (flag : ℕ) (timer : Text × ℕ)
    → Settled a over timer
    → Settled (await_ack a key flag) over timer
unfolding await_ack
await-Settled a over key flag (k, f) (inl done) =
    inl (set_flag-keeps f (lookup key a.pending) a.set_flags over done)
await-Settled a over key flag (k, f) (inr waits) = elim (Bool-cases (equal key k)) [
  | inl same ↦
      inl (set_flag-sets f (lookup key a.pending) a.set_flags over (rw (equal→≡ key k same) waits))
  | inr differ ↦ inr (lookup-insert_other key k flag a.pending differ ∙ waits)
]

acknowledge-Settled :
    (a : Acks) (over : List ℕ) (key : Text) (timer : Text × ℕ)
    → Settled a over timer
    → Settled (acknowledge a key) over timer
unfolding acknowledge
acknowledge-Settled a over key (k, f) (inl done) =
    inl (set_flag-keeps f (lookup key a.pending) a.set_flags over done)
acknowledge-Settled a over key (k, f) (inr waits) = elim (Bool-cases (equal key k)) [
  | inl same ↦
      inl (set_flag-sets f (lookup key a.pending) a.set_flags over (rw (equal→≡ key k same) waits))
  | inr differ ↦ inr (lookup-delete key k a.pending differ ∙ waits)
]

give_up-flags : (a : Acks) (key : Text) (flag : ℕ) → (give_up a key flag).set_flags ≡ a.set_flags
unfolding give_up
give_up-flags a key flag = elim (Bool-cases (is_own flag (lookup key a.pending))) [
  | inl own ↦ rw own
  | inr other ↦ rw other
]

give_up-other :
    (a : Acks) (key k : Text) (flag : ℕ)
    → equal key k ≡ false
    → lookup k (give_up a key flag).pending ≡ lookup k a.pending
unfolding give_up
give_up-other a key k flag differ = elim (Bool-cases (is_own flag (lookup key a.pending))) [
  | inl own ↦ rw own (lookup-delete key k a.pending differ)
  | inr other ↦ rw other
]

-- The entry of a flag that is not the own one stays.
give_up-newer :
    (a : Acks) (key : Text) (flag f : ℕ)
    → lookup key a.pending ≡ some f
    → (f == flag) ≡ false
    → give_up a key flag ≡ a
unfolding give_up
give_up-newer a key flag f waits newer = rw (waits, is_own, newer)

give_up-Settled :
    (a : Acks) (over : List ℕ) (key : Text) (flag : ℕ) (timer : Text × ℕ)
    → Settled a over timer
    → Settled (give_up a key flag) (flag ∷ over) timer
give_up-Settled a over key flag (k, f) (inl done) =
    inl (rw (give_up-flags a key flag) (ground (arith, done)))
give_up-Settled a over key flag (k, f) (inr waits) = elim (Bool-cases (f == flag)) [
  | inl own ↦ inl (rw own (ground arith))
  | inr newer ↦ inr (elim (Bool-cases (equal key k)) [
    | inl same ↦
        ap (λ (b : Acks). lookup k b.pending)
          (give_up-newer a key flag f (rw (equal→≡ key k same) waits) newer)
        ∙ waits
    | inr differ ↦ give_up-other a key k flag differ ∙ waits
  ])
]

-- Each step settles what was settled.
module _ (a b : Acks) (over after : List ℕ) where
  All-Settled :
      ((timer : Text × ℕ) → Settled a over timer → Settled b after timer)
      → (timers : List (Text × ℕ)) → All (Settled a over) timers
      → All (Settled b after) timers
  All-Settled keeps [] h = tt
  All-Settled keeps (t ∷ ts) h = (keeps t (h.0), All-Settled keeps ts (h.1))

abbrev pub AllSettled : Timers → Type 0
AllSettled t = All (Settled t.shared t.over) t.timers

timer_step-AllSettled : (t : Timers) (e : AckEvent) → AllSettled t → AllSettled (timer_step t e)
unfolding await_ack
timer_step-AllSettled t (answers key flag) h = (
  inr (lookup-insert key flag t.shared.pending),
  All-Settled t.shared (await_ack t.shared key flag) t.over t.over
      (await-Settled t.shared t.over key flag) t.timers h,
)
timer_step-AllSettled t (acks key) h =
    All-Settled t.shared (acknowledge t.shared key) t.over t.over
      (acknowledge-Settled t.shared t.over key) t.timers h
timer_step-AllSettled t (expires key flag) h =
    All-Settled t.shared (give_up t.shared key flag) t.over (flag ∷ t.over)
      (give_up-Settled t.shared t.over key flag) t.timers h

timer_run-from : (t : Timers) (es : List AckEvent) → AllSettled t → AllSettled (timer_run t es)
unfolding timer_run
timer_run-from t [] h = h
timer_run-from t (e ∷ es) h = timer_run-from (timer_step t e) es (timer_step-AllSettled t e h)

-- A timer of the dialog `key` has its flag set, or has given up.
abbrev pub StoppedIn : Text → Timers → Text × ℕ → Type 0
StoppedIn key t (k, f) = (key ≢ k) ⊎ ((is_set f t.shared.set_flags || is_set f t.over) ≡ true)

acknowledge-stops :
    (t : Timers) (key : Text) (timer : Text × ℕ)
    → Settled t.shared t.over timer
    → StoppedIn key (timer_step t (acks key)) timer
unfolding acknowledge
acknowledge-stops t key (k, f) (inl done) =
    inr (set_flag-keeps f (lookup key t.shared.pending) t.shared.set_flags t.over done)
acknowledge-stops t key (k, f) (inr waits) = elim (Bool-cases (equal key k)) [
  | inl same ↦ inr (
      set_flag-sets f (lookup key t.shared.pending) t.shared.set_flags t.over
        (rw (equal→≡ key k same) waits))
  | inr differ ↦ inl (λ same. ground (arith, rw same at differ, equal_self k))
]

acknowledge-stops-All :
    (t : Timers) (key : Text) (timers : List (Text × ℕ))
    → All (Settled t.shared t.over) timers
    → All (StoppedIn key (timer_step t (acks key))) timers
acknowledge-stops-All t key [] h = tt
acknowledge-stops-All t key (x ∷ xs) (here, later) =
    (acknowledge-stops t key x here, acknowledge-stops-All t key xs later)

-- A timer that stopped stays so.
timer_step-StoppedIn :
    (key : Text) (t : Timers) (e : AckEvent) (timer : Text × ℕ)
    → StoppedIn key t timer
    → StoppedIn key (timer_step t e) timer
timer_step-StoppedIn key t e (k, f) (inl other) = inl other
timer_step-StoppedIn key t (answers k' g) (k, f) (inr done) =
    unfold await_ack in
    inr (set_flag-keeps f (lookup k' t.shared.pending) t.shared.set_flags t.over done)
timer_step-StoppedIn key t (acks k') (k, f) (inr done) =
    unfold acknowledge in
    inr (set_flag-keeps f (lookup k' t.shared.pending) t.shared.set_flags t.over done)
timer_step-StoppedIn key t (expires k' g) (k, f) (inr done) =
    inr (rw (give_up-flags t.shared k' g) (ground (arith, done)))

timer_step-StoppedIn-All :
    (key : Text) (t : Timers) (e : AckEvent) (timers : List (Text × ℕ))
    → All (StoppedIn key t) timers
    → All (StoppedIn key (timer_step t e)) timers
timer_step-StoppedIn-All key t e [] h = tt
timer_step-StoppedIn-All key t e (x ∷ xs) (here, later) =
    (timer_step-StoppedIn key t e x here, timer_step-StoppedIn-All key t e xs later)

timer_run-StoppedIn :
    (key : Text) (t : Timers) (es : List AckEvent) (timers : List (Text × ℕ))
    → All (StoppedIn key t) timers
    → All (StoppedIn key (timer_run t es)) timers
unfolding timer_run
timer_run-StoppedIn key t [] timers h = h
timer_run-StoppedIn key t (e ∷ es) timers h =
    timer_run-StoppedIn key (timer_step t e) es timers (timer_step-StoppedIn-All key t e timers h)

-- In every sequence of 2xx answers, ACKs and timers that give up, starting without timers, each
-- timer that was started has its flag set, has given up, or is the one on record for its
-- dialog: a newer answer stops the timer of an older one, and a timer that gives up never
-- removes the entry of a newer one. And when an ACK for a dialog follows, then from there on,
-- whatever comes later, each timer that was started for that dialog before the ACK has its flag
-- set or has given up.
pub timer_run-AllSettled :
    (before later : List AckEvent) (key : Text)
    → AllSettled (timer_run no_timers before)
      × All
          (StoppedIn key (timer_run (timer_run no_timers before) (acks key ∷ later)))
          (timer_run no_timers before).timers
timer_run-AllSettled before later key =
    let t = timer_run no_timers before in
    let settled : AllSettled t = timer_run-from no_timers before tt in
    (
      settled,
      unfold timer_run in
          timer_run-StoppedIn key (timer_step t (acks key)) later t.timers
            (acknowledge-stops-All t key t.timers settled),
    )
