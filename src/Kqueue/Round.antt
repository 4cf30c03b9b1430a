-- ===== src/Kqueue/Round.antt =====
-- A round of the event loop `kq_dispatch` of net/mcl_kqueue.c, over persistent events.
use mcl.Base.{
  ℕ, suc, ℤ, Option, Bool-cases, if◌then◌else◌, ◌≡◌, refl, sym, ap, ◌∙◌, Bool, true, false, none,
  some, List, [], ◌∷◌, ◌++◌, map, ok, ◌>>=◌, Ptr, null, ◌==◌, Option-cases, inl, inr,
}
use mathlib.Core.List.{append-nil, append_assoc}
use mcl.Event.{Event, EventCall, ev_read, ev_write, ev_exp}
use mcl.Event.Calls.{call_of, call_back-call_of, stays, has_persist-stays}
use mcl.Select.{deref}
use mcl.Select.Dispatch.{any}
use mcl.Kqueue.{Events, Kevent, System, State, notify, handle_event, handle_events, kq_dispatch}

-- A returned event with the event that its user data points to.
pub record Returned : Type 0 where
  pub kevent : Kevent
  pub event : Event

-- The events are in memory and persistent.
abbrev pub Persistent : Events → List Returned → Type 0
Persistent m [] = Unit
Persistent m (r ∷ rs) =
    ((r.kevent.udata == null) ≡ false)
    × (m r.kevent.udata ≡ some r.event)
    × (stays r.event.ev_type ≡ true)
    × Persistent m rs

-- The grounds for a call.
pub data Reason : Type 0 where
  failed : Reason
  readable : Reason
  writable : Reason
  unknown : Reason

-- The error callback with the type 3, the callback with the type 1 for reading or 2 for writing, or
-- nothing.
unfoldable pub answer : Reason → ℤ → Event → List EventCall
answer failed fd e = call_of e.error_cb fd 3 e.uargs
answer readable fd e = call_of e.callback fd 1 e.uargs
answer writable fd e = call_of e.callback fd 2 e.uargs
answer unknown fd e = []

module _ {S : Type 0} (os : System S) where
  -- Why an event is returned: an error counts before a filter, and reading before writing.
  abbrev pub reason : Kevent → Reason
  reason k =
      if os.has_error k.flags
      then failed
      else if os.has_read_filter k.filter
      then readable
      else if os.has_write_filter k.filter
      then writable
      else unknown

  -- The calls for an event.
  abbrev pub calls_for : Returned → List EventCall
  calls_for r = answer (reason r.kevent) r.kevent.ident r.event

  answer_to : Kevent → Option (Event → List EventCall) → Event → List EventCall
  answer_to k none e = []
  answer_to k (some cs) e = cs e

  notify-answer :
      (k : Kevent) (e : Event) → answer_to k (notify os k) e ≡ answer (reason k) k.ident e
  unfolding answer_to answer
  notify-answer k e = elim (Bool-cases (os.has_error k.flags)) [
    | inl f ↦ rw f (call_back-call_of e.error_cb k.ident ev_exp e)
    | inr f ↦ elim (Bool-cases (os.has_read_filter k.filter)) [
      | inl r ↦ rw (f, r) (call_back-call_of e.callback k.ident ev_read e)
      | inr r ↦ elim (Bool-cases (os.has_write_filter k.filter)) [
        | inl w ↦ rw (f, r, w) (call_back-call_of e.callback k.ident ev_write e)
        | inr w ↦ rw (f, r, w) refl
      ]
    ]
  ]

  abbrev pub all_calls : List Returned → List EventCall
  all_calls [] = []
  all_calls (r ∷ rs) = calls_for r ++ all_calls rs

  handle_event-Persistent :
      (r : Returned) (ev : Ptr) (s : State S)
      → (r.kevent.udata == null) ≡ false
      → s.memory r.kevent.udata ≡ some r.event
      → stays r.event.ev_type ≡ true
      → handle_event os r.kevent ev s
        ≡ ok (r.kevent.udata, record s { calls = s.calls ++ calls_for r })
  unfolding handle_event answer_to
  handle_event-Persistent r ev s nz here p = elim (Option-cases (notify os r.kevent)) [
    | inl e ↦
        let empty : calls_for r ≡ [] =
          sym (notify-answer r.kevent r.event) ∙ ap (λ o. answer_to r.kevent o r.event) e in
        rw (handle_event, nz, e) (rw (empty, append-nil s.calls) refl)
    | inr (cs, e) ↦
        let some_calls : calls_for r ≡ cs r.event =
          sym (notify-answer r.kevent r.event) ∙ ap (λ o. answer_to r.kevent o r.event) e in
        rw (handle_event, nz, e, deref, ◌>>=◌, here)
          (rw (has_persist-stays r.event.ev_type ∙ p, some_calls) refl)
  ]

  handle_events-Persistent :
      (rs : List Returned) (ev : Ptr) (s : State S)
      → Persistent s.memory rs
      → handle_events os (map (λ r. r.kevent) rs) ev s
        ≡ ok (record s { calls = s.calls ++ all_calls rs })
  unfolding handle_events
  handle_events-Persistent [] ev s p = rw (append-nil s.calls) refl
  handle_events-Persistent (r ∷ rs) ev s (nz, here, stays, p) =
      let s' : State S = record s { calls = s.calls ++ calls_for r } in
      rw
        (
          handle_events,
          ◌>>=◌,
          handle_event-Persistent r ev s nz here stays,
          handle_events-Persistent rs r.kevent.udata s' p,
          append_assoc s.calls (calls_for r) (all_calls rs),
        )
        refl

  -- A round that the system ends with these events.
  module _ (exits : EventCall → Bool) (s : State S) (rs : List Returned) (os' : S)
      (waits : os.wait s.db.kq s.os ≡ (some (map (λ r. r.kevent) rs), os'))
      (p : Persistent s.memory rs) where
    kq_dispatch-after :
        (n : ℕ)
        → kq_dispatch os exits (suc n) false s
          ≡ kq_dispatch os exits n
              (any exits (all_calls rs))
              (record s { calls = s.calls ++ all_calls rs; os = os' })
    unfolding kq_dispatch
    kq_dispatch-after n =
        let s1 : State S = record s { calls = []; os = os' } in
        rw (kq_dispatch, waits, waits) (rw (◌>>=◌, handle_events-Persistent rs null s1 p) refl)

    -- When kevent returns events that are persistent and in memory, and a callback that is called
    -- for them asks for the end of the loop, `kq_dispatch` with at least two rounds, in a loop
    -- that is not to end yet, ends without a fault and returns 1, having called, in the order of
    -- the returned events, the error callback, with the type for exceptions, for an error, and
    -- else the callback, with the type for reading if the filter passes the test for reading, and
    -- else with that for writing if it passes that for writing; a callback that is NULL is passed
    -- over.
    pub kq_dispatch-exits :
        (n : ℕ)
        → any exits (all_calls rs) ≡ true
        → kq_dispatch os exits (suc (suc n)) false s
          ≡ ok (some (1, record s { calls = s.calls ++ all_calls rs; os = os' }))
    unfolding kq_dispatch
    kq_dispatch-exits n e = kq_dispatch-after (suc n) ∙ rw e refl
