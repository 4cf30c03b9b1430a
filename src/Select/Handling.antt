-- ===== src/Select/Handling.antt =====
-- The callbacks that `handle_events` of net/mcl_select.c calls.
use mcl.Base.{
  ℤ, ℕ, ◌<◌, ◌≡◌, refl, sym, ap, ◌∙◌, Bool, true, false, some, List, [], ◌∷◌, ◌++◌, map, ok, ◌>>=◌,
  zero, suc, not, ◌||◌, ◌&&◌, ==_iff, if◌then◌else◌, arith, subscript, Ptr, null, length,
  length-map, ◌==◌, Bool-cases, inl, inr,
}
use mathlib.Core.List.{append_assoc, append-nil}
use mcl.LinkedList.{free_item}
use mcl.Keys.{int}
use mcl.Hash.{Hash, Pair}
use mcl.Keys.{max_hash_size}
use mcl.Hash.Map.{IsHash}
use mcl.Hash.Iter.Walk.{ats, remove}
use mcl.Hash.Iter.Sweep.{visit, visit_keeps, visit_erases, sweep_snapshot}
use mcl.Event.{Event, EventCb, call_back, ev_exp, ev_del}
use mcl.Event.Calls.{call_of, call_back-call_of, stays, has_persist-stays}
use mcl.Select.{Memory, EvSet, fd_clr, event_ht_free_fn, deref}
use mcl.Select.Deleting.{without, run_frees_one}
use mcl.Select.Entries.{
  answer, is_set, ends_by, Entry, fd_of, HasNot, OwnFds, Owned, all_calls, table_after,
  memory_after, bits_after, Owned-without,
}
use mcl.Select.Dispatch.{
  int_at, Handling, notify, is_over, handle_pair, body, erased, finish, handle_ready, handle_events,
}

Agree : (f ready : ℕ → Bool) → List Entry → Type 0
Agree f ready [] = Unit
Agree f ready (x ∷ xs) = (f (fd_of x) ≡ ready (fd_of x)) × Agree f ready xs

same_bits : (f : ℕ → Bool) (xs : List Entry) → Agree f f xs
unfolding Agree
same_bits f [] = tt
same_bits f (x ∷ xs) = (refl, same_bits f xs)

Agree-fd_clr :
    (x : Entry) (f ready : ℕ → Bool) (xs : List Entry)
    → HasNot x xs
    → Agree f ready xs
    → Agree (fd_clr x.fd f) ready xs
unfolding Agree
Agree-fd_clr x f ready [] a h = tt
Agree-fd_clr x f ready (y ∷ ys) (d, a) (h, hs) = (rw d h, Agree-fd_clr x f ready ys a hs)

-- The calls and the end of an event are as they are meant to be.
notify-answer : (ty : ℕ) (fd : ℤ) (e : Event) → notify ty fd e ≡ answer ty fd e
notify-answer ty fd e = elim (Bool-cases (ty == 3)) [
  | inl s ↦ rw s (
      call_back-call_of e.error_cb fd ty e
      ∙ ap (λ n. call_of e.error_cb fd n e.uargs) ((==_iff ty 3).0 s))
  | inr s ↦ rw s (call_back-call_of e.callback fd ty e)
]

is_set_lem : (cb : EventCb) → not (cb == null) ≡ is_set cb
is_set_lem zero = refl
is_set_lem (suc cb) = ground arith

over_cases :
    (p x : Bool) (cb : EventCb)
    → (not p || (x && not (cb == null))) ≡ (if p then (if x then is_set cb else false) else true)
over_cases true true cb = is_set_lem cb
over_cases true false cb = refl
over_cases false x cb = refl

is_over-ends_by : (ty : ℕ) (e : Event) → is_over ty e ≡ ends_by ty e
is_over-ends_by ty e =
    ap (λ p. not p || (ty == ev_exp && not (e.error_cb == null))) (has_persist-stays e.ev_type)
    ∙ over_cases (stays e.ev_type) (ty == 3) e.error_cb

module _ (ty : ℕ) (p : Pair) (fd : ℤ) (key : p.key ≡ int fd) (s : Handling) where
  body_unready : s.fds (subscript fd) ≡ false → body ty p (ok s) ≡ (false, ok s)
  unfolding handle_pair
  body_unready e = rw (body, handle_pair, int_at, key, ◌>>=◌, e) refl

  body_ready :
      {ev : Ptr} {e : Event}
      → s.fds (subscript fd) ≡ true
      → s.memory.nodes p.val ≡ some ev
      → s.memory.events ev ≡ some e
      → body ty p (ok s) ≡ (ends_by ty e, ok (record s { calls = s.calls ++ answer ty fd e }))
  unfolding handle_pair handle_ready
  body_ready {ev} {e} b n h =
      let run : body ty p (ok s)
          ≡ (is_over ty e, ok (record s { calls = s.calls ++ notify ty fd e })) =
        rw (body, handle_pair, int_at, key, ◌>>=◌, b, handle_ready, deref, ◌>>=◌, n, h) refl in
      run
      ∙ ap (λ g. (g, ok (record s { calls = s.calls ++ notify ty fd e }))) (is_over-ends_by ty e)
      ∙ ap (λ cs. (ends_by ty e, ok (record s { calls = s.calls ++ cs }))) (notify-answer ty fd e)

  erased_one :
      {ev : Ptr} {e : Event}
      → (p.val == null) ≡ false
      → s.memory.nodes p.val ≡ some ev
      → s.memory.events ev ≡ some e
      → erased ty (free_item true event_ht_free_fn p.val) p (ok s)
        ≡ ok (record {
          fds = fd_clr fd s.fds;
          memory = without p.val ev s.memory;
          calls = s.calls ++ call_of e.cleanup_cb e.sockfd 6 e.uargs;
        })
  erased_one {ev} {e} nz n h =
      let run : erased ty (free_item true event_ht_free_fn p.val) p (ok s)
          ≡ ok (record {
            fds = fd_clr fd s.fds;
            memory = without p.val ev s.memory;
            calls = s.calls ++ call_back e.cleanup_cb e.sockfd ev_del e;
          }) =
        rw (erased, int_at, key, ◌>>=◌, run_frees_one p.val ev e s.memory n h nz) refl in
      run
      ∙ ap
          (λ cs. ok (record {
            fds = fd_clr fd s.fds;
            memory = without p.val ev s.memory;
            calls = s.calls ++ cs;
          }))
          (call_back-call_of e.cleanup_cb e.sockfd ev_del e)

abbrev cleaned : Entry → Handling → Handling
cleaned x s = record {
  fds = fd_clr x.fd s.fds;
  memory = without x.at.pair.val x.ev s.memory;
  calls = s.calls ++ call_of x.event.cleanup_cb x.event.sockfd 6 x.event.uargs;
}

-- The state once the entries are handled.
abbrev handled : ℕ → (ℕ → Bool) → List Entry → Handling → Handling
handled ty ready xs s = record {
  fds = bits_after ty ready xs s.fds;
  memory = memory_after ty ready xs s.memory;
  calls = s.calls ++ all_calls ty ready xs;
}

module _ (ty : ℕ) (ready : ℕ → Bool) where
  visit-entries :
      (xs : List Entry) (t : Hash) (s : Handling)
      → t.erase_fn ≡ event_ht_free_fn
      → Owned s.memory xs
      → OwnFds xs
      → Agree s.fds ready xs
      → visit (body ty) (erased ty) (map (λ x. x.at) xs) t (ok s)
        ≡ (table_after ty ready xs t, ok (handled ty ready xs s))
  unfolding visit Agree remove
  visit-entries [] t s fn o own h =
      ap (λ cs. (t, ok (record s { calls = cs }))) (sym (append-nil s.calls))
  visit-entries (x ∷ xs) t s fn (key, nz, node, ev, apart, o) (fds, own) (bit, h) =
      let todo = map (λ y. y.at) xs in
      elim (Bool-cases (ready (fd_of x))) [
        | inl set ↦
            let step = body_ready ty x.at.pair x.fd key s (bit ∙ set) node ev in
            let s1 : Handling = record s { calls = s.calls ++ answer ty x.fd x.event } in
            let notified = answer ty x.fd x.event in
            let cleanup = call_of x.event.cleanup_cb x.event.sockfd 6 x.event.uargs in
            elim (Bool-cases (ends_by ty x.event)) [
              | inl over ↦
                  visit_erases (body ty) (erased ty) x.at t (ok s) todo (ap (λ r. r.0) step ∙ over)
                  ∙ ap
                      (λ r.
                        visit (body ty) (erased ty) todo (remove x.at t)
                          (erased ty (free_item true t.erase_fn x.at.pair.val) x.at.pair r.1))
                      step
                  ∙ ap
                      (λ g.
                        visit (body ty) (erased ty) todo (remove x.at t)
                          (erased ty (free_item true g x.at.pair.val) x.at.pair (ok s1)))
                      fn
                  ∙ ap (λ r. visit (body ty) (erased ty) todo (remove x.at t) r)
                      (erased_one ty x.at.pair x.fd key s1 nz node ev)
                  ∙ visit-entries xs (remove x.at t) (cleaned x s1) fn
                      (Owned-without x xs s.memory apart o) own
                      (Agree-fd_clr x s.fds ready xs fds h)
                  ∙ rw
                      (
                        set,
                        over,
                        append_assoc s.calls notified cleanup,
                        append_assoc s.calls (notified ++ cleanup) (all_calls ty ready xs),
                      )
                      refl
              | inr stays ↦
                  visit_keeps (body ty) (erased ty) x.at t (ok s) todo (ap (λ r. r.0) step ∙ stays)
                  ∙ ap (λ r. visit (body ty) (erased ty) todo t r.1) step
                  ∙ visit-entries xs t s1 fn o own h
                  ∙ rw
                      (
                        set,
                        stays,
                        append-nil notified,
                        append_assoc s.calls notified (all_calls ty ready xs),
                      )
                      refl
            ]
        | inr unset ↦
            let step = body_unready ty x.at.pair x.fd key s (bit ∙ unset) in
            visit_keeps (body ty) (erased ty) x.at t (ok s) todo (ap (λ r. r.0) step)
            ∙ ap (λ r. visit (body ty) (erased ty) todo t r.1) step
            ∙ visit-entries xs t s fn o own h
            ∙ rw unset refl
      ]

-- `handle_events` on a well-formed set whose table frees by `event_ht_free` and whose nodes and
-- events are in memory, each once and with descriptors of their own, given more fuel than there
-- are pairs, ends without a fault. It goes over the entries in the table's order. For an entry
-- whose bit is set it calls the callback, or the error callback if the type is that of exceptions,
-- unless it is NULL; if the event is not persistent, its type lacking the bit 4, or its error
-- callback was called, it then calls the cleanup, and removes the pair, its bit, its node and its
-- event. It does nothing for the other entries.
pub handle_events-handled :
    (fuel : ℕ) (s : EvSet) (ty : ℕ) (m : Memory) (xs : List Entry)
    → IsHash s.ht
    → s.ht.erase_fn ≡ event_ht_free_fn
    → ats max_hash_size 0 s.ht ≡ map (λ x. x.at) xs
    → Owned m xs
    → OwnFds xs
    → length xs < fuel
    → handle_events fuel s ty m
      ≡ ok (
          some (record {
            evset = record {
              ht = table_after ty s.fds xs s.ht;
              fds = bits_after ty s.fds xs s.fds;
            };
            memory = memory_after ty s.fds xs m;
            calls = all_calls ty s.fds xs;
          }))
unfolding handle_events finish
handle_events-handled fuel s ty m xs w fn here o own enough =
    let state : Handling = record { fds = s.fds; memory = m; calls = [] } in
    let fuel_enough : length (ats max_hash_size 0 s.ht) < fuel =
      rw (here, length-map (λ x. x.at) xs) enough in
    let run =
      sweep_snapshot (body ty) (erased ty) fuel s.ht (ok state) w fuel_enough
      ∙ ap (λ todo. ok (some (visit (body ty) (erased ty) todo s.ht (ok state)))) here
      ∙ ap (λ r. ok (some r))
          (visit-entries ty s.fds xs s.ht state fn o own (same_bits s.fds xs)) in
    rw (handle_events, ◌>>=◌, run) refl
