-- ===== src/Select/Closing.antt =====
-- A base of net/mcl_event.c over the select backend, through its loop to its end.
use mcl.Base.{ℕ, ◌≡◌, refl, Bool, none, some, List, ◌++◌, Run, ok, fault, ◌>>=◌, ℤ, Option, arith}
use mcl.Keys.{max_hash_size}
use mcl.Hash.Iter.Walk.{ats}
use mcl.Hash.Iter.Members.{Members, ats-Members}
use mcl.Event.{EventCall, EvBase, EvOps, TimeVal, left_by, event_loop, evbase_destroy}
use mcl.Select.{Memory, SelectDb, in_evs, out_evs, select_cleanup}
use mcl.Select.Update.{Fresh}
use mcl.Select.Dispatch.{Bits, Loop, Ended, select_dispatch}
use mcl.Select.Ops
use mcl.Select.Ops.{World, select_ops}
use mcl.Select.Registry.{IsBackend}
use mcl.Select.Listing.{
  Leading, entries, entries-ats, entries-Owned, out_entries-Owned, registry-Leading,
}
use mcl.Select.Safety.{IsEnough, IsSteady, Safe, running, ended, select_dispatch-Safe}
use mcl.Select.Cleaning.{freed, cleanups, select_cleanup-frees}

-- The end of a backend with its events in memory does not fault.
module _ (size : ℕ) (db : SelectDb) (m : Memory) (b : IsBackend size db m) where
  in_Members : Members db.in_evs.ht (ats max_hash_size 0 db.in_evs.ht)
  in_Members = ats-Members max_hash_size 0 db.in_evs.ht (omega arith) b.ins.table

  out_Members : Members db.out_evs.ht (ats max_hash_size 0 db.out_evs.ht)
  out_Members = ats-Members max_hash_size 0 db.out_evs.ht (omega arith) b.outs.table

  in_Leading : Leading size m in_evs (ats max_hash_size 0 db.in_evs.ht)
  in_Leading =
      registry-Leading size m in_evs db.in_evs.ht (ats max_hash_size 0 db.in_evs.ht) b.ins
        in_Members

  out_Leading : Leading size m out_evs (ats max_hash_size 0 db.out_evs.ht)
  out_Leading =
      registry-Leading size m out_evs db.out_evs.ht (ats max_hash_size 0 db.out_evs.ht) b.outs
        out_Members

  pub select_cleanup_ends : (r : Memory × List EventCall) × (select_cleanup db m ≡ ok r)
  select_cleanup_ends =
      let ins = ats max_hash_size 0 db.in_evs.ht in
      let outs = ats max_hash_size 0 db.out_evs.ht in
      let xs = entries size m in_evs ins in_Leading in
      let ys = entries size m out_evs outs out_Leading in
      (
        (freed ys (freed xs m), cleanups xs ++ cleanups ys),
        select_cleanup-frees db xs ys m (entries-ats size m in_evs ins in_Leading)
            (entries-ats size m out_evs outs out_Leading) b.exceptions.none
            (entries-Owned size m db.in_evs.ht ins outs in_Leading out_Leading in_Members
              (out_entries-Owned size m db.out_evs.ht outs out_Leading out_Members)),
      )

module _ {S : Type 0} (size : ℕ) (select : ℕ → Bits → S → (ℤ × Bits) × S) (exits : EventCall → Bool)
    (alloc : S → Fresh × S) (rounds fuel : ℕ) where
  abbrev pub ops : EvOps SelectDb (World S)
  ops = select_ops size select exits alloc rounds fuel

  -- The loop is still running, or it ended, and the base can be destroyed.
  pub data Ends : Run (Option (Option (EvBase SelectDb) × World S)) → Type 0 where
    runs : Ends (ok none)
    closes :
        (base : EvBase SelectDb) (w w' : World S)
        → evbase_destroy (some (base, ops)) w ≡ ok w'
        → Ends (ok (some (some base, w)))

  abbrev rounded : EvBase SelectDb → Ended S → Run (Option (Option (EvBase SelectDb) × World S))
  rounded base r = do x ← r; ok (left_by (Ops.ended size select exits alloc rounds fuel base x))

  rounded-Ends :
      (base : EvBase SelectDb) (r : Ended S) → Safe size select exits fuel r → Ends (rounded base r)
  unfolding Ops.ended evbase_destroy select_ops
  rounded-Ends base _ running = runs
  rounded-Ends base _ (ended ret l lt s) =
      let (r, run) = select_cleanup_ends size l.db l.memory s.backend in
      closes (record base { evdb = l.db; term_flag = l.term_flag })
        (record { memory = l.memory; calls = l.calls; os = l.os })
        (record { memory = r.0; calls = l.calls ++ r.1; os = l.os }) (rw run refl)

  bind_twice :
      {A B C : Type 0} (f : A → B) (g : B → C) (r : Run A)
      → (do y ← (do x ← r; ok (f x)); ok (g y)) ≡ (do x ← r; ok (g (f x)))
  bind_twice f g fault = refl
  bind_twice f g (ok x) = refl

  -- `mcl_event_loop` on a base over the select backend whose events are registered, each value of
  -- the table for reading, or writing, being a node that leads to an event in memory of that type
  -- and with that descriptor, below `FD_SETSIZE`, and no event being registered for exceptions,
  -- with more fuel than each set has pairs, does not fault, whatever `select` reports and
  -- whichever callbacks ask for the end: after the given rounds it is still running, or it ended,
  -- and then `mcl_evbase_destroy` of the base ends without a fault, too.
  pub event_loop-Ends :
      (tval : Option TimeVal) (base : EvBase SelectDb) (w : World S)
      → IsBackend size base.evdb w.memory
      → IsEnough fuel base.evdb
      → Ends (event_loop tval (some (base, ops)) w)
  unfolding event_loop select_ops Ops.ended
  event_loop-Ends tval base w b enough =
      let l : Loop S = record {
        db = base.evdb;
        memory = w.memory;
        calls = w.calls;
        term_flag = base.term_flag;
        os = w.os;
      } in
      let steady : IsSteady size select exits fuel l = record { backend = b; enough = enough } in
      rw
        (bind_twice (Ops.ended size select exits alloc rounds fuel base) left_by
          (select_dispatch size select exits rounds fuel l))
        (rounded-Ends base (select_dispatch size select exits rounds fuel l)
          (select_dispatch-Safe size select exits fuel rounds l steady))
