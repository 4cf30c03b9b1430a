-- ===== src/Select/Safety.antt =====
-- The event loop of net/mcl_select.c, over whatever select(2) does: it never reads an event or a
-- node that was freed.
use mcl.Base.{
  ℕ, zero, suc, ◌<◌, sym, ap, Bool, true, none, some, List, [], ◌++◌, ok, ℤ, pos, negsuc, length,
  arith, Bool-cases, inl, inr,
}
use mcl.Keys.{max_hash_size}
use mcl.Hash.Iter.{At}
use mcl.Hash.Iter.Walk.{ats}
use mcl.Hash.Iter.Members.{Members, ats-Members}
use mcl.Event.{EventCall, ev_read, ev_write}
use mcl.Select.{SelectDb, in_evs, out_evs}
use mcl.Select.Entries.{Entry, Owned, table_after, memory_after}
use mcl.Select.Registry.{IsBackend}
use mcl.Select.Listing.{
  is_in, Leading, entries, entries-ats, entries-Owned, out_entries-Owned, registry-Leading,
  entries-Holds,
}
use mcl.Select.Serving.{entries-AllFit, handled-Served}
use mcl.Select.Round.{
  Holds, marks, Owned-append_left, Owned-memory_after, after, waited, respond, handle_all-after,
  select_dispatch-respond,
}
use mcl.Select.Dispatch.{Bits, Loop, Ended, select_dispatch}

-- More fuel than a set has pairs.
pub record IsEnough (fuel : ℕ) (db : SelectDb) : Type 0 where
  pub ins : length (ats max_hash_size 0 db.in_evs.ht) < fuel
  pub outs : length (ats max_hash_size 0 db.out_evs.ht) < fuel

module _ {S : Type 0} (size : ℕ) (select : ℕ → Bits → S → (ℤ × Bits) × S) (exits : EventCall → Bool)
    (fuel : ℕ) where
  -- The backend between two rounds.
  pub record IsSteady (l : Loop S) : Type 0 where
    pub backend : IsBackend size l.db l.memory
    pub enough : IsEnough fuel l.db

  -- The loop uses up its rounds, or ends with 0 or 1, in a state as good as at its start.
  pub data Safe : Ended S → Type 0 where
    running : Safe (ok none)
    ended : (ret : ℕ) (l : Loop S) → ret < 2 → IsSteady l → Safe (ok (some (ret, l)))

  module _ (l : Loop S) (s : IsSteady l) where
    abbrev in_todo : List At
    in_todo = ats max_hash_size 0 l.db.in_evs.ht

    abbrev out_todo : List At
    out_todo = ats max_hash_size 0 l.db.out_evs.ht

    in_Members : Members l.db.in_evs.ht in_todo
    in_Members = ats-Members max_hash_size 0 l.db.in_evs.ht (omega arith) s.backend.ins.table

    out_Members : Members l.db.out_evs.ht out_todo
    out_Members = ats-Members max_hash_size 0 l.db.out_evs.ht (omega arith) s.backend.outs.table

    in_Leading : Leading size l.memory in_evs in_todo
    in_Leading =
        registry-Leading size l.memory in_evs l.db.in_evs.ht in_todo s.backend.ins in_Members

    out_Leading : Leading size l.memory out_evs out_todo
    out_Leading =
        registry-Leading size l.memory out_evs l.db.out_evs.ht out_todo s.backend.outs out_Members

    abbrev xs : List Entry
    xs = entries size l.memory in_evs in_todo in_Leading

    abbrev ys : List Entry
    ys = entries size l.memory out_evs out_todo out_Leading

    in_Holds : Holds size fuel l.db.in_evs xs
    in_Holds =
        entries-Holds size l.memory fuel in_evs l.db.in_evs s.backend.ins in_Leading s.enough.ins

    out_Holds : Holds size fuel l.db.out_evs ys
    out_Holds =
        entries-Holds size l.memory fuel out_evs l.db.out_evs s.backend.outs out_Leading
          s.enough.outs

    exp_Holds : Holds size fuel l.db.exp_evs []
    exp_Holds =
        let few = s.enough.ins in
        record {
          table = s.backend.exceptions.table;
          frees = s.backend.exceptions.frees;
          entries = s.backend.exceptions.none;
          own_fds = tt;
          in_size = tt;
          enough = omega arith;
        }

    all_Owned : Owned l.memory (xs ++ ys)
    all_Owned =
        entries-Owned size l.memory l.db.in_evs.ht in_todo out_todo in_Leading out_Leading
          in_Members
          (out_entries-Owned size l.memory l.db.out_evs.ht out_todo out_Leading out_Members)

    abbrev next : Bits → S → Loop S
    next b os' = after size select exits fuel l xs ys in_Holds out_Holds exp_Holds b os'

    next-IsSteady : (b : Bits) (os' : S) → IsSteady (next b os')
    next-IsSteady b os' =
        let m = l.memory in
        let m1 = memory_after ev_read b.reads xs m in
        let t = l.db.in_evs.ht in
        let u = l.db.out_evs.ht in
        let i =
          handled-Served size in_evs ev_read b.reads out_evs xs t u m (λ e. ap is_in e)
            (entries-AllFit size m in_evs in_todo in_Leading) (Owned-append_left xs ys m all_Owned)
            (rw (entries-ats size m in_evs in_todo in_Leading) at in_Members) s.backend.ins
            s.backend.outs in
        let o =
          handled-Served size out_evs ev_write b.writes in_evs ys u
            (table_after ev_read b.reads xs t) m1 (λ e. sym (ap is_in e))
            (entries-AllFit size m out_evs out_todo out_Leading)
            (Owned-memory_after ev_read b.reads xs ys m all_Owned)
            (rw (entries-ats size m out_evs out_todo out_Leading) at out_Members) i.other i.own in
        let in_few = s.enough.ins in
        let out_few = s.enough.outs in
        let in_fewer = i.fewer in
        let out_fewer = o.fewer in
        record {
          backend = record {
            ins = o.other;
            outs = o.own;
            exceptions = record {
              none = s.backend.exceptions.none;
              table = s.backend.exceptions.table;
              frees = s.backend.exceptions.frees;
            };
          };
          enough = record { ins = omega arith; outs = omega arith };
        }

    abbrev waited_next : Bits → S → Loop S
    waited_next b os' = waited size select exits fuel l xs ys in_Holds out_Holds exp_Holds b os'

    waited-IsSteady : (b : Bits) (os' : S) → IsSteady (waited_next b os')
    waited-IsSteady b os' = record {
      backend = record {
        ins = s.backend.ins;
        outs = s.backend.outs;
        exceptions = record {
          none = s.backend.exceptions.none;
          table = s.backend.exceptions.table;
          frees = s.backend.exceptions.frees;
        };
      };
      enough = record { ins = s.enough.ins; outs = s.enough.outs };
    }

    respond-Safe :
        (k : ℕ) (r : (ℤ × Bits) × S)
        → ((l' : Loop S) → IsSteady l' → Safe (select_dispatch size select exits k fuel l'))
        → Safe (respond size select exits fuel l xs ys in_Holds out_Holds exp_Holds k r)
    respond-Safe k ((negsuc n, b), os') go =
        ended 0 (waited_next b os') (omega arith) (waited-IsSteady b os')
    respond-Safe k ((pos zero, b), os') go = go (waited_next b os') (waited-IsSteady b os')
    respond-Safe k ((pos (suc j), b), os') go =
        rw
          (handle_all-after size select exits fuel l xs ys in_Holds out_Holds exp_Holds b os'
            all_Owned)
          (go (next b os') (next-IsSteady b os'))

  -- From a loop whose backend has its events registered, each value of the table for reading, or
  -- writing, being a node that leads to an event in memory of that type and with that descriptor,
  -- below `FD_SETSIZE`, and no event being registered for exceptions, with more fuel than each set
  -- has pairs, `select_dispatch` ends without a fault, so that it accesses no event or node that
  -- was freed and sets no bit out of range, whatever `select` reports and whichever callbacks ask
  -- for the end: after any number of rounds it is still running, or it returned 0 or 1 and left a
  -- backend of which the same holds.
  pub select_dispatch-Safe :
      (k : ℕ) (l : Loop S) → IsSteady l → Safe (select_dispatch size select exits k fuel l)
  unfolding select_dispatch
  select_dispatch-Safe zero l s = running
  select_dispatch-Safe (suc k) l s = elim (Bool-cases l.term_flag) [
    | inl e ↦ rw e (
        ended 1 (record l { term_flag = true }) (omega arith)
          (record { backend = s.backend; enough = s.enough }))
    | inr e ↦
        rw
          (select_dispatch-respond size select exits fuel l (xs l s) (ys l s) (in_Holds l s)
            (out_Holds l s) (exp_Holds l s) k e)
          (respond-Safe l s k
            (select (suc l.db.n_maxfdn)
              (marks size select exits fuel l (xs l s) (ys l s) (in_Holds l s) (out_Holds l s)
                (exp_Holds l s))
              l.os)
            (select_dispatch-Safe k))
  ]
