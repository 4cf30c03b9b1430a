-- ===== src/Select/Deleting.antt =====
-- Deleting an event from the backend of net/mcl_select.c: `select_del`.
use mcl.Base.{
  ℕ, ◌≡◌, refl, ap, true, false, none, some, List, ok, fault, ◌>>=◌, pos, Ptr, null, ◌==◌,
}
use mathlib.Core.List.{append-nil}
use mcl.LinkedList.{free_item}
use mcl.Hash
use mcl.Hash.{find_key, Hash, Pair, delete_key}
use mcl.Keys.{Key, int, key_cmp}
use mcl.Hash.Map.{IsHash, index}
use mcl.Hash.EraseFn.{delete_key-erase_fn}
use mcl.Hash.Delete.{Removes, delete_int-Removes}
use mcl.Event.{Event, EventCall, call_back, ev_del}
use mcl.Select.{
  Memory, set_at, deref, EvSet, SelectDb, Which, get_evset, evset_of, with_evset, fd_clr,
  event_ht_free_fn, event_ht_free, run_frees,
}
use mcl.Select.Update.{del_event, Outcome, del_from, select_del}
use mcl.Select.Adding.{get_evset-has_exp, stored_set, same_exceptions, same_other, other_than}

-- The memory without a node and its event.
abbrev pub without : (node ev : Ptr) → Memory → Memory
without node ev m = record { events = set_at m.events ev none; nodes = set_at m.nodes node none }

-- What `select_del` does to a set in which the descriptor `n` has the event `f`, which is at `reg`.
pub record Unregisters (n : ℕ) (node reg : Ptr) (f : Event) (which : Which) (db : SelectDb)
    (m : Memory) (r : Outcome) : Type 0 where
  pub ret : r.ret ≡ 1
  pub gone : find_key (int (pos n)) (evset_of which r.db).ht ≡ null
  pub others :
      (j : Key)
      → key_cmp j (int (pos n)) ≡ false
      → find_key j (evset_of which r.db).ht ≡ find_key j (evset_of which db).ht
  pub table : IsHash (evset_of which r.db).ht
  pub bits : (evset_of which r.db).fds ≡ fd_clr (pos n) (evset_of which db).fds
  pub memory : r.memory ≡ without node reg m
  pub calls : r.calls ≡ call_back f.cleanup_cb f.sockfd ev_del f
  pub exceptions : r.db.exp_evs ≡ db.exp_evs
  pub other : evset_of (other_than which) r.db ≡ evset_of (other_than which) db
  pub frees : (evset_of which r.db).ht.erase_fn ≡ (evset_of which db).ht.erase_fn

pub event_ht_free_ok :
    (node reg : Ptr) (f : Event) (m : Memory)
    → m.nodes node ≡ some reg
    → m.events reg ≡ some f
    → event_ht_free node m ≡ ok (without node reg m, call_back f.cleanup_cb f.sockfd ev_del f)
unfolding event_ht_free
event_ht_free_ok node reg f m h e = rw (event_ht_free, deref, ◌>>=◌, h, e) refl

pub run_frees_one :
    (node reg : Ptr) (f : Event) (m : Memory)
    → m.nodes node ≡ some reg
    → m.events reg ≡ some f
    → (node == null) ≡ false
    → run_frees (free_item true event_ht_free_fn node) m
      ≡ ok (without node reg m, call_back f.cleanup_cb f.sockfd ev_del f)
unfolding run_frees free_item
run_frees_one node reg f m h e nz =
    rw (nz, event_ht_free_ok node reg f m h e)
      (ap (λ cs. ok (without node reg m, cs))
        (append-nil (call_back f.cleanup_cb f.sockfd ev_del f)))

-- An event in memory, and a set in which the event at `reg` has its descriptor.
module _ (n : ℕ) (ev node reg : Ptr) (which : Which) (db : SelectDb) (m : Memory) (e f : Event)
    (here : m.events ev ≡ some e) (fd : e.sockfd ≡ pos n) (set : get_evset e ≡ some which)
    (w : IsHash (evset_of which db).ht) (bit : (evset_of which db).fds n ≡ true)
    (found : find_key (int (pos n)) (evset_of which db).ht ≡ node) (nz : (node == null) ≡ false)
    (to_event : m.nodes node ≡ some reg) (registered : m.events reg ≡ some f) where
  abbrev table' : Hash
  table' = (Hash.delete (pos n) event_ht_free_fn (evset_of which db).ht).table

  removed :
      Removes
        (evset_of which db).ht
        (int (pos n))
        (index n)
        event_ht_free_fn
        (Hash.delete (pos n) event_ht_free_fn (evset_of which db).ht)
  removed = delete_int-Removes n event_ht_free_fn (evset_of which db).ht w (rw found nz)

  abbrev set' : EvSet
  set' = record { ht = table'; fds = fd_clr (pos n) (evset_of which db).fds }

  abbrev cleaned : List EventCall
  cleaned = call_back f.cleanup_cb f.sockfd ev_del f

  del_event_ok :
      del_event ev (evset_of which db) m
      ≡ ok (record { evset = set'; memory = without node reg m; calls = cleaned; ret = 1 })
  unfolding del_event
  del_event_ok =
      rw
        (
          del_event,
          deref,
          here,
          ◌>>=◌,
          fd,
          fd,
          bit,
          removed.calls,
          found,
          run_frees_one node reg f m to_event registered nz,
          removed.ret,
        )
        refl

  -- `select_del` of an event in memory whose set has its descriptor, by a node that leads to an
  -- event at another address, ends without a fault and returns 1: the descriptor then has no
  -- value, all others have theirs, the table is well-formed, the bit is cleared, the node and the
  -- registered event are freed after its cleanup was called, and the set for exceptions is as
  -- before.
  pub select_del-Unregisters :
      (ev == reg) ≡ false
      → (r : Outcome) × (select_del ev db m ≡ ok r) × Unregisters n node reg f which db m r
  unfolding select_del del_from Hash.delete
  select_del-Unregisters apart = (
    record { db = with_evset which set' db; memory = without node reg m; calls = cleaned; ret = 1 },
    rw (select_del, deref, here, set, ◌>>=◌, del_event_ok, apart, here, get_evset-has_exp e set)
        refl,
    record {
      ret = refl;
      gone = rw (stored_set which set' db) removed.gone;
      others = rw (stored_set which set' db) removed.others;
      table = rw (stored_set which set' db) removed.table;
      bits = rw (stored_set which set' db) refl;
      memory = refl;
      calls = refl;
      exceptions = same_exceptions which set' db;
      other = same_other which set' db;
      frees =
          rw (stored_set which set' db)
            (delete_key-erase_fn (int (pos n)) event_ht_free_fn (evset_of which db).ht);
    },
  )

  -- `select_del` of the registered event itself, at the address by which it was added, reads the
  -- event after it was freed.
  pub select_del_registered : (ev == reg) ≡ true → select_del ev db m ≡ fault
  unfolding select_del del_from
  select_del_registered same = rw (select_del, deref, here, set, ◌>>=◌, del_event_ok, same) refl
