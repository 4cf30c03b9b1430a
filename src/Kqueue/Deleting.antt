-- ===== src/Kqueue/Deleting.antt =====
-- Deleting an event from the backend of net/mcl_kqueue.c: `kq_del`.
use mcl.Base.{
  ℕ, ◌≡◌, refl, ap, true, false, none, some, List, ◌++◌, ok, ◌>>=◌, pos, Ptr, null, ◌==◌,
}
use mathlib.Core.List.{append-nil}
use mcl.LinkedList.{free_item}
use mcl.Hash
use mcl.Hash.{find_key, Hash, delete_key}
use mcl.Keys.{Key, int, key_cmp}
use mcl.Hash.Map.{IsHash, index}
use mcl.Hash.Delete.{Removes, delete_int-Removes}
use mcl.Event.{Event, EventCall, call_back, ev_del}
use mcl.Select.{set_at, deref}
use mcl.Kqueue.{
  Events, System, KqDb, State, Which, rdevset, wrevset, which, table_of, with_table,
  event_ht_free_fn, event_ht_free, run_frees, del_event, asked, kq_del,
}

abbrev pub cleanup_of : Event → List EventCall
cleanup_of e = call_back e.cleanup_cb e.sockfd ev_del e

-- What `kq_del` by the event `e` does when its descriptor `n` has the event `f`, at `reg`.
pub record Deletes {S : Type 0} (n : ℕ) (reg : Ptr) (e f : Event) (s s' : State S) : Type 0 where
  pub gone : find_key (int (pos n)) (table_of (which e) s'.db) ≡ null
  pub others :
      (j : Key)
      → key_cmp j (int (pos n)) ≡ false
      → find_key j (table_of (which e) s'.db) ≡ find_key j (table_of (which e) s.db)
  pub table : IsHash (table_of (which e) s'.db)
  pub memory : s'.memory ≡ set_at s.memory reg none
  pub calls : s'.calls ≡ (s.calls ++ cleanup_of e) ++ cleanup_of f

run_frees_one :
    (reg : Ptr) (f : Event) (m : Events)
    → m reg ≡ some f
    → (reg == null) ≡ false
    → run_frees (free_item true event_ht_free_fn reg) m ≡ ok (set_at m reg none, cleanup_of f)
unfolding run_frees event_ht_free free_item
run_frees_one reg f m h nz =
    rw (nz, event_ht_free, deref, ◌>>=◌, h)
      (ap (λ cs. ok (set_at m reg none, cs)) (append-nil (cleanup_of f)))

stored_table : (w : Which) (t : Hash) (db : KqDb) → table_of w (with_table w t db) ≡ t
stored_table rdevset t db = refl
stored_table wrevset t db = refl

module _ {S : Type 0} (os : System S) (n : ℕ) (ev reg : Ptr) (s : State S) (e f : Event) where
  abbrev after_del : State S
  after_del = record {
    db =
        with_table (which e) (Hash.delete (pos n) event_ht_free_fn (table_of (which e) s.db)).table
          s.db;
    memory = set_at s.memory reg none;
    calls = (s.calls ++ cleanup_of e) ++ cleanup_of f;
    os = (os.change s.db.kq (asked os false null e) s.os).1;
  }

  -- The event `f` at `reg` is registered for the descriptor `n` of the event `e` at `ev`.
  module _ (here : s.memory ev ≡ some e) (fd : e.sockfd ≡ pos n)
      (w : IsHash (table_of (which e) s.db))
      (found : find_key (int (pos n)) (table_of (which e) s.db) ≡ reg) (nz : (reg == null) ≡ false)
      (registered : s.memory reg ≡ some f) where
    removed :
        Removes
          (table_of (which e) s.db)
          (int (pos n))
          (index n)
          event_ht_free_fn
          (Hash.delete (pos n) event_ht_free_fn (table_of (which e) s.db))
    removed = delete_int-Removes n event_ht_free_fn (table_of (which e) s.db) w (rw found nz)

    del_event_ok :
        del_event e s.db s.memory ≡ ok (after_del.db, (set_at s.memory reg none, cleanup_of f))
    unfolding del_event
    del_event_ok =
        rw (del_event, fd, removed.calls, found, run_frees_one reg f s.memory registered nz) refl

    -- `kq_del` of an event in memory whose descriptor has, in the well-formed table for its type,
    -- an event that is in memory and not NULL, ends without a fault and returns 1: the descriptor
    -- then has no value, all others have theirs, the table is well-formed, the registered event is
    -- freed, and the cleanup was called for the given event and then for the registered one, twice
    -- if they are the same.
    pub kq_del-Deletes : (s' : State S) × (kq_del os ev s ≡ ok (1, s')) × Deletes n reg e f s s'
    unfolding kq_del
    kq_del-Deletes =
        let t = (Hash.delete (pos n) event_ht_free_fn (table_of (which e) s.db)).table in
        (
          after_del,
          rw (kq_del, deref, ◌>>=◌, here, del_event_ok) refl,
          record {
            gone = rw (stored_table (which e) t s.db) removed.gone;
            others = rw (stored_table (which e) t s.db) removed.others;
            table = rw (stored_table (which e) t s.db) removed.table;
            memory = refl;
            calls = refl;
          },
        )
