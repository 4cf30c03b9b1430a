-- ===== src/Select/Update.antt =====
-- Adding and deleting events in net/mcl_select.c, up to `select_add` and `select_del`. What these test
-- for NULL is not NULL here; the core of net/mcl_event.c has tested the event and the base before.
use mcl.Base.{
  ℕ, Bool, true, none, some, List, [], ◌++◌, Run, ok, fault, ◌>>=◌, ℤ, pos, negsuc, subscript, Ptr,
  ltb, ◌==◌, if◌then◌else◌,
}
use mcl.Hash
use mcl.Hash.{Hash, Pair}
use mcl.Event.{EventCall, has_exp}
use mcl.Select.{
  Memory, set_at, deref, EvSet, SelectDb, event_ht_free_fn, fd_clr, run_frees, Which, get_evset,
  evset_of, with_evset,
}

-- What adding to a set leaves and returns.
pub record Added : Type 0 where
  pub evset : EvSet
  pub memory : Memory
  pub ret : ℕ

pub record Deleted : Type 0 where
  pub evset : EvSet
  pub memory : Memory
  pub calls : List EventCall
  pub ret : ℕ

-- `FD_SETSIZE` is the system's. What `malloc` gives for a node and for a pair are arguments.
module _ (fd_setsize : ℕ) where
  -- `FD_SET`: undefined from `FD_SETSIZE` on
  unfoldable pub fd_set : ℤ → (ℕ → Bool) → Run (ℕ → Bool)
  fd_set (negsuc n) f = fault
  fd_set (pos fd) f = if ltb fd fd_setsize then ok (λ n. if n == fd then true else f n) else fault

  -- `add_event`
  unfoldable pub add_event : (node pair : Ptr) → Ptr → EvSet → Memory → Run Added
  unfolding fd_set
  add_event node pair ev evset m = do
    e ← deref m.events ev
    let m' : Memory = record m { nodes = set_at m.nodes node (some ev) }
    let r = Hash.insert_safe pair e.sockfd node evset.ht
    let refused : Added = record { evset = record evset { ht = r.table }; memory = m; ret = 0 }
    let added : Run Added = (do
      f ← fd_set e.sockfd evset.fds
      ok (record {
        evset = record { ht = r.table; fds = f };
        memory = m';
        ret = subscript e.sockfd;
      }))
    elim e.sockfd [
      | negsuc n ↦ ok (record { evset = evset; memory = m; ret = 0 })
      | pos fd ↦ if r.ret == 0 then ok refused else added
    ]

-- `del_event`. A bit from `FD_SETSIZE` on, which no registered descriptor has, is tested and cleared
-- without a fault.
unfoldable pub del_event : Ptr → EvSet → Memory → Run Deleted
unfolding run_frees
del_event ev evset m = do
  e ← deref m.events ev
  let nothing : Deleted = record { evset = evset; memory = m; calls = []; ret = 0 }
  let r = Hash.delete e.sockfd event_ht_free_fn evset.ht
  let deleted : Run Deleted = (do
    (m', es) ← run_frees r.calls m
    ok (record {
      evset = record { ht = r.table; fds = fd_clr e.sockfd evset.fds };
      memory = m';
      calls = es;
      ret = r.ret;
    }))
  elim e.sockfd [ negsuc n ↦ ok nothing | pos fd ↦ if evset.fds fd then deleted else ok nothing ]

-- What a call of the backend leaves and returns.
pub record Outcome : Type 0 where
  pub db : SelectDb
  pub memory : Memory
  pub calls : List EventCall
  pub ret : ℕ

abbrev unchanged : SelectDb → Memory → Outcome
unchanged db m = record { db = db; memory = m; calls = []; ret = 0 }

-- What `malloc` gives in one `select_add`: a node and a pair for the event's set, and for the
-- exception set.
pub record Fresh : Type 0 where
  pub node : Ptr
  pub pair : Ptr
  pub exp_node : Ptr
  pub exp_pair : Ptr

module _ (fd_setsize : ℕ) where
  -- The `is_add` branch of `event_add_or_del`. The type is read again behind `add_event`.
  unfoldable pub add_to : Fresh → Ptr → Which → SelectDb → Memory → Run Outcome
  add_to fresh ev which db m = do
    r ← add_event fd_setsize fresh.node fresh.pair ev (evset_of which db) m
    let db' = with_evset which r.evset db
    let refused : Outcome = record { db = db'; memory = r.memory; calls = []; ret = 0 }
    let n = if ltb db.n_maxfdn r.ret then r.ret else db.n_maxfdn
    let accepted : Run Outcome = (do
      e ← deref r.memory.events ev
      let plain : Outcome = record {
        db = record db' { n_maxfdn = n };
        memory = r.memory;
        calls = [];
        ret = 1;
      }
      let excepted : Run Outcome = (do
        x ← add_event fd_setsize fresh.exp_node fresh.exp_pair ev db'.exp_evs r.memory
        ok (record {
          db = record db' { n_maxfdn = n; exp_evs = x.evset };
          memory = x.memory;
          calls = [];
          ret = 1;
        }))
      if has_exp e.ev_type then ok plain else excepted)
    if r.ret == 0 then ok refused else accepted

  -- `select_add`
  unfoldable pub select_add : Fresh → Ptr → SelectDb → Memory → Run Outcome
  unfolding get_evset add_to
  select_add fresh ev db m = do
    e ← deref m.events ev
    elim (get_evset e) [ none ↦ ok (unchanged db m) | some which ↦ add_to fresh ev which db m ]

-- The other branch. The type is read again behind `del_event`, from the event that was given.
unfoldable pub del_from : Ptr → Which → SelectDb → Memory → Run Outcome
unfolding del_event
del_from ev which db m = do
  r ← del_event ev (evset_of which db) m
  e ← deref r.memory.events ev
  let db' = with_evset which r.evset db
  let plain : Outcome = record { db = db'; memory = r.memory; calls = r.calls; ret = r.ret }
  let excepted : Run Outcome = (do
    x ← del_event ev db'.exp_evs r.memory
    ok (record {
      db = record db' { exp_evs = x.evset };
      memory = x.memory;
      calls = r.calls ++ x.calls;
      ret = r.ret;
    }))
  if has_exp e.ev_type then ok plain else excepted

-- `select_del`
unfoldable pub select_del : Ptr → SelectDb → Memory → Run Outcome
unfolding get_evset del_from
select_del ev db m = do
  e ← deref m.events ev
  elim (get_evset e) [ none ↦ ok (unchanged db m) | some which ↦ del_from ev which db m ]
