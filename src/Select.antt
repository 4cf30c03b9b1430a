-- ===== src/Select.antt =====
-- The select backend of net/mcl_select.c. Events and the nodes of its hash tables stand in a memory
-- in which access to what is not allocated is a fault. select(2) is a parameter. A callback may ask
-- for the end of the loop and does not otherwise touch the backend.
pub mod Update
pub mod Registered
pub mod Adding
pub mod Deleting
pub mod Registry
pub mod Listing
pub mod Serving
pub mod Safety
pub mod Waiting
pub mod Lifetime
pub mod Reach
pub mod Cleaning
pub mod Closing
pub mod Bits
pub mod Entries
pub mod Handling
pub mod Round
pub mod Ops
pub mod Opened
pub mod Dispatch
use mcl.Base.{
  ℕ, zero, suc, ◌+◌, Bool, true, false, not, ◌||◌, ◌&&◌, Option, none, some, List, [], ◌∷◌, ◌++◌,
  Run, ok, fault, ◌>>=◌, ℤ, pos, negsuc, subscript, Ptr, null, FreeFn, Call, regist_erase_fn, ltb,
  ◌==◌, if◌then◌else◌,
}
use mcl.Hash
use mcl.Hash.{Hash, Pair}
use mcl.Hash.Iter.{HashIter, At, iter_head, iter_next, sweep}
use mcl.Event.{
  Event, EventCall, EvBase, EventCb, TimeVal, call_back, ev_read, ev_write, ev_exp, ev_del,
  has_read, has_write, has_exp, has_persist,
}

-- The events and the nodes `slt_ht_node`, with the event that a node points to.
pub record Memory : Type 0 where
  pub events : Ptr → Option Event
  pub nodes : Ptr → Option Ptr

abbrev pub set_at : {A : Type 0} → (Ptr → Option A) → Ptr → Option A → Ptr → Option A
set_at f a v q = if q == a then v else f q

-- Reading through a pointer.
abbrev pub deref : {A : Type 0} → (Ptr → Option A) → Ptr → Run A
deref f a = elim (f a) [ none ↦ fault | some v ↦ ok v ]

-- `ev_set`. The bits of `fds` are those of an `fd_set`.
pub record EvSet : Type 0 where
  pub ht : Hash
  pub fds : ℕ → Bool

-- `slt_evdb`
pub record SelectDb : Type 0 where
  pub n_maxfdn : ℕ
  pub in_evs : EvSet
  pub out_evs : EvSet
  pub exp_evs : EvSet

-- The address of the function `event_ht_free`.
abbrev pub event_ht_free_fn : FreeFn
event_ht_free_fn = 1

abbrev pub zero_fds : ℕ → Bool
zero_fds n = false

-- `FD_CLR`
abbrev pub fd_clr : ℤ → (ℕ → Bool) → ℕ → Bool
fd_clr fd f n = if n == subscript fd then false else f n

-- `malloc_evset`
unfoldable pub malloc_evset : EvSet
malloc_evset = record {
  ht = (Hash.ctrl regist_erase_fn event_ht_free_fn Hash.new).0;
  fds = zero_fds;
}

-- `select_init`
unfoldable pub select_init : SelectDb
unfolding malloc_evset
select_init = record {
  n_maxfdn = 0;
  in_evs = malloc_evset;
  out_evs = malloc_evset;
  exp_evs = malloc_evset;
}

-- `event_ht_free`: the memory afterwards and the calls made
unfoldable pub event_ht_free : Ptr → Memory → Run (Memory × List EventCall)
event_ht_free node m = do
  ev ← deref m.nodes node
  e ← deref m.events ev
  ok (
    record { events = set_at m.events ev none; nodes = set_at m.nodes node none },
    call_back e.cleanup_cb e.sockfd ev_del e,
  )

-- The calls of `event_ht_free` that an operation on a hash table makes.
unfoldable pub run_frees : List Call → Memory → Run (Memory × List EventCall)
unfolding event_ht_free
run_frees [] m = ok (m, [])
run_frees ((fn, node) ∷ cs) m = do
  (m', es) ← event_ht_free node m
  (m'', rest) ← run_frees cs m'
  ok (m'', es ++ rest)

-- `free_evset`
unfoldable pub free_evset : EvSet → Memory → Run (Memory × List EventCall)
unfolding run_frees
free_evset evset m = run_frees (Hash.destroy event_ht_free_fn evset.ht).0 m

-- `select_cleanup`
unfoldable pub select_cleanup : SelectDb → Memory → Run (Memory × List EventCall)
unfolding free_evset
select_cleanup db m = do
  (m1, es1) ← free_evset db.in_evs m
  (m2, es2) ← free_evset db.out_evs m1
  (m3, es3) ← free_evset db.exp_evs m2
  ok (m3, es1 ++ (es2 ++ es3))

-- Which of the three sets `get_evset` gives.
pub data Which : Type 0 where
  in_evs : Which
  out_evs : Which

-- `get_evset`, `none` for NULL, as for an exception event that is neither of the other two
unfoldable pub get_evset : Event → Option Which
get_evset e =
    if has_read e.ev_type then some in_evs else if has_write e.ev_type then some out_evs else none

abbrev pub evset_of : Which → SelectDb → EvSet
evset_of in_evs db = db.in_evs
evset_of out_evs db = db.out_evs

abbrev pub with_evset : Which → EvSet → SelectDb → SelectDb
with_evset in_evs s db = record db { in_evs = s }
with_evset out_evs s db = record db { out_evs = s }
