-- ===== src/Kqueue.antt =====
-- The kqueue backend of net/mcl_kqueue.c. Events stand in a memory in which access to what is not
-- allocated is a fault. kqueue(2) and kevent(2) are parameters. A callback may ask for the end of the
-- loop and does not otherwise touch the backend.
pub mod Deleting
pub mod Round
pub mod Ops
use mcl.Base.{
  ℕ, zero, suc, ◌+◌, Bool, true, false, not, ◌||◌, Option, none, some, List, [], ◌∷◌, ◌++◌, Run, ok,
  fault, ◌>>=◌, ℤ, pos, negsuc, Ptr, null, FreeFn, Call, ◌==◌, if◌then◌else◌,
}
use mcl.Hash
use mcl.Hash.{Hash}
use mcl.Event.{
  Event, EventCall, call_back, ev_read, ev_write, ev_exp, ev_del, has_read, has_persist,
}
use mcl.Select.{set_at, deref}
use mcl.Select.Dispatch.{any}

-- Where the events are.
abbrev pub Events : Type 0
Events = Ptr → Option Event

-- A returned `struct kevent`
pub record Kevent : Type 0 where
  pub ident : ℤ
  pub filter : ℤ
  pub flags : ℕ
  pub udata : Ptr

-- What a change asks for: `EV_ADD` or `EV_DELETE` of a filter.
pub record Change : Type 0 where
  pub ident : ℤ
  pub filter : ℤ
  pub is_add : Bool
  pub udata : Ptr

-- What the backend asks of the system. `change` is kevent(2) with one change; `wait` is kevent(2)
-- with none, and gives the events, `none` for a negative result. The filters and the tests
-- `filter & EVFILT_READ`, `filter & EVFILT_WRITE` and `flags & EV_ERROR` are those of the system's
-- headers.
pub record System (S : Type 0) : Type 0 where
  pub kqueue : S → ℤ × S
  pub change : ℤ → Change → S → ℤ × S
  pub wait : ℤ → S → Option (List Kevent) × S
  pub evfilt_read : ℤ
  pub evfilt_write : ℤ
  pub has_read_filter : ℤ → Bool
  pub has_write_filter : ℤ → Bool
  pub has_error : ℕ → Bool

-- `kq_evdb`
pub record KqDb : Type 0 where
  pub kq : ℤ
  pub ht_rdevset : Hash
  pub ht_wrevset : Hash

-- The address of the function `event_ht_free`.
abbrev pub event_ht_free_fn : FreeFn
event_ht_free_fn = 2

-- `event_ht_free`: the memory afterwards and the calls made
unfoldable pub event_ht_free : Ptr → Events → Run (Events × List EventCall)
event_ht_free ev m = do
  e ← deref m ev
  ok (set_at m ev none, call_back e.cleanup_cb e.sockfd ev_del e)

-- The calls of `event_ht_free` that an operation on a hash table makes.
unfoldable pub run_frees : List Call → Events → Run (Events × List EventCall)
unfolding event_ht_free
run_frees [] m = ok (m, [])
run_frees ((fn, ev) ∷ cs) m = do
  (m', es) ← event_ht_free ev m
  (m'', rest) ← run_frees cs m'
  ok (m'', es ++ rest)

-- `kq_init`
unfoldable pub kq_init : {S : Type 0} → System S → S → Option KqDb × S
kq_init os s =
    let (r, s') = os.kqueue s in
    elim r [
      | negsuc n ↦ (none, s')
      | pos n ↦ (some (record { kq = pos n; ht_rdevset = Hash.new; ht_wrevset = Hash.new }), s')
    ]

-- `kq_cleanup`
unfoldable pub kq_cleanup : KqDb → Events → Run (Events × List EventCall)
unfolding run_frees
kq_cleanup db m = do
  (m1, es1) ← run_frees (Hash.destroy event_ht_free_fn db.ht_rdevset).0 m
  (m2, es2) ← run_frees (Hash.destroy event_ht_free_fn db.ht_wrevset).0 m1
  ok (m2, es1 ++ es2)

-- The tables that `add_event` and `del_event` choose from.
pub data Which : Type 0 where
  rdevset : Which
  wrevset : Which

abbrev pub which : Event → Which
which e = if e.ev_type == ev_read then rdevset else wrevset

abbrev pub table_of : Which → KqDb → Hash
table_of rdevset db = db.ht_rdevset
table_of wrevset db = db.ht_wrevset

abbrev pub with_table : Which → Hash → KqDb → KqDb
with_table rdevset t db = record db { ht_rdevset = t }
with_table wrevset t db = record db { ht_wrevset = t }

-- `add_event`, at an address for the pair. What the insertion returns is not looked at.
unfoldable pub add_event : (pair : Ptr) → Ptr → Event → KqDb → KqDb
add_event pair ev e db =
    with_table (which e) (Hash.insert_safe pair e.sockfd ev (table_of (which e) db)).table db

-- `del_event`
unfoldable pub del_event : Event → KqDb → Events → Run (KqDb × (Events × List EventCall))
unfolding run_frees
del_event e db m = do
  let r = Hash.delete e.sockfd event_ht_free_fn (table_of (which e) db)
  (m', es) ← run_frees r.calls m
  ok (with_table (which e) r.table db, (m', es))

-- What the operations work on, with all calls made so far.
pub record State (S : Type 0) : Type 0 where
  pub db : KqDb
  pub memory : Events
  pub calls : List EventCall
  pub os : S

module _ {S : Type 0} (os : System S) where
  abbrev pub filter_of : Event → ℤ
  filter_of e = if has_read e.ev_type then os.evfilt_read else os.evfilt_write

  -- `EV_SET`
  abbrev pub asked : Bool → Ptr → Event → Change
  asked is_add udata e = record {
    ident = e.sockfd;
    filter = filter_of e;
    is_add = is_add;
    udata = udata;
  }

  -- `kq_add`
  unfoldable pub kq_add : (pair : Ptr) → Ptr → State S → Run (ℕ × State S)
  unfolding add_event
  kq_add pair ev s = do
    e ← deref s.memory ev
    let (r, os') = os.change s.db.kq (asked true ev e) s.os
    let added : ℕ × State S = (1, record s { db = add_event pair ev e s.db; os = os' })
    elim r [
      | pos n ↦ ok added
      | negsuc n ↦ if n == 0 then ok (0, record s { os = os' }) else ok added
    ]

  -- `kq_del`
  unfoldable pub kq_del : Ptr → State S → Run (ℕ × State S)
  unfolding del_event
  kq_del ev s = do
    e ← deref s.memory ev
    let (r, os') = os.change s.db.kq (asked false null e) s.os
    (db', (m', es)) ← del_event e s.db s.memory
    ok (
      1,
      record {
        db = db';
        memory = m';
        calls = (s.calls ++ call_back e.cleanup_cb e.sockfd ev_del e) ++ es;
        os = os';
      },
    )

  -- What is called for a returned event: `none` for one of another kind, which is passed over.
  abbrev pub notify : Kevent → Option (Event → List EventCall)
  notify k =
      if os.has_error k.flags
      then some (λ e. call_back e.error_cb k.ident ev_exp e)
      else if os.has_read_filter k.filter
      then some (λ e. call_back e.callback k.ident ev_read e)
      else if os.has_write_filter k.filter
      then some (λ e. call_back e.callback k.ident ev_write e)
      else none

  -- The end of a round: the event is deleted unless it is persistent.
  unfoldable pub drop : Ptr → State S → Run (State S)
  unfolding kq_del
  drop ev s = do
    e ← deref s.memory ev
    let deleted : Run (State S) = (do (r, s') ← kq_del ev s; ok s')
    if has_persist e.ev_type then ok s else deleted

  -- One round of the loop of `handle_events`: the variable `ev` keeps its value where the event has
  -- no user data.
  unfoldable pub handle_event : Kevent → Ptr → State S → Run (Ptr × State S)
  unfolding drop
  handle_event k ev s =
      let without : Run (Ptr × State S) = (do s' ← drop ev s; ok (ev, s')) in
      let known : Run (Ptr × State S) = elim (notify k) [
        | none ↦ ok (k.udata, s)
        | some cs ↦ do
          e ← deref s.memory k.udata
          s' ← drop k.udata (record s { calls = s.calls ++ cs e })
          ok (k.udata, s')
      ] in
      if k.udata == null then without else known

  -- `handle_events`, from the value of `ev`, which is NULL at first
  unfoldable pub handle_events : List Kevent → Ptr → State S → Run (State S)
  unfolding handle_event
  handle_events [] ev s = ok s
  handle_events (k ∷ ks) ev s = do (ev', s') ← handle_event k ev s; handle_events ks ev' s'

  -- `kq_dispatch` with so many rounds at most. `exits` says which calls of a callback call
  -- `mcl_event_loopexit`.
  unfoldable pub kq_dispatch :
      (exits : EventCall → Bool) → ℕ → Bool → State S → Run (Option (ℕ × State S))
  unfolding handle_events
  kq_dispatch exits zero term_flag s = ok none
  kq_dispatch exits (suc n) term_flag s =
      let (r, os') = os.wait s.db.kq s.os in
      let s1 : State S = record s { calls = []; os = os' } in
      elim term_flag [
        | true ↦ ok (some (1, s))
        | false ↦ elim r [
          | none ↦ ok (some (0, record s { os = os' }))
          | some ks ↦ do
            s2 ← handle_events ks null s1
            kq_dispatch exits n (any exits s2.calls) (record s2 { calls = s.calls ++ s2.calls })
        ]
      ]
