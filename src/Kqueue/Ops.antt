-- ===== src/Kqueue/Ops.antt =====
-- The table `kqueue_ops` of net/mcl_kqueue.c, by which the core of net/mcl_event.c uses the backend.
use mcl.Base.{
  ℕ, Bool, true, ◌==◌, if◌then◌else◌, Option, none, some, List, [], ◌∷◌, ◌++◌, Run, ok, ◌>>=◌, Ptr,
}
use mcl.Event.{EventCall, EvBase, EvOps, TimeVal}
use mcl.Kqueue.{System, KqDb, Events, State, kq_init, kq_cleanup, kq_add, kq_del, kq_dispatch}

-- The memory, the calls of callbacks made so far, and the system.
pub record World (S : Type 0) : Type 0 where
  pub memory : Events
  pub calls : List EventCall
  pub os : S

-- "kqueue"
abbrev pub kqueue_name : List ℕ
kqueue_name = 107 ∷ 113 ∷ 117 ∷ 101 ∷ 117 ∷ 101 ∷ []

module _ {S : Type 0} where
  abbrev pub state_of : EvBase KqDb → World S → State S
  state_of base w = record { db = base.evdb; memory = w.memory; calls = w.calls; os = w.os }

  abbrev pub world_of : State S → World S
  world_of s = record { memory = s.memory; calls = s.calls; os = s.os }

-- `alloc` is the `malloc` of the pair in one `kq_add`. The loop has `rounds` rounds at most. The
-- timeout is the system's business. That the loop ends by its flag shows in its result.
module _ {S : Type 0} (system : System S) (exits : EventCall → Bool) (alloc : S → Ptr × S)
    (rounds : ℕ) where
  ops_init : World S → Run (Option KqDb × World S)
  ops_init w = let (db, os') = kq_init system w.os in ok (db, record w { os = os' })

  ops_add : Ptr → EvBase KqDb → World S → Run ((ℕ × EvBase KqDb) × World S)
  ops_add ev base w = do
    let (pair, os') = alloc w.os
    (r, s) ← kq_add system pair ev (state_of base (record w { os = os' }))
    ok ((r, record base { evdb = s.db }), world_of s)

  ops_del : Ptr → EvBase KqDb → World S → Run ((ℕ × EvBase KqDb) × World S)
  ops_del ev base w = do
    (r, s) ← kq_del system ev (state_of base w)
    ok ((r, record base { evdb = s.db }), world_of s)

  ended : EvBase KqDb → Option (ℕ × State S) → Option ((ℕ × EvBase KqDb) × World S)
  ended base none = none
  ended base (some (r, s)) =
      let term_flag = if r == 0 then base.term_flag else true in
      some ((r, record base { evdb = s.db; term_flag = term_flag }), world_of s)

  ops_dispatch : Option TimeVal → EvBase KqDb → World S → Run (Option ((ℕ × EvBase KqDb) × World S))
  ops_dispatch tval base w = do
    r ← kq_dispatch system exits rounds base.term_flag (state_of base w)
    ok (ended base r)

  ops_cleanup : EvBase KqDb → World S → Run (World S)
  ops_cleanup base w = do
    (m, es) ← kq_cleanup base.evdb w.memory
    ok (record w { memory = m; calls = w.calls ++ es })

  unfoldable pub kqueue_ops : EvOps KqDb (World S)
  unfolding ops_init ops_add ops_del ended ops_dispatch ops_cleanup
  kqueue_ops = record {
    evop_name = kqueue_name;
    init = ops_init;
    add = ops_add;
    del = ops_del;
    dispatch = ops_dispatch;
    cleanup = ops_cleanup;
  }
