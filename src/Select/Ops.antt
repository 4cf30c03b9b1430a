-- ===== src/Select/Ops.antt =====
-- The table `select_ops` of net/mcl_select.c, by which the core of net/mcl_event.c uses the backend.
use mcl.Base.{ℕ, Bool, Option, none, some, List, [], ◌∷◌, ◌++◌, Run, ok, ◌>>=◌, ℤ, Ptr}
use mcl.Event.{EventCall, EvBase, EvOps, TimeVal}
use mcl.Select.{Memory, SelectDb, select_init, select_cleanup}
use mcl.Select.Update.{Fresh, select_add, select_del}
use mcl.Select.Dispatch.{Bits, Loop, select_dispatch}

-- The memory, the calls of callbacks made so far, and the system.
pub record World (S : Type 0) : Type 0 where
  pub memory : Memory
  pub calls : List EventCall
  pub os : S

-- "select"
abbrev pub select_name : List ℕ
select_name = 115 ∷ 101 ∷ 108 ∷ 101 ∷ 99 ∷ 116 ∷ []

-- `alloc` is the `malloc`s of one `select_add`. The loop has `rounds` rounds at most, and `fuel` for
-- each loop over a table. The timeout is the system's business.
module _ {S : Type 0} (fd_setsize : ℕ) (select : ℕ → Bits → S → (ℤ × Bits) × S)
    (exits : EventCall → Bool) (alloc : S → Fresh × S) (rounds fuel : ℕ) where
  unfoldable pub ops_add : Ptr → EvBase SelectDb → World S → Run ((ℕ × EvBase SelectDb) × World S)
  ops_add ev base w = do
    let (fresh, os') = alloc w.os
    r ← select_add fd_setsize fresh ev base.evdb w.memory
    ok (
      (r.ret, record base { evdb = r.db }),
      record { memory = r.memory; calls = w.calls ++ r.calls; os = os' },
    )

  ops_del : Ptr → EvBase SelectDb → World S → Run ((ℕ × EvBase SelectDb) × World S)
  ops_del ev base w = do
    r ← select_del ev base.evdb w.memory
    ok (
      (r.ret, record base { evdb = r.db }),
      record w { memory = r.memory; calls = w.calls ++ r.calls },
    )

  unfoldable pub ended :
      EvBase SelectDb → Option (ℕ × Loop S) → Option ((ℕ × EvBase SelectDb) × World S)
  ended base none = none
  ended base (some (r, l)) = some (
    (r, record base { evdb = l.db; term_flag = l.term_flag }),
    record { memory = l.memory; calls = l.calls; os = l.os },
  )

  ops_dispatch :
      Option TimeVal → EvBase SelectDb → World S → Run (Option ((ℕ × EvBase SelectDb) × World S))
  ops_dispatch tval base w = do
    let l : Loop S = record {
      db = base.evdb;
      memory = w.memory;
      calls = w.calls;
      term_flag = base.term_flag;
      os = w.os;
    }
    r ← select_dispatch fd_setsize select exits rounds fuel l
    ok (ended base r)

  ops_cleanup : EvBase SelectDb → World S → Run (World S)
  ops_cleanup base w = do
    (m, es) ← select_cleanup base.evdb w.memory
    ok (record w { memory = m; calls = w.calls ++ es })

  unfoldable pub select_ops : EvOps SelectDb (World S)
  unfolding ops_add ops_del ended ops_dispatch ops_cleanup
  select_ops = record {
    evop_name = select_name;
    init = λ w. ok (some select_init, w);
    add = ops_add;
    del = ops_del;
    dispatch = ops_dispatch;
    cleanup = ops_cleanup;
  }
