-- ===== src/Tests/Backends.antt =====
-- The select backend from its start to its end, with one event.
use mcl.Base.{
  ℕ, ◌+◌, ◌<◌, ◌≡◌, refl, true, false, length, none, some, [], ◌++◌, ok, ℤ, pos, null, ◌==◌,
  if◌then◌else◌, arith,
}
use mcl.LinkedList.{max_size}
use mcl.Keys.{Key, int, calc_hash, cal_hash_int}
use mcl.Hash
use mcl.Hash.{Hash, find_key}
use mcl.Hash.Buckets.{has_addr}
use mcl.Hash.Map.{Binds, put-Binds, index, index-Hashes, at_index, new-find}
use mcl.Select.{
  SelectDb, Memory, Which, in_evs, out_evs, get_evset, select_init, select_cleanup, malloc_evset,
}
use mcl.Select.Update.{Fresh, add_event, Outcome, select_add}
use mcl.Select.Dispatch.{Bits, select_dispatch}
use mcl.Event.{EvBase, event_loop}
use mcl.Select.Ops.{World, select_ops}
use mcl.Select.Closing.{Ends, event_loop-Ends}
use mcl.Select.Registry.{IsRegistry, IsBackend, IsRegistry-added}
use mcl.Select.Round.{after}
use mcl.Select.Safety.{Safe, select_dispatch-Safe}
use mcl.Event.Calls.{call_of}
use mcl.Select.Waiting.{select_dispatch-waits}
use mcl.Select.Reach.{opened, made, added, with_event, Reachable-IsBackend}
use mcl.Select.Cleaning.{freed, cleanups, select_cleanup-frees}
use mcl.Tests.Events.{
  reader, memory, readers, nobody, db, fresh, reads, entries, readers_ats, nobody_ats,
  entries-Owned, ready, exits, loop, holds_entries, holds_none,
}
use mcl.Tests.Hashes.{empty-IsHash}

nobody_find : (k : Key) → find_key k nobody.ht ≡ null
unfolding find_key Hash.hash_find Hash.new
nobody_find k = new-find.1 k

nobody-IsRegistry : (w : Which) (m : Memory) → IsRegistry 1024 w nobody.ht m
nobody-IsRegistry w m = record {
  table = empty-IsHash;
  frees = refl;
  leads = λ k nz. let absent = nobody_find k in ground arith;
}

-- Without the node.
abbrev before : Memory
before = record memory { nodes = λ q. none }

five_Binds : Binds nobody.ht (int (pos 5)) 500 readers.ht
unfolding Hash.find_pair has_addr
five_Binds =
    put-Binds (int (pos 5)) (index 5) 500 50 [] nobody.ht (index-Hashes 5) empty-IsHash tt refl refl
      refl (λ j d. refl)

readers-IsRegistry : IsRegistry 1024 in_evs readers.ht memory
readers-IsRegistry =
    IsRegistry-added 1024 5 in_evs nobody.ht readers.ht before memory 500 70 reader
      (nobody-IsRegistry in_evs before) five_Binds refl (omega arith) refl refl reads refl
      (λ q. refl) refl

db-IsBackend : IsBackend 1024 db memory
db-IsBackend = record {
  ins = readers-IsRegistry;
  outs = nobody-IsRegistry out_evs memory;
  exceptions = record { none = nobody_ats; table = empty-IsHash; frees = refl };
}

-- The first call of `select` times out; later ones report the descriptor 5.
abbrev select_later : ℕ → Bits → ℕ → (ℤ × Bits) × ℕ
select_later n b s = (if s == 0 then (pos 0, ready) else (pos 1, ready), s + 1)

select_dispatch-Safe_example :
    Safe 1024 select_later exits 2 (select_dispatch 1024 select_later exits 5 2 loop)
select_dispatch-Safe_example = select_dispatch-Safe 1024 select_later exits 2 5 loop (record {
  backend = db-IsBackend;
  enough = record { ins = rw readers_ats (omega arith); outs = rw nobody_ats (omega arith) };
})

select_dispatch-waits_example :
    select_dispatch 1024 select_later exits 3 2 loop
    ≡ ok (
        some (
          1,
          after 1024 select_later exits 2 loop entries [] holds_entries holds_none holds_none ready
              2,
        ))
unfolding call_of
select_dispatch-waits_example =
    select_dispatch-waits 1024 select_later exits 2 entries [] loop holds_entries holds_none
      holds_none ready 1 2 0 1 3 (omega arith) refl entries-Owned (ready, 1, refl, refl) refl refl

select_cleanup-frees_example :
    select_cleanup db memory ≡ ok (freed [] (freed entries memory), cleanups entries ++ cleanups [])
select_cleanup-frees_example =
    select_cleanup-frees db entries [] memory readers_ats nobody_ats nobody_ats entries-Owned

abbrev unallocated : Memory
unallocated = record { events = λ q. none; nodes = λ q. none }

-- What adding the event at 70 to the empty backend leaves.
abbrev outcome : Outcome
outcome = record {
  db = record select_init {
    n_maxfdn = 5;
    in_evs = record {
      ht = (Hash.insert_safe fresh.pair (pos 5) fresh.node select_init.in_evs.ht).table;
      fds = λ j. if j == 5 then true else select_init.in_evs.fds j;
    };
  };
  memory = record (with_event 70 reader unallocated) {
    nodes = λ q. if q == 600 then some 70 else none;
  };
  calls = [];
  ret = 1;
}

add_run : select_add 1024 fresh 70 select_init (with_event 70 reader unallocated) ≡ ok outcome
unfolding select_add select_init malloc_evset get_evset Hash.insert_safe Hash.hash_insert
    Hash.do_hash_insert Hash.put_pair Hash.find_pair Hash.ctrl Hash.set_erase_fn Hash.new calc_hash
    cal_hash_int add_event
add_run = refl

room :
    (has_addr 60 (at_index select_init.in_evs.ht (index 5)) ≡ false)
    × (length (at_index select_init.in_evs.ht (index 5)) < max_size)
unfolding select_init malloc_evset Hash.ctrl Hash.set_erase_fn Hash.new has_addr
room = (refl, omega arith)

Reachable-IsBackend_example : IsBackend 1024 outcome.db outcome.memory
Reachable-IsBackend_example =
    Reachable-IsBackend 1024 select_later exits outcome.db outcome.memory (
      added fresh 70 select_init (with_event 70 reader unallocated) outcome
        (made 70 reader select_init unallocated (opened unallocated) refl)
        (record {
          n = 5;
          w = in_evs;
          e = reader;
          here = refl;
          fd = refl;
          set = reads;
          in_size = omega arith;
          node = refl;
          unused = refl;
          space = λ absent. room;
        })
        add_run)

abbrev full : EvBase SelectDb
full = record { evdb = db; nevents = 0; term_flag = false }

abbrev world : World ℕ
world = record { memory = memory; calls = []; os = 0 }

abbrev alloc : ℕ → Fresh × ℕ
alloc s = (fresh, s + 1)

event_loop-Ends_example :
    Ends 1024 select_later exits alloc 5 2
      (event_loop none (some (full, select_ops 1024 select_later exits alloc 5 2)) world)
event_loop-Ends_example =
    event_loop-Ends 1024 select_later exits alloc 5 2 none full world db-IsBackend
      (record { ins = rw readers_ats (omega arith); outs = rw nobody_ats (omega arith) })
