-- ===== src/Select/Opened.antt =====
-- A base of net/mcl_event.c over the select backend, and the first event added to it.
use mcl.Base.{
  ℕ, ◌<◌, ◌≡◌, refl, Bool, false, some, List, [], ◌∷◌, ◌++◌, ok, ℤ, pos, Ptr, null, length, ◌==◌,
  arith,
}
use mcl.Hash
use mcl.Hash.{value, find_key, delete_key}
use mcl.Hash.Buckets.{has_addr}
use mcl.Keys.{int}
use mcl.Hash.Map.{IsHash, find_key-value_in, at_index, index, index-Hashes}
use mcl.LinkedList.{max_size}
use mcl.Event.{Event, EventCall, EvBase, EvOps, last_backend, evbase_new, event_add}
use mcl.Select.{
  SelectDb, EvSet, Which, in_evs, out_evs, select_init, malloc_evset, get_evset, evset_of,
}
use mcl.Select.Update.{Fresh, Outcome}
use mcl.Select.Adding.{Adds, select_add-Adds}
use mcl.Select.Dispatch.{Bits}
use mcl.Select.Ops.{World, select_ops, ops_add}

last_backend-append : {A : Type 0} (xs : List A) (x : A) → last_backend (xs ++ (x ∷ [])) ≡ ok x
unfolding last_backend
last_backend-append [] x = refl
last_backend-append (y ∷ []) x = refl
last_backend-append (y ∷ (z ∷ zs)) x = last_backend-append (z ∷ zs) x

-- The sets that the backend starts with.
init_set : (which : Which) → evset_of which select_init ≡ malloc_evset
unfolding select_init
init_set in_evs = refl
init_set out_evs = refl

-- What an addition needs of a set.
record IsEmpty (n : ℕ) (pair : Ptr) (s : EvSet) : Type 0 where
  table : IsHash s.ht
  absent : find_key (int (pos n)) s.ht ≡ null
  free : has_addr pair (at_index s.ht (index n)) ≡ false
  room : length (at_index s.ht (index n)) < max_size

malloc_evset-IsEmpty : (n : ℕ) (pair : Ptr) → IsEmpty n pair malloc_evset
unfolding malloc_evset Hash.ctrl Hash.set_erase_fn Hash.new has_addr Hash.find_pair value
malloc_evset-IsEmpty n pair = record {
  table = λ i. tt;
  absent = find_key-value_in (int (pos n)) (index n) malloc_evset.ht (index-Hashes n);
  free = refl;
  room = omega arith;
}

-- A base over the select backend, behind other backends that were built in.
module _ {S : Type 0} (fd_setsize : ℕ) (select : ℕ → Bits → S → (ℤ × Bits) × S)
    (exits : EventCall → Bool) (alloc : S → Fresh × S) (rounds fuel : ℕ)
    (others : List (EvOps SelectDb (World S))) where
  abbrev pub ops : EvOps SelectDb (World S)
  ops = select_ops fd_setsize select exits alloc rounds fuel

  abbrev pub base : EvBase SelectDb
  base = record { evdb = select_init; nevents = 0; term_flag = false }

  -- What a base made and an event added to it leave.
  pub record FirstAdded (n : ℕ) (ev : Ptr) (which : Which) (w : World S) (r : Outcome)
      : Type 0 where
    pub opened : evbase_new (others ++ (ops ∷ [])) w ≡ ok (some (base, ops), w)
    pub added :
        event_add ev (some (base, ops)) w
        ≡ ok (
          (r.ret, some (record base { evdb = r.db })),
          record { memory = r.memory; calls = w.calls ++ r.calls; os = (alloc w.os).1 },
        )
    pub adds : Adds n (alloc w.os).0 ev which select_init w.memory r

  -- When the select backend is the last one built in, `mcl_evbase_new` opens an empty base over
  -- it, and `mcl_event_add` to this base, of an event in memory for reading or writing whose
  -- address is not NULL and whose descriptor is below `FD_SETSIZE`, with a node that is not NULL,
  -- does what `select_add` promises and returns its result.
  pub event_add-FirstAdded :
      (n : ℕ) (ev : Ptr) (e : Event) (which : Which) (w : World S)
      → (ev == null) ≡ false
      → w.memory.events ev ≡ some e
      → e.sockfd ≡ pos n
      → get_evset e ≡ some which
      → ((alloc w.os).0.node == null) ≡ false
      → n < fd_setsize
      → (r : Outcome) × FirstAdded n ev which w r
  unfolding evbase_new event_add select_ops ops_add
  event_add-FirstAdded n ev e which w nev here fd set nz lt =
      let i : IsEmpty n (alloc w.os).0.pair (evset_of which select_init) =
        rw (init_set which) (malloc_evset-IsEmpty n (alloc w.os).0.pair) in
      let (r, run, adds) =
        select_add-Adds fd_setsize n (alloc w.os).0 ev which select_init w.memory e here fd set
          i.table nz lt i.absent i.free i.room in
      (
        r,
        record {
          opened = rw (last_backend-append others ops) refl;
          added = rw (nev, run) refl;
          adds = adds;
        },
      )
