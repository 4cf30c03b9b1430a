-- ===== src/Select/Adding.antt =====
-- Adding an event to the backend of net/mcl_select.c: `select_add`.
use mcl.Base.{
  ℕ, ◌<◌, ◌≡◌, refl, ap, ◌∙◌, true, false, none, some, [], ok, ◌>>=◌, pos, Ptr, null, length, ltb,
  ◌==◌, if◌then◌else◌, arith, Bool-cases, inl, inr,
}
use mcl.LinkedList.{max_size}
use mcl.Hash.{find_key, insert_safe}
use mcl.Hash.Buckets.{has_addr}
use mcl.Keys.{Key, int}
use mcl.Hash.Map.{IsHash, at_index, index, index-Hashes}
use mcl.Hash.EraseFn.{hash_insert-erase_fn}
use mcl.Hash.Insert.{insert_safe-Refuses}
use mcl.Event.{Event, has_read, has_write, has_exp}
use mcl.Select.{
  Memory, deref, EvSet, SelectDb, Which, in_evs, out_evs, get_evset, evset_of, with_evset,
}
use mcl.Select.Update.{Outcome, Fresh, add_to, select_add}
use mcl.Select.Registered.{Registers, add_event-Registers, add_event-Refuses}

read_is_exp : (ty : ℕ) → has_read ty ≡ true → has_exp ty ≡ true
read_is_exp ty h = ground arith

write_is_exp : (ty : ℕ) → has_write ty ≡ true → has_exp ty ≡ true
write_is_exp ty h = ground arith

-- An event of a set has the bits of `MCL_EV_EXP`.
pub get_evset-has_exp :
    (e : Event) {which : Which} → get_evset e ≡ some which → has_exp e.ev_type ≡ true
unfolding get_evset
get_evset-has_exp e {which} h = elim (Bool-cases (has_read e.ev_type)) [
  | inl r ↦ read_is_exp e.ev_type r
  | inr r ↦ elim (Bool-cases (has_write e.ev_type)) [
    | inl s ↦ write_is_exp e.ev_type s
    | inr s ↦ let no : none ≡ some which = rw (r, s) at h in ground arith
  ]
]

-- The other one of the sets for reading and writing.
abbrev pub other_than : Which → Which
other_than in_evs = out_evs
other_than out_evs = in_evs

-- What `select_add` does for an event at `ev` with the descriptor `n`. It returns `add_event`'s
-- result as a truth value, which is the descriptor.
pub record Adds (n : ℕ) (fresh : Fresh) (ev : Ptr) (which : Which) (db : SelectDb) (m : Memory)
    (r : Outcome) : Type 0 where
  pub ret : r.ret ≡ (if n == 0 then 0 else 1)
  pub registers : Registers n fresh.node ev (evset_of which db) m (evset_of which r.db) r.memory
  pub exceptions : r.db.exp_evs ≡ db.exp_evs
  pub other : evset_of (other_than which) r.db ≡ evset_of (other_than which) db
  pub max : r.db.n_maxfdn ≡ (if ltb db.n_maxfdn n then n else db.n_maxfdn)
  pub calls : r.calls ≡ []

-- An addition that is refused, for a descriptor that the set has.
pub record Keeps (which : Which) (db : SelectDb) (m : Memory) (r : Outcome) : Type 0 where
  pub ret : r.ret ≡ 0
  pub memory : r.memory ≡ m
  pub map : (j : Key) → find_key j (evset_of which r.db).ht ≡ find_key j (evset_of which db).ht
  pub bits : (evset_of which r.db).fds ≡ (evset_of which db).fds
  pub exceptions : r.db.exp_evs ≡ db.exp_evs
  pub other : evset_of (other_than which) r.db ≡ evset_of (other_than which) db
  pub table : IsHash (evset_of which r.db).ht
  pub frees : (evset_of which r.db).ht.erase_fn ≡ (evset_of which db).ht.erase_fn
  pub calls : r.calls ≡ []

pub stored_set :
    (which : Which) (s : EvSet) (db : SelectDb) → evset_of which (with_evset which s db) ≡ s
stored_set in_evs s db = refl
stored_set out_evs s db = refl

pub same_exceptions :
    (which : Which) (s : EvSet) (db : SelectDb) → (with_evset which s db).exp_evs ≡ db.exp_evs
same_exceptions in_evs s db = refl
same_exceptions out_evs s db = refl

pub same_other :
    (which : Which) (s : EvSet) (db : SelectDb)
    → evset_of (other_than which) (with_evset which s db) ≡ evset_of (other_than which) db
same_other in_evs s db = refl
same_other out_evs s db = refl

same_max :
    (which : Which) (s : EvSet) (db : SelectDb) → (with_evset which s db).n_maxfdn ≡ db.n_maxfdn
same_max in_evs s db = refl
same_max out_evs s db = refl

stored_set_max :
    (which : Which) (s : EvSet) (n : ℕ) (db : SelectDb)
    → evset_of which (record (with_evset which s db) { n_maxfdn = n }) ≡ s
stored_set_max in_evs s n db = refl
stored_set_max out_evs s n db = refl

same_other_max :
    (which : Which) (s : EvSet) (n : ℕ) (db : SelectDb)
    → evset_of (other_than which) (record (with_evset which s db) { n_maxfdn = n })
      ≡ evset_of (other_than which) db
same_other_max in_evs s n db = refl
same_other_max out_evs s n db = refl

-- An event in memory of a well-formed set, whose descriptor is not negative.
module _ (fd_setsize n : ℕ) (fresh : Fresh) (ev : Ptr) (which : Which) (db : SelectDb) (m : Memory)
    (e : Event) (here : m.events ev ≡ some e) (fd : e.sockfd ≡ pos n)
    (set : get_evset e ≡ some which) (w : IsHash (evset_of which db).ht)
    (nz : (fresh.node == null) ≡ false) where
  -- `select_add` of an event in memory, for reading or writing, whose descriptor is below
  -- `FD_SETSIZE` and has no value in the well-formed table of its set, with a node that is not
  -- NULL, a new address for the pair and room in the bucket, ends without a fault: the table then
  -- leads from the descriptor to a node with the event, and from the others where it did, its bit
  -- is set, the largest descriptor is kept, the set for exceptions is as before, no callback is
  -- called, and the result is 1, but 0 for the descriptor 0.
  pub select_add-Adds :
      n < fd_setsize
      → find_key (int (pos n)) (evset_of which db).ht ≡ null
      → has_addr fresh.pair (at_index (evset_of which db).ht (index n)) ≡ false
      → length (at_index (evset_of which db).ht (index n)) < max_size
      → (r : Outcome) × (select_add fd_setsize fresh ev db m ≡ ok r) × Adds n fresh ev which db m r
  unfolding select_add add_to
  select_add-Adds lt absent free room =
      let (a, run, ret, reg) =
        add_event-Registers fd_setsize n ev (evset_of which db) m e here fd w fresh.node fresh.pair
          nz lt absent free room in
      let max' = if ltb db.n_maxfdn n then n else db.n_maxfdn in
      let here' : a.memory.events ev ≡ some e = ap (λ f. f ev) reg.events ∙ here in
      elim (Bool-cases (n == 0)) [
        | inl z ↦ (
          record { db = with_evset which a.evset db; memory = a.memory; calls = []; ret = 0 },
          rw (select_add, deref, here, set, ◌>>=◌, run, ret, z) refl,
          record {
            ret = rw z refl;
            registers = rw (stored_set which a.evset db) reg;
            exceptions = same_exceptions which a.evset db;
            other = same_other which a.evset db;
            max = same_max which a.evset db ∙ ground arith;
            calls = refl;
          },
        )
        | inr pos_fd ↦ (
          record {
            db = record (with_evset which a.evset db) { n_maxfdn = max' };
            memory = a.memory;
            calls = [];
            ret = 1;
          },
          rw (select_add, deref, here, set, ◌>>=◌, run, ret, pos_fd, here', get_evset-has_exp e set)
              refl,
          record {
            ret = rw pos_fd refl;
            registers = rw (stored_set_max which a.evset max' db) reg;
            exceptions = same_exceptions which a.evset db;
            other = same_other_max which a.evset max' db;
            max = refl;
            calls = refl;
          },
        )
      ]

  -- `select_add` of an event in memory, for reading or writing, whose descriptor has a value in
  -- the well-formed table of its set, returns 0; all descriptors have the values and the bits they
  -- had, memory is as before, and no callback is called.
  pub select_add-Keeps :
      (find_key (int (pos n)) (evset_of which db).ht == null) ≡ false
      → (r : Outcome) × (select_add fd_setsize fresh ev db m ≡ ok r) × Keeps which db m r
  unfolding select_add add_to insert_safe
  select_add-Keeps taken =
      let s = evset_of which db in
      let b =
        insert_safe-Refuses fresh.pair (int (pos n)) (index n) fresh.node s.ht (index-Hashes n) w nz
          taken in
      let s' : EvSet = record s { ht = (insert_safe fresh.pair (pos n) fresh.node s.ht).table } in
      (
        record { db = with_evset which s' db; memory = m; calls = []; ret = 0 },
        rw
            (
              select_add,
              deref,
              here,
              set,
              ◌>>=◌,
              add_event-Refuses fd_setsize n ev s m e here fd w fresh.node fresh.pair nz taken,
            )
            refl,
        record {
          ret = refl;
          memory = refl;
          map = rw (stored_set which s' db) b.find;
          bits = rw (stored_set which s' db) refl;
          exceptions = same_exceptions which s' db;
          other = same_other which s' db;
          table = rw (stored_set which s' db) b.table;
          frees =
              rw (stored_set which s' db)
                (hash_insert-erase_fn fresh.pair (int (pos n)) fresh.node false null s.ht);
          calls = refl;
        },
      )
