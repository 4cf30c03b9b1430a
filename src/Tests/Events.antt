-- ===== src/Tests/Events.antt =====
-- An event registered with the select backend, and the theorems on the event loop applied to it.
use mcl.Base.{
  ℕ, ◌+◌, ◌≡◌, refl, Bool, false, none, some, List, [], ◌∷◌, map, ok, fault, ℤ, pos, null, ◌==◌,
  if◌then◌else◌, arith,
}
use mcl.Hash
use mcl.Hash.{find_key, Hash, Pair, store}
use mcl.Keys.{int, max_hash_size, cal_hash_int, calc_hash}
use mcl.Hash.Buckets.{has_addr}
use mcl.Hash.Map.{index, at_index}
use mcl.Hash.Iter.Walk.{at_cursor, ats, ats_in}
use mcl.Event.{Event, EventCall, ev_read}
use mcl.Select.{Memory, EvSet, SelectDb, in_evs, get_evset, event_ht_free_fn, zero_fds}
use mcl.Select.Update.{Fresh, Outcome, select_add, select_del}
use mcl.Select.Adding.{Adds, select_add-Adds}
use mcl.Select.Deleting.{Unregisters, select_del-Unregisters, select_del_registered}
use mcl.Select.Bits.{has_key, InSize, init_fds-keys}
use mcl.Select.Entries.{Entry, Owned, all_calls, table_after, memory_after, bits_after}
use mcl.Select.Handling.{handle_events-handled}
use mcl.Select.Dispatch.{Bits, Loop, init_fds, handle_events}
use mcl.Select.Round.{Holds}
use mcl.Select.Ops.{World}
use mcl.Select.Opened.{FirstAdded, event_add-FirstAdded}
use mcl.Tests.Hashes.{empty, empty-IsHash, five, table, table-IsHash}

-- The event at 70 is to read the descriptor 5; that at 71 is another one like it.
abbrev pub reader : Event
reader = record {
  sockfd = pos 5;
  ev_type = ev_read;
  callback = 11;
  cleanup_cb = 12;
  error_cb = 13;
  uargs = 14;
}

abbrev pub memory : Memory
memory = record {
  events = λ q. if q == 70 then some reader else if q == 71 then some reader else none;
  nodes = λ q. if q == 500 then some 70 else none;
}

-- The node at 500 is the value of the key 5.
abbrev pub readers : EvSet
readers = record { ht = record table { erase_fn = event_ht_free_fn }; fds = λ n. n == 5 }

abbrev pub nobody : EvSet
nobody = record { ht = record empty { erase_fn = event_ht_free_fn }; fds = zero_fds }

abbrev nothing : SelectDb
nothing = record { n_maxfdn = 0; in_evs = nobody; out_evs = nobody; exp_evs = nobody }

abbrev pub db : SelectDb
db = record { n_maxfdn = 5; in_evs = readers; out_evs = nobody; exp_evs = nobody }

pub reads : get_evset reader ≡ some in_evs
unfolding get_evset
reads = refl

abbrev pub fresh : Fresh
fresh = record { node = 600; pair = 60; exp_node = 601; exp_pair = 61 }

nobody_five : find_key (int (pos 5)) nobody.ht ≡ null
unfolding find_key calc_hash cal_hash_int Hash.hash_find
nobody_five = refl

no_pair : has_addr 60 (at_index nobody.ht (index 5)) ≡ false
unfolding has_addr
no_pair = refl

select_add-Adds_example :
    (r : Outcome) × (select_add 1024 fresh 70 nothing memory ≡ ok r)
    × Adds 5 fresh 70 in_evs nothing memory r
select_add-Adds_example =
    select_add-Adds 1024 5 fresh 70 in_evs nothing memory reader refl refl reads empty-IsHash refl
      (omega arith) nobody_five no_pair (omega arith)

readers_find : find_key (int (pos 5)) readers.ht ≡ 500
unfolding find_key calc_hash cal_hash_int Hash.hash_find Hash.find_pair
readers_find = refl

readers_filled : (find_key (int (pos 5)) readers.ht == null) ≡ false
unfolding find_key calc_hash cal_hash_int Hash.hash_find Hash.find_pair
readers_filled = refl

select_del-Unregisters_example :
    (r : Outcome) × (select_del 71 db memory ≡ ok r)
    × Unregisters 5 500 70 reader in_evs db memory r
select_del-Unregisters_example =
    select_del-Unregisters 5 71 500 70 in_evs db memory reader reader refl refl reads table-IsHash
      refl readers_find refl refl refl refl

select_del_registered_example : select_del 70 db memory ≡ fault
select_del_registered_example =
    select_del_registered 5 70 500 70 in_evs db memory reader reader refl refl reads table-IsHash
      refl readers_find refl refl refl refl

abbrev entry : Entry
entry = record { at = at_cursor (index 5) five; fd = pos 5; ev = 70; event = reader }

abbrev pub entries : List Entry
entries = entry ∷ []

pub readers_ats : ats max_hash_size 0 readers.ht ≡ map (λ x. x.at) entries
unfolding ats ats_in
readers_ats = refl

pub nobody_ats : ats max_hash_size 0 nobody.ht ≡ []
unfolding ats ats_in
nobody_ats = refl

pub entries-Owned : Owned memory entries
entries-Owned = (refl, refl, refl, refl, tt, tt)

in_size : InSize 1024 (map (λ x. x.at) entries)
in_size = (5, refl, omega arith, tt)

init_fds-keys_example :
    init_fds 1024 2 readers
    ≡ ok (some (record { ht = readers.ht; fds = λ n. has_key n (ats max_hash_size 0 readers.ht) }))
init_fds-keys_example =
    init_fds-keys 1024 2 readers table-IsHash (rw readers_ats in_size)
      (rw readers_ats (omega arith))

handle_events-handled_example :
    handle_events 2 readers ev_read memory
    ≡ ok (
        some (record {
          evset = record {
            ht = table_after ev_read readers.fds entries readers.ht;
            fds = bits_after ev_read readers.fds entries readers.fds;
          };
          memory = memory_after ev_read readers.fds entries memory;
          calls = all_calls ev_read readers.fds entries;
        }))
handle_events-handled_example =
    handle_events-handled 2 readers ev_read memory entries table-IsHash refl readers_ats
      entries-Owned (tt, tt) (omega arith)

-- `select` reports the descriptor 5 as ready for reading.
abbrev pub ready : Bits
ready = record { reads = λ n. n == 5; writes = zero_fds; exceptions = zero_fds }

abbrev select_ready : ℕ → Bits → ℕ → (ℤ × Bits) × ℕ
select_ready n b s = ((pos 1, ready), s + 1)

abbrev pub exits : EventCall → Bool
exits c = c.fn == 11

abbrev pub loop : Loop ℕ
loop = record { db = db; memory = memory; calls = []; term_flag = false; os = 0 }

pub holds_entries : Holds 1024 2 readers entries
holds_entries = record {
  table = table-IsHash;
  frees = refl;
  entries = readers_ats;
  own_fds = (tt, tt);
  in_size = in_size;
  enough = omega arith;
}

pub holds_none : Holds 1024 2 nobody []
holds_none = record {
  table = empty-IsHash;
  frees = refl;
  entries = nobody_ats;
  own_fds = tt;
  in_size = tt;
  enough = omega arith;
}

abbrev world : World ℕ
world = record { memory = memory; calls = []; os = 0 }

abbrev alloc : ℕ → Fresh × ℕ
alloc s = (fresh, s + 1)

event_add-FirstAdded_example :
    (r : Outcome) × FirstAdded 1024 select_ready exits alloc 9 9 [] 5 70 in_evs world r
event_add-FirstAdded_example =
    event_add-FirstAdded 1024 select_ready exits alloc 9 9 [] 5 70 reader in_evs world refl refl
      refl reads refl (omega arith)
