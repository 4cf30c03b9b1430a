-- ===== src/Select/Registered.antt =====
-- Registering an event with the backend of net/mcl_select.c: `select_add`.
use mcl.Base.{
  ℕ, ◌<◌, ◌≡◌, refl, Bool, true, false, some, ok, ◌>>=◌, pos, Ptr, null, length, ltb, ◌==◌,
  if◌then◌else◌, arith,
}
use mcl.LinkedList.{max_size}
use mcl.Hash
use mcl.Hash.{Hash, Pair, insert_safe, find_key, delete_key}
use mcl.Hash.Buckets.{has_addr}
use mcl.Keys.{int}
use mcl.Hash.Map.{IsHash, Binds, at_index, index, index-Hashes}
use mcl.Hash.EraseFn.{hash_insert-erase_fn}
use mcl.Hash.Insert.{insert_safe-Rebinds, insert_safe-Refuses}
use mcl.Event.{Event}
use mcl.Select.{Memory, set_at, deref, EvSet}
use mcl.Select.Update.{Added, fd_set, add_event}

pub bit_at : (n j : ℕ) (b : Bool) → (ℕ → Bool) → Bool
bit_at n j b f = if j == n then b else f j

-- The event at `ev`, for the descriptor `n`, is registered in a set.
pub record Registers (n : ℕ) (node ev : Ptr) (s : EvSet) (m : Memory) (s' : EvSet) (m' : Memory)
    : Type 0 where
  pub binds : Binds s.ht (int (pos n)) node s'.ht
  pub bits : (j : ℕ) → s'.fds j ≡ (if j == n then true else s.fds j)
  pub nodes : (p : Ptr) → m'.nodes p ≡ (if p == node then some ev else m.nodes p)
  pub events : m'.events ≡ m.events
  pub frees : s'.ht.erase_fn ≡ s.ht.erase_fn

-- An event in memory whose descriptor is not negative.
module _ (fd_setsize n : ℕ) (ev : Ptr) (s : EvSet) (m : Memory) (e : Event)
    (here : m.events ev ≡ some e) (fd : e.sockfd ≡ pos n) (w : IsHash s.ht) (node pair : Ptr)
    (nz : (node == null) ≡ false) where
  pub add_event-Registers :
      n < fd_setsize
      → find_key (int (pos n)) s.ht ≡ null
      → has_addr pair (at_index s.ht (index n)) ≡ false
      → length (at_index s.ht (index n)) < max_size
      → (r : Added) × (add_event fd_setsize node pair ev s m ≡ ok r)
        × (r.ret ≡ n)
        × Registers n node ev s m r.evset r.memory
  unfolding add_event fd_set Hash.insert_safe
  add_event-Registers lt absent free room =
      let b =
        insert_safe-Rebinds pair (int (pos n)) (index n) node s.ht (index-Hashes n) w nz free room
          absent in
      let in_range : ltb n fd_setsize ≡ true = ground arith in
      let r = insert_safe pair (pos n) node s.ht in
      (
        record {
          evset = record { ht = r.table; fds = λ j. if j == n then true else s.fds j };
          memory = record m { nodes = set_at m.nodes node (some ev) };
          ret = n;
        },
        rw (add_event, deref, ◌>>=◌, here, fd, fd, b.ret, in_range) refl,
        refl,
        record {
          binds = b.binds;
          bits = λ j. refl;
          nodes = λ p. refl;
          events = refl;
          frees = hash_insert-erase_fn pair (int (pos n)) node false null s.ht;
        },
      )

  pub add_event-Refuses :
      (find_key (int (pos n)) s.ht == null) ≡ false
      → add_event fd_setsize node pair ev s m
        ≡ ok (record {
          evset = record s { ht = (insert_safe pair (pos n) node s.ht).table };
          memory = m;
          ret = 0;
        })
  unfolding add_event Hash.insert_safe
  add_event-Refuses taken =
      let b =
        insert_safe-Refuses pair (int (pos n)) (index n) node s.ht (index-Hashes n) w nz taken in
      rw (add_event, deref, ◌>>=◌, here, fd, fd, b.ret) refl
