-- ===== src/Hash/Calls.antt =====
-- The insertions, deletions and lookups of util/mcl_hash.c as calls of a client, and their
-- specification by a function from keys to values.
use mcl.Base.{
  ℕ, ◌<◌, ◌≡◌, Bool, true, false, not, ◌||◌, List, [], subscript, Ptr, null, FreeFn, Call, length,
  ◌==◌, if◌then◌else◌,
}
use mcl.LinkedList.{max_size, free_item}
use mcl.Keys.{Key, calc_hash, available_hash_value, key_cmp}
use mcl.Hash.{Hash, hash_insert, delete_key, find_key}
use mcl.Hash.Buckets.{has_addr}
use mcl.Hash.Map.{IsHash, at_index}

-- A call with a key of either type; `insert` replaces, `insert_safe` does not.
pub data HashCall : Type 0 where
  insert : (fresh : Ptr) → Key → Ptr → FreeFn → HashCall
  insert_safe : (fresh : Ptr) → Key → Ptr → HashCall
  delete : Key → FreeFn → HashCall
  find : Key → HashCall

-- What the client sees of a call: the values that were freed, and the result.
pub record Seen : Type 0 where
  pub calls : List Call
  pub ret : ℕ

abbrev pub seen : List Call → ℕ → Seen
seen cs r = record { calls = cs; ret = r }

unfoldable pub call : HashCall → Hash → Hash × Seen
call (insert fresh k d fn) t =
    let r = hash_insert fresh k d true fn t in (r.table, seen r.calls r.ret)
call (insert_safe fresh k d) t =
    let r = hash_insert fresh k d false null t in (r.table, seen r.calls r.ret)
call (delete k fn) t = let r = delete_key k fn t in (r.table, seen r.calls r.ret)
call (find k) t = (t, seen [] (find_key k t))

-- The value of each key, NULL for none.
abbrev pub Values : Type 0
Values = Key → Ptr

abbrev pub bind : Key → Ptr → Values → Values
bind k d f j = if key_cmp j k then d else f j

-- A key that the table has a place for: all but some negative numbers.
abbrev pub has_place : Key → Bool
has_place k = available_hash_value (calc_hash k)

unfoldable pub spec : HashCall → Values → Values × Seen
spec (insert fresh k d fn) f =
    if d == null || not (has_place k)
    then (f, seen [] 0)
    else (bind k d f, seen (free_item true fn (f k)) 1)
spec (insert_safe fresh k d) f =
    if d == null || not (has_place k)
    then (f, seen [] 0)
    else if f k == null
    then (bind k d f, seen [] 1)
    else (f, seen [] 0)
spec (delete k fn) f =
    if f k == null then (f, seen [] 0) else (bind k null f, seen (free_item true fn (f k)) 1)
spec (find k) f = (f, seen [] (f k))

-- A new pair has an address of its own, and room in its bucket.
abbrev pub HasRoom : (fresh : Ptr) → Key → Hash → Type 0
HasRoom fresh k t =
    let b = at_index t (subscript (calc_hash k)) in
    (has_addr fresh b ≡ false) × (length b < max_size)

abbrev pub IsAllowed : HashCall → Hash → Type 0
IsAllowed (insert fresh k d fn) t = HasRoom fresh k t
IsAllowed (insert_safe fresh k d) t = HasRoom fresh k t
IsAllowed (delete k fn) t = Unit
IsAllowed (find k) t = Unit

-- The table has these values.
pub record Shows (t : Hash) (f : Values) : Type 0 where
  pub table : IsHash t
  pub values : (k : Key) → find_key k t ≡ f k

-- The table and what is seen are those of the specification.
pub record Refines (r : Hash × Seen) (s : Values × Seen) : Type 0 where
  pub shows : Shows r.0 s.0
  pub same : r.1 ≡ s.1
