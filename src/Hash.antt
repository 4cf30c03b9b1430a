-- ===== src/Hash.antt =====
-- The hash table of util/mcl_hash.c. A bucket is an `mcl_list` of pairs, here the
-- sequence of the pairs from its head on; LinkedList has the operations on it in memory. The
-- allocations succeed, and the table is not NULL.
pub mod Buckets
pub mod Map
pub mod Insert
pub mod Delete
pub mod EraseFn
pub mod Calls
pub mod Session
pub mod Clean
pub mod InMemory
pub mod Iter
use mcl.Base.{
  ℕ, zero, suc, ◌+◌, ◌*◌, ◌%◌, Bool, true, false, not, ◌&&◌, Option, none, some, List, [], ◌∷◌,
  ◌++◌, ℤ, pos, negsuc, subscript, Ptr, null, FreeFn, Call, length, ltb, leb, ◌==◌, if◌then◌else◌,
  CtrlCmd, regist_erase_fn, unregist_erase_fn, unknown_cmd,
}
use mcl.LinkedList.{max_size, free_item}
use mcl.Keys.{Key, int, str, max_hash_size, calc_hash, available_hash_value, key_cmp}

-- A pair at its address, with its key read through `_key`.
pub record Pair : Type 0 where
  pub addr : Ptr
  pub key : Key
  pub val : Ptr

abbrev pub Bucket : Type 0
Bucket = List Pair

-- `none` is a bucket that is NULL.
pub record Hash : Type 0 where
  pub tables : ℕ → Option Bucket
  pub erase_fn : FreeFn

-- `mcl_list_find` by `pair_pair_cmp` or `key_pair_cmp`. No pair is NULL.
unfoldable pub find_pair : Key → Bucket → Option Pair
find_pair k [] = none
find_pair k (p ∷ ps) = if key_cmp k p.key then some p else find_pair k ps

-- `mcl_list_delete` of a pair, without a free function
unfoldable pub delete_pair : Ptr → Bucket → Bucket
delete_pair a [] = []
delete_pair a (p ∷ ps) = if p.addr == a then ps else p ∷ delete_pair a ps

-- What an operation leaves and returns: the table, the calls made on values, the addresses of the
-- pairs freed, and the `int`.
pub record Change : Type 0 where
  pub table : Hash
  pub calls : List Call
  pub freed : List Ptr
  pub ret : ℕ

abbrev pub change : Hash → List Call → List Ptr → ℕ → Change
change t cs ps r = record { table = t; calls = cs; freed = ps; ret = r }

abbrev pub store : ℕ → Option Bucket → Hash → Hash
store i b t = record t { tables = λ j. if j == i then b else t.tables j }

-- The list at an index, made by `mcl_list_new` where there is none.
abbrev pub bucket_at : Option Bucket → Bucket
bucket_at none = []
bucket_at (some b) = b

-- The end of `do_hash_insert`: `mcl_list_insert`, with what was destroyed before it.
unfoldable pub put_pair : ℕ → Pair → Bucket → List Call → List Ptr → Hash → Change
put_pair i p b cs freed t =
    if leb max_size (length b)
    then change (store i (some b) t) cs freed 0
    else change (store i (some (p ∷ b)) t) cs freed 1

unfoldable pub do_hash_insert : ℤ → Pair → Bool → FreeFn → Hash → Change
unfolding put_pair
do_hash_insert hash p sub_flg fn t =
    let i = subscript hash in
    let b = bucket_at (t.tables i) in
    if not (available_hash_value hash) then change t [] [] 0 else elim (find_pair p.key b) [
      | none ↦ put_pair i p b [] [] t
      | some found ↦
          if not sub_flg
          then change (store i (some b) t) [] [] 0
          else put_pair i p (delete_pair found.addr b) (free_item true fn found.val)
              (found.addr ∷ []) t
    ]

-- `hash_insert`. The new pair is at `fresh`; if it is not inserted, it is destroyed.
unfoldable pub hash_insert : (fresh : Ptr) → Key → Ptr → Bool → FreeFn → Hash → Change
unfolding do_hash_insert
hash_insert fresh key d sub_flg fn t =
    let p : Pair = record { addr = fresh; key = key; val = d } in
    let r = do_hash_insert (calc_hash key) p sub_flg fn t in
    if d == null
    then change t [] [] 0
    else if r.ret == 0
    then change r.table r.calls (r.freed ++ (fresh ∷ [])) 0
    else r

-- `mcl_int_hash_insert_safe`
unfoldable pub insert_safe : (fresh : Ptr) → ℤ → Ptr → Hash → Change
insert_safe fresh key d t = hash_insert fresh (int key) d false null t

-- `mcl_str_hash_insert_safe` of a key that is not NULL
unfoldable pub str_insert_safe : (fresh : Ptr) → List ℕ → Ptr → Hash → Change
unfolding hash_insert
str_insert_safe fresh key d t = hash_insert fresh (str key) d false null t

-- `mcl_int_hash_insert`
unfoldable pub insert : (fresh : Ptr) → ℤ → Ptr → FreeFn → Hash → Change
insert fresh key d fn t = hash_insert fresh (int key) d true fn t

-- `mcl_str_hash_insert` of a key that is not NULL
unfoldable pub str_insert : (fresh : Ptr) → List ℕ → Ptr → FreeFn → Hash → Change
unfolding hash_insert
str_insert fresh key d fn t = hash_insert fresh (str key) d true fn t

unfoldable pub hash_delete : ℤ → Key → FreeFn → Hash → Change
hash_delete hash key fn t =
    let i = subscript hash in
    if not (available_hash_value hash) then change t [] [] 0 else elim (t.tables i) [
      | none ↦ change t [] [] 0
      | some b ↦ elim (find_pair key b) [
        | none ↦ change t [] [] 0
        | some found ↦
            change (store i (some (delete_pair found.addr b)) t) (free_item true fn found.val)
              (found.addr ∷ []) 1
      ]
    ]

-- What both deletions do with the key that they make.
unfoldable pub delete_key : Key → FreeFn → Hash → Change
unfolding hash_delete
delete_key key fn t = hash_delete (calc_hash key) key fn t

-- `mcl_int_hash_delete`
unfoldable pub delete : ℤ → FreeFn → Hash → Change
unfolding delete_key
delete key fn t = delete_key (int key) fn t

-- `mcl_str_hash_delete` of a key that is not NULL
unfoldable pub str_delete : List ℕ → FreeFn → Hash → Change
unfolding delete_key
str_delete key fn t = delete_key (str key) fn t

unfoldable pub value : Option Pair → Ptr
value none = null
value (some p) = p.val

unfoldable pub hash_find : ℤ → Key → Hash → Ptr
unfolding value
hash_find hash key t =
    if not (available_hash_value hash)
    then null
    else elim (t.tables (subscript hash)) [ none ↦ null | some b ↦ value (find_pair key b) ]

-- What both lookups do with the key that they make.
unfoldable pub find_key : Key → Hash → Ptr
unfolding hash_find
find_key key t = hash_find (calc_hash key) key t

-- `mcl_int_hash_find`
unfoldable pub find : ℤ → Hash → Ptr
unfolding find_key
find key t = find_key (int key) t

-- `mcl_str_hash_find` of a key that is not NULL
unfoldable pub str_find : List ℕ → Hash → Ptr
unfolding find_key
str_find key t = find_key (str key) t

-- `destroy_pair` on each pair of a list
unfoldable pub destroy_pairs : FreeFn → Bucket → List Call × List Ptr
destroy_pairs fn [] = ([], [])
destroy_pairs fn (p ∷ ps) =
    let (cs, freed) = destroy_pairs fn ps in (free_item true fn p.val ++ cs, p.addr ∷ freed)

-- `mcl_hash_clean` from the index `i` on, with `k` indices left
unfoldable pub clean_loop : (k i : ℕ) → FreeFn → Hash → Change
clean_loop zero i fn t = change t [] [] 0
clean_loop (suc k) i fn t = elim (t.tables i) [
  | none ↦ clean_loop k (suc i) fn t
  | some b ↦
      let rest = clean_loop k (suc i) fn (store i none t) in
      let (cs, freed) = destroy_pairs fn b in
      change rest.table (cs ++ rest.calls) (freed ++ rest.freed) 0
]

unfoldable pub clean : FreeFn → Hash → Change
unfolding clean_loop
clean fn t = clean_loop max_hash_size 0 fn t

-- `mcl_hash_destroy` of a table that is not NULL: the calls made on values, and the addresses of the
-- pairs freed. The table is gone.
unfoldable pub destroy : FreeFn → Hash → List Call × List Ptr
unfolding clean
destroy fn t = let r = clean fn t in (r.calls, r.freed)

-- `mcl_int_hash_new` and `mcl_str_hash_new`
unfoldable pub new : Hash
new = record { tables = λ i. none; erase_fn = null }

unfoldable pub set_erase_fn : CtrlCmd → Ptr → Hash → Hash × Bool
set_erase_fn regist_erase_fn fn t = (record t { erase_fn = fn }, true)
set_erase_fn unregist_erase_fn fn t = (record t { erase_fn = null }, true)
set_erase_fn (unknown_cmd c) fn t = (t, false)

-- `mcl_hash_ctrl`
unfoldable pub ctrl : CtrlCmd → Ptr → Hash → Hash × Bool
unfolding set_erase_fn
ctrl cmd fn t = if fn == null then (t, false) else set_erase_fn cmd fn t
