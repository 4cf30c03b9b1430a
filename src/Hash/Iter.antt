-- ===== src/Hash/Iter.antt =====
-- The iterator of util/mcl_hash.c, and the loops over a table. The iterator is unset, or on the node
-- of a pair in the bucket at its cursor; its key and its value are those of the pair. The list's
-- iterator walks the bucket.
pub mod Middle
pub mod Walk
pub mod Members
pub mod Removed
pub mod Sweep
use mcl.Base.{
  ℕ, zero, suc, ◌+◌, ◌-◌, Bool, true, false, Option, none, some, List, [], ◌∷◌, ◌++◌, Run, ok,
  fault, ◌>>=◌, ℤ, Ptr, null, FreeFn, Call, ltb, ◌==◌, if◌then◌else◌,
}
use mcl.LinkedList.{free_item}
use mcl.Hash.{Pair, Bucket, Hash, store, bucket_at, delete_pair}
use mcl.Keys.{Key, max_hash_size}

pub record At : Type 0 where
  pub cursor : ℕ
  pub pair : Pair

abbrev pub HashIter : Type 0
HashIter = Option At

-- `unset_iter`
abbrev pub unset : HashIter
unset = none

abbrev pub on : ℕ → Pair → HashIter
on i p = some (record { cursor = i; pair = p })

-- The search for a list that is not empty, with `k` indices left from `i` on, and the list's
-- `iter_head`. Where there is none, the last list is NULL or empty, and the iterator is unset.
unfoldable pub seek : (k i : ℕ) → Hash → HashIter
seek zero i t = unset
seek (suc k) i t =
    let rest = seek k (suc i) t in elim (bucket_at (t.tables i)) [ [] ↦ rest | p ∷ ps ↦ on i p ]

-- `def_hash_iter_head`
unfoldable pub iter_head : Hash → HashIter
unfolding seek
iter_head t = seek max_hash_size 0 t

-- `def_hash_iter_tail`, which starts at the head as well
unfoldable pub iter_tail : Hash → HashIter
unfolding iter_head
iter_tail t = iter_head t

abbrev pub first_pair : Bucket → Option Pair
first_pair [] = none
first_pair (p ∷ ps) = some p

-- The iterator on a pair of the bucket, or else another one.
abbrev pub on_or : ℕ → HashIter → Option Pair → HashIter
on_or c it none = it
on_or c it (some p) = on c p

-- The list's `iter_next` from the node of the pair at an address. The node must be in the list.
unfoldable pub list_next : Ptr → Bucket → Run (Option Pair)
list_next a [] = fault
list_next a (p ∷ ps) = let rest = list_next a ps in if p.addr == a then ok (first_pair ps) else rest

-- `def_hash_iter_next`
unfoldable pub iter_next : HashIter → Hash → Run HashIter
unfolding list_next
iter_next none t = ok unset
iter_next (some it) t =
    let c = it.cursor in
    let walk = λ (b : Bucket). (do
      q ← list_next it.pair.addr b
      ok (on_or c (seek (max_hash_size - suc c) (suc c) t) q)) in
    if ltb c max_hash_size
    then elim (t.tables c) [ none ↦ ok unset | some b ↦ walk b ]
    else ok unset

-- `def_hash_iter_prev`, which goes forward, too, and returns nothing.
unfoldable pub iter_prev : HashIter → Hash → Run HashIter
unfolding iter_next
iter_prev it t = iter_next it t

-- `mcl_hash_iter_key` of an iterator that is not NULL, `none` for NULL
unfoldable pub iter_key : HashIter → Option Key
iter_key none = none
iter_key (some it) = some it.pair.key

-- `def_hash_iter_info` and `mcl_hash_iter_val`
unfoldable pub iter_info : HashIter → Ptr
iter_info none = null
iter_info (some it) = it.pair.val

-- What an erasing leaves: the table, the calls made on values, the pairs freed, and the iterator.
pub record Erased : Type 0 where
  pub table : Hash
  pub calls : List Call
  pub freed : List Ptr
  pub iter : HashIter

-- `def_hash_iter_erase`
unfoldable pub iter_erase : HashIter → Hash → Run Erased
unfolding iter_next
iter_erase none t = ok (record { table = t; calls = []; freed = []; iter = unset })
iter_erase (some it) t =
    let c = it.cursor in
    let p = it.pair in
    let erase = λ (b : Bucket). (do
      next ← iter_next (some it) t
      ok (record {
        table = store c (some (delete_pair p.addr b)) t;
        calls = free_item true t.erase_fn p.val;
        freed = p.addr ∷ [];
        iter = next;
      })) in
    let nothing : Erased = record { table = t; calls = []; freed = []; iter = unset } in
    if ltb c max_hash_size
    then elim (t.tables c) [ none ↦ ok nothing | some b ↦ erase b ]
    else ok nothing

-- A loop by `ITER_HEAD`, `MCL_ITERATOR_ERASE` and `ITER_NEXT` of util/mcl_iterator.h:
-- `for (ITER_HEAD; !ITER_NULL;) { ...; if (erase) { ERASE; ...; continue; } ITER_NEXT; }`. The body
-- says whether to erase, and `cleanup` is what the calls of an erasing and the lines behind it do.
module _ {S : Type 0} (body : Pair → S → Bool × S) (cleanup : List Call → Pair → S → S) where
  unfoldable pub sweep : ℕ → HashIter → Hash → S → Run (Option (Hash × S))
  sweep zero it t s = ok none
  sweep (suc k) none t s = ok (some (t, s))
  sweep (suc k) (some a) t s =
      let (gone, s') = body a.pair s in
      elim gone [
        | true ↦ do r ← iter_erase (some a) t; sweep k r.iter r.table (cleanup r.calls a.pair s')
        | false ↦ do it ← iter_next (some a) t; sweep k it t s'
      ]
