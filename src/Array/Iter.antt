-- ===== src/Array/Iter.antt =====
-- The iterator of util/mcl_array.c and the loops of util/mcl_iterator.h over an array.
pub mod Walk
pub mod Erase
pub mod EraseLoop
use mcl.Base.{
  ℕ, zero, suc, Bool, true, false, Option, none, some, List, [], ◌∷◌, Run, ok, fault, ◌>>=◌, ℤ, pos,
  negsuc, minus_one, inc, dec, subscript, dec_u32, Ptr, null, FreeFn, Call, ◌==◌, if◌then◌else◌,
}
use mcl.Block.{read}
use mcl.Array.{Array, check_out_of_bounds}
use mcl.Array.Delete.{delete_indx}

-- The members of `mcl_iter` that an array uses: `_ptr`, `_data` and `_u._index`.
pub record Iter : Type 0 where
  pub ptr : Ptr
  pub user_data : Ptr
  pub index : ℤ

abbrev pub unset : Iter
unset = record { ptr = null; user_data = null; index = minus_one }

-- An iterator on an element. `_ptr` is the element itself.
abbrev pub on : Ptr → ℤ → Iter
on p i = record { ptr = p; user_data = p; index = i }

unfoldable pub iter_head : Array → Run Iter
iter_head a = if a.cur_size == 0 then ok unset else do p ← read a.all_data 0; ok (on p (pos 0))

-- Behind the test, `_cur_size - 1` as a subscript and as an `int` are one number.
unfoldable pub iter_tail : Array → Run Iter
iter_tail a =
    let last = dec_u32 a.cur_size in
    if a.cur_size == 0 then ok unset else do p ← read a.all_data last; ok (on p (pos last))

iter_at : ℤ → Array → Run Iter
iter_at i a =
    if check_out_of_bounds i a then ok unset else do p ← read a.all_data (subscript i); ok (on p i)

unfoldable pub iter_next : Iter → Array → Run Iter
unfolding iter_at
iter_next it a = iter_at (inc it.index) a

unfoldable pub iter_prev : Iter → Array → Run Iter
unfolding iter_at
iter_prev it a = iter_at (dec it.index) a

unfoldable pub iter_info : Iter → Array → Iter × Ptr
iter_info it a = if check_out_of_bounds it.index a then (unset, null) else (it, it.user_data)

-- What `def_iter_erase` leaves: the array, the calls, the iterator, and whether the result is the
-- iterator and not NULL.
pub record Erased : Type 0 where
  pub array : Array
  pub calls : List Call
  pub iter : Iter
  pub done : Bool

-- A branch on an indeterminate `erase_fn` is a fault. A NULL one is passed on as NULL.
erase_fn_of : Array → Run FreeFn
erase_fn_of a = elim a.erase_fn [ none ↦ fault | some fn ↦ ok fn ]

erase_at : ℤ → Array → Run Erased
erase_at index a = do
  fn ← erase_fn_of a
  o ← delete_indx index fn a
  elim o.ret [
    | negsuc n ↦ ok (record { array = o.array; calls = o.calls; iter = unset; done = false })
    | pos i ↦ do
      p ← read o.array.all_data i
      ok (record { array = o.array; calls = o.calls; iter = on p (pos i); done = true })
  ]

unfoldable pub iter_erase : Iter → Array → Run Erased
unfolding erase_fn_of erase_at
iter_erase it a =
    if check_out_of_bounds it.index a
    then ok (record { array = a; calls = []; iter = unset; done = false })
    else erase_at it.index a

-- The infos that the rounds of a loop read, and whether the fuel was enough: `none` if not.
abbrev pub Visit : Type 0
Visit = Run (Option (List Ptr))

abbrev pub visited : Ptr → Option (List Ptr) → Option (List Ptr)
visited p none = none
visited p (some ps) = some (p ∷ ps)

-- `MCL_FOREACH` with a body that asks for `MCL_ITERATOR_INFO`
unfoldable pub foreach_from : ℕ → Iter → Array → Visit
foreach_from zero it a = ok none
foreach_from (suc k) it a =
    let (it', p) = iter_info it a in
    let rest : Visit = (do it'' ← iter_next it' a; ps ← foreach_from k it'' a; ok (visited p ps)) in
    if it.ptr == null then ok (some []) else rest

unfoldable pub foreach : ℕ → Array → Visit
unfolding foreach_from iter_head
foreach fuel a = do it ← iter_head a; foreach_from fuel it a

-- `MCL_FOREACH_REVERSE`, likewise
unfoldable pub foreach_reverse_from : ℕ → Iter → Array → Visit
foreach_reverse_from zero it a = ok none
foreach_reverse_from (suc k) it a =
    let (it', p) = iter_info it a in
    let rest : Visit = (do
      it'' ← iter_prev it' a
      ps ← foreach_reverse_from k it'' a
      ok (visited p ps)) in
    if it.ptr == null then ok (some []) else rest

unfoldable pub foreach_reverse : ℕ → Array → Visit
unfolding foreach_reverse_from iter_tail
foreach_reverse fuel a = do it ← iter_tail a; foreach_reverse_from fuel it a
