-- ===== src/Array.antt =====
-- The array of util/mcl_array.c: its struct, construction, growth and reads.
-- A NULL `mcl_array *` is treated in `Array/Api`; here the array is a valid pointer's target.
pub mod Insert
pub mod Delete
pub mod View
pub mod Limits
pub mod Sizes
pub mod Iter
pub mod Api
use mcl.Base.{
  CtrlCmd, regist_erase_fn, unregist_erase_fn, unknown_cmd, ℕ, zero, suc, ◌+◌, ◌-◌, ◌*◌, ◌%◌, ◌^◌,
  Bool, true, ◌||◌, Option, none, some, List, [], ◌∷◌, ◌++◌, Run, ok, fault, ◌>>=◌, ℤ, pos, negsuc,
  minus_one, subscript, Ptr, null, FreeFn, Call, ltb, leb, ◌==◌, if◌then◌else◌,
}
use mcl.Block.{Block, malloc, realloc, read, write}

-- `mcl_array` without the six iterator functions, which are the same in every array. The sizes are
-- `unsigned int`. `erase_fn` is `none` while it is indeterminate.
pub record Array : Type 0 where
  pub all_data : Block
  pub cur_size : ℕ
  pub total_size : ℕ
  pub erase_fn : Option FreeFn

-- What a call leaves and returns: the array, the calls of `free_fn` made, and the `int`.
pub record Outcome : Type 0 where
  pub array : Array
  pub calls : List Call
  pub ret : ℤ

abbrev pub outcome : Array → List Call → ℤ → Outcome
outcome a cs r = record { array = a; calls = cs; ret = r }

-- `MCL_ARR_DEFAULT_SIZE`
abbrev pub default_size : ℕ
default_size = 64

-- The index is an `int` and the size is unsigned; an index that gets so far is not negative.
unfoldable pub check_out_of_bounds : ℤ → Array → Bool
check_out_of_bounds (negsuc n) a = true
check_out_of_bounds (pos i) a = if a.cur_size == 0 then ltb a.cur_size i else leb a.cur_size i

-- `for (; i < i + k; ++ i) b[i] = NULL;`
unfoldable pub null_cells : (k i : ℕ) → Block → Run Block
null_cells zero i b = ok b
null_cells (suc k) i b = do b' ← write b i null; null_cells k (suc i) b'

-- A shift that overflows an `int` is a fault.
capacity_for : ℕ → Run ℕ
capacity_for n =
    if ltb default_size n
    then (if ltb (n * 2) (2 ^ 31) then ok (n * 2) else fault)
    else ok default_size

-- The result is NULL for a negative size. `erase_fn` is not set.
unfoldable pub new : ℤ → Run (Option Array)
unfolding capacity_for
new (negsuc n) = ok none
new (pos n) = do
  capacity ← capacity_for n
  b ← null_cells capacity 0 (malloc capacity)
  ok (some (record { all_data = b; cur_size = 0; total_size = capacity; erase_fn = none }))

-- A size of 2^31 or more arrives as a negative `int`, and `realloc` is asked for more than there is.
unfoldable pub extend_array : ℕ → Array → Run Array
extend_array new_size a =
    if leb new_size a.total_size
    then ok a
    else if leb (2 ^ 31) new_size
    then fault
    else ok (record a { all_data = realloc new_size a.all_data; total_size = new_size })

unfoldable pub try_extend_array : Array → Run Array
unfolding extend_array
try_extend_array a =
    if leb a.total_size a.cur_size then extend_array (a.total_size * 2 % 2 ^ 32) a else ok a

-- `expect_sz` is an `int`, compared as unsigned with the capacity.
unfoldable pub tighten : Array → Array
tighten a =
    let expect_sz = a.cur_size * 2 % 2 ^ 32 in
    if leb a.total_size expect_sz
    then a
    else record a { all_data = realloc expect_sz a.all_data; total_size = expect_sz }

-- `if (free_fn != NULL && b[i] != NULL) free_fn(b[i]);`
unfoldable pub free_cell : FreeFn → Block → ℕ → Run (List Call)
free_cell fn b i =
    if fn == 0 then ok [] else do p ← read b i; ok (if p == null then [] else (fn, p) ∷ [])

unfoldable pub clean_loop : (k i : ℕ) → FreeFn → Block → Run (Block × List Call)
clean_loop zero i fn b = ok (b, [])
clean_loop (suc k) i fn b = do
  freed ← free_cell fn b i
  b' ← write b i null
  (b'', rest) ← clean_loop k (suc i) fn b'
  ok (b'', freed ++ rest)

-- `mcl_array_destroy` makes the same calls, and then frees the block and the struct.
unfoldable pub clean : FreeFn → Array → Run (Array × List Call)
clean fn a = do
  (b, calls) ← clean_loop a.cur_size 0 fn a.all_data
  ok (record a { all_data = b; cur_size = 0 }, calls)

unfoldable pub at : ℤ → Array → Run Ptr
unfolding check_out_of_bounds
at i a = if check_out_of_bounds i a then ok null else read a.all_data (subscript i)

set_erase_fn : CtrlCmd → Ptr → Array → Outcome
set_erase_fn regist_erase_fn fn a = outcome (record a { erase_fn = some fn }) [] (pos 1)
set_erase_fn unregist_erase_fn fn a = outcome (record a { erase_fn = some null }) [] (pos 1)
set_erase_fn (unknown_cmd c) fn a = outcome a [] (pos 0)

unfoldable pub ctrl : CtrlCmd → Ptr → Array → Outcome
unfolding set_erase_fn
ctrl cmd fn a = if fn == null then outcome a [] (pos 0) else set_erase_fn cmd fn a
