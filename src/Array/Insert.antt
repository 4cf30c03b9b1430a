-- ===== src/Array/Insert.antt =====
-- The insertions of util/mcl_array.c: at the end, at the front, after and before an index.
pub mod AsList
use mcl.Base.{
  ℕ, suc, ◌+◌, ◌-◌, ◌%◌, ◌^◌, [], Run, ok, ◌>>=◌, ℤ, pos, minus_one, subscript, dec_u32, Ptr, ◌==◌,
  if◌then◌else◌,
}
use mcl.Block.{Block, write}
use mcl.Block.Moves.{shift_up}
use mcl.Array.{Array, Outcome, outcome, check_out_of_bounds, try_extend_array}

-- `INCREASE_SIZE` behind a write to the block
abbrev pub grown : Array → Block → Array
grown a b = record a { all_data = b; cur_size = (a.cur_size + 1) % 2 ^ 32 }

unfoldable pub append : Ptr → Array → Run Outcome
append p a = do
  a' ← try_extend_array a
  b ← write a'.all_data a.cur_size p
  ok (outcome (grown a' b) [] (pos a.cur_size))

unfoldable pub preappend : Ptr → Array → Run Outcome
preappend p a = do
  a' ← try_extend_array a
  b ← shift_up a.cur_size 0 a'.all_data
  b' ← write b 0 p
  ok (outcome (grown a' b') [] (pos 0))

insert_after : Ptr → ℕ → Array → Run Outcome
insert_after p i a = do
  a' ← try_extend_array a
  b ← shift_up (a.cur_size - 1 - i) (suc i) a'.all_data
  b' ← write b (suc i) p
  ok (outcome (grown a' b') [] (pos (suc i)))

-- The test of the index against `_cur_size - 1` is an unsigned one. In the loop's start
-- `i = _cur_size - 1` the difference is an `int` again, -1 for an empty array.
unfoldable pub insert : Ptr → ℤ → Array → Run Outcome
unfolding insert_after
insert p index a =
    if check_out_of_bounds index a
    then ok (outcome a [] minus_one)
    else if subscript index == dec_u32 a.cur_size
    then append p a
    else insert_after p (subscript index) a

insert_before : Ptr → ℕ → Array → Run Outcome
insert_before p i a = do
  a' ← try_extend_array a
  b ← shift_up (a.cur_size - i) i a'.all_data
  b' ← write b i p
  ok (outcome (grown a' b') [] (pos i))

unfoldable pub preinsert : Ptr → ℤ → Array → Run Outcome
unfolding insert_before
preinsert p index a =
    if check_out_of_bounds index a
    then ok (outcome a [] minus_one)
    else if subscript index == 0
    then preappend p a
    else insert_before p (subscript index) a
