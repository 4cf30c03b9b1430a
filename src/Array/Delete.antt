-- ===== src/Array/Delete.antt =====
-- The deletions of util/mcl_array.c: keeping the order, by the last element, by value, by range.
pub mod Loops
pub mod AsList
pub mod Range
use mcl.Base.{
  ℕ, zero, suc, ◌+◌, ◌-◌, ◌||◌, List, [], ◌∷◌, ◌++◌, Run, ok, ◌>>=◌, ℤ, pos, minus_one, subscript,
  dec_u32, Ptr, null, FreeFn, Call, ltb, leb, ◌==◌, if◌then◌else◌,
}
use mcl.Block.{Block, read, write, move}
use mcl.Block.Moves.{shift_down}
use mcl.Array.{Array, Outcome, outcome, check_out_of_bounds, free_cell}

-- `DECREASE_SIZE` behind a write to the block; its test `_cur_size < 0` never holds.
abbrev pub shrunk : Array → Block → Array
shrunk a b = record a { all_data = b; cur_size = dec_u32 a.cur_size }

-- The loop's bound `_cur_size - 1` is unsigned. Its `i` ends at the bound, or at the index if
-- that is larger.
delete_keeping_order : ℕ → FreeFn → Array → Run Outcome
delete_keeping_order i fn a = do
  calls ← free_cell fn a.all_data i
  b ← shift_down (dec_u32 a.cur_size - i) i a.all_data
  b' ← write b (i + (dec_u32 a.cur_size - i)) null
  ok (outcome (shrunk a b') calls (pos i))

unfoldable pub delete_indx : ℤ → FreeFn → Array → Run Outcome
unfolding delete_keeping_order
delete_indx index fn a =
    if check_out_of_bounds index a
    then ok (outcome a [] minus_one)
    else delete_keeping_order (subscript index) fn a

delete_by_last : ℕ → FreeFn → Array → Run Outcome
delete_by_last i fn a = do
  calls ← free_cell fn a.all_data i
  b ← move i (dec_u32 a.cur_size) a.all_data
  b' ← write b (dec_u32 a.cur_size) null
  ok (outcome (shrunk a b') calls (pos i))

unfoldable pub delete : ℤ → FreeFn → Array → Run Outcome
unfolding delete_by_last
delete index fn a =
    if check_out_of_bounds index a
    then ok (outcome a [] minus_one)
    else delete_by_last (subscript index) fn a

-- The index where the search stops, with `k` elements left from `i` on.
unfoldable pub find_obj : (k i : ℕ) → Ptr → Block → Run ℕ
find_obj zero i p b = ok i
find_obj (suc k) i p b = do
  q ← read b i
  let rest = find_obj k (suc i) p b
  if p == q then ok i else rest

unfoldable pub delete_obj : Ptr → FreeFn → Array → Run Outcome
delete_obj p fn a = do
  i ← find_obj a.cur_size 0 p a.all_data
  if leb a.cur_size i then ok (outcome a [] minus_one) else delete (pos i) fn a

-- `b[i] = NULL`, where the element has been freed
unfoldable pub null_freed : List Call → ℕ → Block → Run Block
null_freed [] i b = ok b
null_freed (c ∷ cs) i b = write b i null

-- The first loop of `mcl_array_delete_range`: a cell is set to NULL only where it is freed.
unfoldable pub free_range : (k i : ℕ) → FreeFn → Block → Run (Block × List Call)
free_range zero i fn b = ok (b, [])
free_range (suc k) i fn b = do
  freed ← free_cell fn b i
  b' ← null_freed freed i b
  (b'', rest) ← free_range k (suc i) fn b'
  ok (b'', freed ++ rest)

-- The second loop: `b[i - cnt] = b[i]; b[i] = NULL;`
unfoldable pub close_gap : (k i cnt : ℕ) → Block → Run Block
close_gap zero i cnt b = ok b
close_gap (suc k) i cnt b = do
  b' ← move (i - cnt) i b
  b'' ← write b' i null
  close_gap k (suc i) cnt b''

remove_cells : (b e : ℕ) → FreeFn → Array → Run Outcome
remove_cells b e fn a = do
  (m, calls) ← free_range (e - b) b fn a.all_data
  m' ← close_gap (a.cur_size - e) e (e - b) m
  ok (outcome (record a { all_data = m'; cur_size = a.cur_size - (e - b) }) calls (pos (e - b)))

-- Equal indices delete one element. The source computes the difference of the indices before it
-- tests them; here it is taken where they are in range.
unfoldable pub delete_range : ℤ → ℤ → FreeFn → Array → Run Outcome
unfolding remove_cells
delete_range bindex eindex fn a =
    if check_out_of_bounds bindex a || check_out_of_bounds eindex a
    then ok (outcome a [] minus_one)
    else if ltb (subscript eindex) (subscript bindex)
    then ok (outcome a [] minus_one)
    else if subscript bindex == subscript eindex
    then (do o ← delete_indx bindex fn a; ok (outcome o.array o.calls (pos 1)))
    else remove_cells (subscript bindex) (subscript eindex) fn a
