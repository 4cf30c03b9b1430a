-- ===== src/Array/Limits.antt =====
-- What the operations do at an index that no element has, and at the index 0 of an empty array.
use mcl.Base.{
  ℕ, ◌-◌, ◌≤◌, ◌<◌, ◌≡◌, refl, ap, ◌∙◌, true, false, List, [], Ptr, null, FreeFn, some, Run, ok,
  fault, Returns, ℤ, pos, negsuc, minus_one, dec_u32, length, arith, >>=-fault,
}
use mcl.Block.{put, read_out_of_bounds, write-ok, move}
use mcl.Block.Moves.{shift_down, shift_up}
use mcl.Array.{Array, Outcome, outcome, check_out_of_bounds, at, free_cell, try_extend_array}
use mcl.Array.View.{IsArray, check-out_of_bounds}
use mcl.Array.Insert.{insert, preinsert, grown}
use mcl.Array.Delete.{delete_indx, delete, delete_range}
use mcl.Array.Delete.Loops.{shift_down_fault}

-- A negative index, or a positive one past the elements.
abbrev pub IsOutside : ℤ → List Ptr → Type 0
IsOutside (pos i) xs = (0 < i) × (length xs ≤ i)
IsOutside (negsuc n) xs = Unit

-- A call that returns -1 and leaves the array.
abbrev pub Refuses : Array → Run Outcome → Type 0
Refuses a r = r ≡ ok (outcome a [] minus_one)

outside-check :
    {a : Array} {xs : List Ptr} (i : ℤ)
    → IsArray a xs
    → IsOutside i xs
    → check_out_of_bounds i a ≡ true
unfolding check_out_of_bounds
outside-check (pos i) v o = check-out_of_bounds v i o.0 o.1
outside-check (negsuc n) v o = refl

-- Every operation that takes an index refuses one that lies outside, and `mcl_array_at` gives
-- NULL; `mcl_array_delete_range` refuses it as either end.
pub outside_refused :
    {a : Array} {xs : List Ptr} (i j : ℤ) (p fn : Ptr)
    → IsArray a xs
    → IsOutside i xs
    → Refuses a (insert p i a)
      × Refuses a (preinsert p i a)
      × Refuses a (delete_indx i fn a)
      × Refuses a (delete i fn a)
      × Refuses a (delete_range i j fn a)
      × Refuses a (delete_range j i fn a)
      × (at i a ≡ ok null)
unfolding insert preinsert delete_indx delete delete_range at
outside_refused {a} i j p fn v o =
    let e = outside-check i v o in (rw e, rw e, rw e, rw e, rw e, ground arith, rw e)

-- The bound `_cur_size - 1` of the loop, for an empty array.
full : (n : ℕ) → n ≡ 0 → dec_u32 n - 0 ≡ 0xffff_ffff
full n h = omega arith

module _ {a : Array} (v : IsArray a []) where
  empty-check : check_out_of_bounds (pos 0) a ≡ false
  unfolding check_out_of_bounds
  empty-check = ground arith

  -- At the index 0 of an empty array of capacity above 1, `mcl_array_insert` returns 1, counts one
  -- element and leaves it in the second cell, the first cell being as before.
  pub insert_empty :
      (p : Ptr)
      → 1 < a.total_size
      → Returns (insert p (pos 0) a) λ o.
        (o.ret ≡ pos 1)
        × (o.array.cur_size ≡ 1)
        × (o.array.all_data.cell 0 ≡ a.all_data.cell 0)
        × (o.array.all_data.cell 1 ≡ some p)
  unfolding insert shift_up try_extend_array
  insert_empty p h =
      let unmoved : a.cur_size - 1 - 0 ≡ 0 = omega arith in
      (
        outcome (grown a (put a.all_data 1 p)) [] (pos 1),
        rw empty-check (
            ground
              (arith, unmoved, ap (λ k. shift_up k 1 a.all_data) unmoved, write-ok a.all_data 1 p)),
        (refl, omega arith, refl, refl),
      )

  -- At the index 0 of an empty array, `mcl_array_delete_indx` and `mcl_array_delete` leave the
  -- block, whatever the free function is.
  pub delete_empty_faults :
      (fn : FreeFn) → (delete_indx (pos 0) fn a ≡ fault) × (delete (pos 0) fn a ≡ fault)
  unfolding delete_indx delete move
  delete_empty_faults fn =
      let far = read_out_of_bounds a.all_data (dec_u32 a.cur_size) (omega arith) in
      let runs = shift_down_fault (0xffff_fffe) 0 a.all_data (omega arith) in
      (
        rw empty-check (
            >>=-fault (free_cell fn a.all_data 0) _
              λ cs. rw (ap (λ k. shift_down k 0 a.all_data) (full a.cur_size v.size) ∙ runs)),
        rw empty-check (>>=-fault (free_cell fn a.all_data 0) _ λ cs. rw far),
      )
