-- ===== src/Array/Delete/AsList.antt =====
-- What the deletions of single elements do to the list that the array stands for.
use mcl.Base.{
  ℕ, suc, ◌+◌, ◌-◌, ◌≤◌, ◌<◌, ◌≡◌, refl, ap, ◌∙◌, List, [], ◌∷◌, Ptr, FreeFn, null, ok, Returns,
  pos, minus_one, length, get_elem?, set, length-set, remove_range, length-remove_range,
  get_elem?-remove_range, lt_of_get_elem?, drop_last, length-drop_last, get_elem?-drop_last-set,
  some, ◌==◌, dec_u32, Bool-cases, inl, inr, arith,
}
use mcl.Block.{put, write-ok, move-ok}
use mcl.Block.Moves.{shift_down_lem}
use mcl.Array.{Array, Outcome, outcome, clean, clean_loop}
use mcl.Array.View.{IsArray, Yields, IsArray-IsInit, check-in_bounds}
use mcl.Array.Delete.{shrunk, delete_indx, delete, find_obj, delete_obj}
use mcl.Array.Delete.Loops.{
  free_calls, calls_of, find_index, HoldsAt, free_cell-ok, clean_loop_lem, find_obj_lem,
}

gap-one : (i j : ℕ) → j + (suc i - i) ≡ suc j
gap-one i j = omega arith

pub find_index-le : (p : Ptr) (xs : List Ptr) → find_index p xs ≤ length xs
unfolding find_index
find_index-le p [] = omega arith
find_index-le p (q ∷ qs) = ground (arith, find_index-le p qs)

pub get_elem?-find_index :
    (p : Ptr) (xs : List Ptr)
    → find_index p xs < length xs
    → get_elem? xs (find_index p xs) ≡ some p
unfolding find_index
get_elem?-find_index p [] h = elim h [ ]
get_elem?-find_index p (q ∷ qs) h = elim (Bool-cases (p == q)) [
  | inl e ↦ rw e (ground arith)
  | inr e ↦ rw e (get_elem?-find_index p qs (ground arith))
]

module _ {a : Array} {xs : List Ptr} (v : IsArray a xs) (fn : FreeFn) where
  -- The cell behind the last element is NULL after the deletion, which an iterator reads.
  pub delete_indx-null :
      (i : ℕ) {x : Ptr}
      → get_elem? xs i ≡ some x
      → (o : Outcome) × (delete_indx (pos i) fn a ≡ ok o)
        × Yields a (remove_range i (suc i) xs) (free_calls fn x) (pos i) o
        × (o.array.all_data.cell (length xs - 1) ≡ some null)
        × (o.array.total_size ≡ a.total_size)
  unfolding delete_indx
  delete_indx-null i {x} e =
      let h = lt_of_get_elem? xs i e in
      let k = dec_u32 a.cur_size - i in
      let (b, run, s) =
        shift_down_lem k i a.all_data (omega arith)
          (IsArray-IsInit (suc i) (suc (i + k)) v (omega arith)) in
      (
        outcome (shrunk a (put b (i + k) null)) (free_calls fn x) (pos i),
        rw (
          check-in_bounds v i h,
          free_cell-ok fn a.all_data i x (omega arith) (v.cells i h ∙ e),
          run,
          write-ok b (i + k) null (omega arith),
        ),
        record {
          models = record {
            size = omega (arith, length-remove_range i (suc i) xs);
            total = omega arith;
            fits = omega arith;
            small = omega arith;
            cells = λ j l. ground (
              arith,
              s.cell j,
              v.cells j,
              v.cells (suc j),
              length-remove_range i (suc i) xs,
              get_elem?-remove_range i (suc i) xs j,
              ap (get_elem? xs) (gap-one i j),
            );
          };
          capacity = omega arith;
          kept = refl;
          calls = refl;
          ret = refl;
        },
        ground arith,
        refl,
      )

  -- `mcl_array_delete_indx` at the index of an element frees it, closes the gap in order, and
  -- returns the index.
  pub delete_indx-Yields :
      (i : ℕ) {x : Ptr}
      → get_elem? xs i ≡ some x
      → Returns
          (delete_indx (pos i) fn a)
          (Yields a (remove_range i (suc i) xs) (free_calls fn x) (pos i))
  delete_indx-Yields i e = let (o, run, y, cleared, same) = delete_indx-null i e in (o, run, y)

  -- `mcl_array_delete` at the index of an element frees it, puts the last element in its place,
  -- and returns the index.
  pub delete-Yields :
      (i : ℕ) {x y : Ptr}
      → get_elem? xs i ≡ some x
      → get_elem? xs (length xs - 1) ≡ some y
      → Returns (delete (pos i) fn a) (Yields a (drop_last (set xs i y)) (free_calls fn x) (pos i))
  unfolding delete
  delete-Yields i {x} {y} e f =
      let h = lt_of_get_elem? xs i e in
      let n = dec_u32 a.cur_size in
      let m : n < length xs = omega arith in
      let last : a.all_data.cell n ≡ some y =
        v.cells n m ∙ ap (get_elem? xs) {y = length xs - 1} (omega arith) ∙ f in
      (
        outcome (shrunk a (put (put a.all_data i y) n null)) (free_calls fn x) (pos i),
        rw (
          check-in_bounds v i h,
          free_cell-ok fn a.all_data i x (omega arith) (v.cells i h ∙ e),
          move-ok i n y a.all_data (omega arith) (omega arith) last,
          write-ok (put a.all_data i y) n null (omega arith),
        ),
        record {
          models = record {
            size = omega (arith, length-drop_last (set xs i y), length-set xs i y);
            total = omega arith;
            fits = omega arith;
            small = omega arith;
            cells = λ j l. ground (
              arith,
              v.cells j,
              get_elem?-drop_last-set xs i y j h,
              length-drop_last (set xs i y),
              length-set xs i y,
            );
          };
          capacity = omega arith;
          kept = refl;
          calls = refl;
          ret = refl;
        },
      )

  HoldsAt-zero : HoldsAt a.all_data 0 xs
  HoldsAt-zero j l = ap a.all_data.cell {x = 0 + j} {y = j} (omega arith) ∙ v.cells j l

  find_obj-find_index : (p : Ptr) → find_obj a.cur_size 0 p a.all_data ≡ ok (find_index p xs)
  find_obj-find_index p =
      ap (λ n. find_obj n 0 p a.all_data) v.size
      ∙ find_obj_lem xs 0 p a.all_data (omega arith) HoldsAt-zero
      ∙ ap ok (omega arith)

  -- `mcl_array_delete_obj` of an element that is not there returns -1 and leaves the array.
  pub delete_obj_absent :
      (p : Ptr) → find_index p xs ≡ length xs → delete_obj p fn a ≡ ok (outcome a [] minus_one)
  unfolding delete_obj
  delete_obj_absent p e = rw (find_obj-find_index p) (ground arith)

  -- `mcl_array_delete_obj` of an element deletes its first occurrence, the last element taking its
  -- place, frees it, and returns the index of that occurrence.
  pub delete_obj-Yields :
      (p : Ptr) {y : Ptr}
      → find_index p xs < length xs
      → get_elem? xs (length xs - 1) ≡ some y
      → Returns (delete_obj p fn a) (
          Yields a
            (drop_last (set xs (find_index p xs) y))
            (free_calls fn p)
            (pos (find_index p xs)))
  unfolding delete_obj
  delete_obj-Yields p {y} h f =
      let (o, run, done) = delete-Yields (find_index p xs) (get_elem?-find_index p xs h) f in
      (o, rw (find_obj-find_index p) (ground (arith, run)), done)

  -- `mcl_array_clean` frees every element once, in order, and leaves an empty array of the same
  -- capacity.
  pub clean-IsArray :
      (a' : Array) × (clean fn a ≡ ok (a', calls_of fn xs))
      × IsArray a' []
      × (a'.total_size ≡ a.total_size)
      × (a'.erase_fn ≡ a.erase_fn)
  unfolding clean
  clean-IsArray =
      let (b, run, size) = clean_loop_lem xs 0 fn a.all_data (omega arith) HoldsAt-zero in
      (
        record a { all_data = b; cur_size = 0 },
        rw (ap (λ n. clean_loop n 0 fn a.all_data) v.size ∙ run),
        record {
          size = refl;
          total = omega arith;
          fits = omega arith;
          small = omega arith;
          cells = λ i h. elim h [ ];
        },
        refl,
        refl,
      )
