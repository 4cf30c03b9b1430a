-- ===== src/Array/Delete/Range.antt =====
-- What `mcl_array_delete_range` does to the list that the array stands for.
use mcl.Base.{
  ℕ, suc, ◌+◌, ◌-◌, ◌≤◌, ◌<◌, ◌≡◌, refl, sym, ap, ◌∙◌, List, [], Ptr, FreeFn, ok, Returns, pos,
  minus_one, length, get_elem?, get_elem?-eq-some, ◌⊎◌, inr, take, drop, length-take, length-drop,
  get_elem?-take, get_elem?-drop, remove_range, length-remove_range, get_elem?-remove_range,
  lt_of_get_elem?, some, arith,
}
use mcl.Array.{Array, outcome}
use mcl.Array.View.{IsArray, Yields, check-in_bounds}
use mcl.Array.Delete.{delete_range, free_range}
use mcl.Array.Delete.Loops.{free_calls, calls_of, HoldsAt, free_range_lem, close_gap_lem}
use mcl.Array.Delete.AsList.{delete_indx-Yields}

-- The elements from `b` up to `e`.
abbrev pub slice {ℓ} : {A : Type ℓ} → ℕ → ℕ → List A → List A
slice b e xs = take (e - b) (drop b xs)

module _ {a : Array} {xs : List Ptr} (v : IsArray a xs) (fn : FreeFn) (b e : ℕ) where
  length-slice : b ≤ e → e ≤ length xs → length (slice b e xs) ≡ e - b
  length-slice h k = length-take (e - b) (drop b xs) (omega (arith, length-drop b xs))

  HoldsAt-slice : b ≤ e → e ≤ length xs → HoldsAt a.all_data b (slice b e xs)
  HoldsAt-slice h k j l =
      v.cells (b + j) (omega (arith, length-slice h k))
      ∙ sym (get_elem?-drop b xs j)
      ∙ sym (get_elem?-take (e - b) (drop b xs) j (omega (arith, length-slice h k)))

  -- `mcl_array_delete_range` of two increasing indices of elements frees the elements from the
  -- first up to the second in order, closes the gap, and returns their number.
  pub delete_range-Yields :
      b < e
      → e < length xs
      → Returns
          (delete_range (pos b) (pos e) fn a)
          (Yields a (remove_range b e xs) (calls_of fn (slice b e xs)) (pos (e - b)))
  unfolding delete_range
  delete_range-Yields h k =
      let size = length-slice (omega arith) (omega arith) in
      let (m, free, f) =
        free_range_lem (slice b e xs) b fn a.all_data (omega arith)
          (HoldsAt-slice (omega arith) (omega arith)) in
      let free' = ap (λ n. free_range n b fn a.all_data) (sym size) ∙ free in
      let kept = λ (j : ℕ) (o : (j < b) ⊎ (e ≤ j)) (l : j < length xs).
        f.outside j (omega arith) ∙ v.cells j l in
      let (m', close, c) =
        close_gap_lem (a.cur_size - e) e (e - b) m (omega arith) (omega arith)
          (omega (arith, f.size))
          (λ j lo hi.
            let (p, q) = get_elem?-eq-some xs j (omega arith) in
            (p, kept j (inr lo) (omega arith) ∙ q)) in
      (
        outcome (record a { all_data = m'; cur_size = a.cur_size - (e - b) })
            (calls_of fn (slice b e xs)) (pos (e - b)),
        rw (check-in_bounds v b (omega arith), check-in_bounds v e k)
            (ground (arith, free', close)),
        record {
          models = record {
            size = omega (arith, length-remove_range b e xs);
            total = omega (arith, c.size, f.size);
            fits = omega arith;
            small = omega arith;
            cells = λ j l. ground (
              arith,
              c.cell j,
              kept j,
              kept (j + (e - b)),
              length-remove_range b e xs,
              get_elem?-remove_range b e xs j,
            );
          };
          capacity = omega arith;
          kept = refl;
          calls = refl;
          ret = refl;
        },
      )

  -- `mcl_array_delete_range` refuses an inverted range: it returns -1 and leaves the array.
  pub delete_range_inverted :
      e < b → b < length xs → delete_range (pos b) (pos e) fn a ≡ ok (outcome a [] minus_one)
  unfolding delete_range
  delete_range_inverted h k =
      rw (check-in_bounds v b k, check-in_bounds v e (omega arith)) (ground arith)

module _ {a : Array} {xs : List Ptr} (v : IsArray a xs) (fn : FreeFn) (b : ℕ) where
  -- With equal indices of an element, `mcl_array_delete_range` deletes that element and returns 1.
  pub delete_range_equal :
      {x : Ptr}
      → get_elem? xs b ≡ some x
      → Returns
          (delete_range (pos b) (pos b) fn a)
          (Yields a (remove_range b (suc b) xs) (free_calls fn x) (pos 1))
  unfolding delete_range
  delete_range_equal g =
      let h = lt_of_get_elem? xs b g in
      let (o, run, y) = delete_indx-Yields v fn b g in
      (
        outcome o.array o.calls (pos 1),
        rw (check-in_bounds v b h) (ground (arith, run)),
        record {
          models = y.models;
          capacity = y.capacity;
          kept = y.kept;
          calls = y.calls;
          ret = refl;
        },
      )
