-- ===== src/Array/Iter/Erase.antt =====
-- Erasing through an array's iterator: one step, and the loop over all elements
-- `for (ITER_HEAD; !ITER_NULL;) { if (wanted) { ERASE; continue; } ITER_NEXT; }`.
use mcl.Base.{
  ◌+◌, ◌-◌, ◌≡◌, refl, sym, ap, ◌∙◌, true, List, [], ◌∷◌, ◌++◌, some, Ptr, null, FreeFn, ok, pos,
  length, length-append, get_elem?-append_right, remove_range-append, arith,
}
use mcl.Block.{read-ok}
use mcl.Array.{Array}
use mcl.Array.View.{IsArray, check-in_bounds}
use mcl.Array.Delete.Loops.{free_calls}
use mcl.Array.Delete.AsList.{delete_indx-null}
use mcl.Array.Iter.{on, Erased, iter_erase}
use mcl.Array.Iter.Walk.{IsSuffix, IsSuffix-head}

pub append-IsSuffix : (xs ys : List Ptr) → IsSuffix (length xs) ys (xs ++ ys)
append-IsSuffix xs ys = record {
  size = omega (arith, length-append xs ys);
  elems = λ j. sym (get_elem?-append_right xs ys j);
}

-- The pointer that a loop's test reads: the first element, or NULL.
abbrev pub first : List Ptr → Ptr
first [] = null
first (y ∷ ys) = y

-- `def_iter_erase` on the element `y` of `xs ++ y ∷ ys`: it deletes and frees `y`, keeps the index, and
-- reads what stands there now.
pub record ErasesTo (a : Array) (fn : FreeFn) (xs : List Ptr) (y : Ptr) (ys : List Ptr) (r : Erased)
    : Type 0 where
  pub models : IsArray r.array (xs ++ ys)
  pub kept : r.array.erase_fn ≡ a.erase_fn
  pub calls : r.calls ≡ free_calls fn y
  pub iter : r.iter ≡ on (first ys) (pos (length xs))
  pub done : r.done ≡ true

next_cell :
    (a : Array) (xs ys : List Ptr)
    → IsArray a (xs ++ ys)
    → a.all_data.cell (length xs + length ys) ≡ some null
    → a.all_data.cell (length xs) ≡ some (first ys)
next_cell a xs [] v e = ap a.all_data.cell {y = length xs + 0} (omega arith) ∙ e
next_cell a xs (y ∷ ys) v e =
    v.cells (length xs) (omega (arith, length-append xs (y ∷ ys)))
    ∙ IsSuffix-head (length xs) y ys (xs ++ (y ∷ ys)) (append-IsSuffix xs (y ∷ ys))

module _ {fn : FreeFn} where
  -- `def_iter_erase` with a registered erase function deletes the element that the iterator is on,
  -- frees it, and leaves the iterator at the same index, on the next element or on NULL behind the
  -- last one.
  pub iter_erase-ErasesTo :
      {a : Array} (xs : List Ptr) (y : Ptr) (ys : List Ptr)
      → IsArray a (xs ++ (y ∷ ys))
      → a.erase_fn ≡ some fn
      → (r : Erased) × (iter_erase (on y (pos (length xs))) a ≡ ok r) × ErasesTo a fn xs y ys r
  unfolding iter_erase
  iter_erase-ErasesTo {a} xs y ys v e =
      let s = append-IsSuffix xs (y ∷ ys) in
      let i = length xs in
      let (o, run, d, cleared, same) =
        delete_indx-null v fn i (IsSuffix-head i y ys (xs ++ (y ∷ ys)) s) in
      let m = rw (remove_range-append xs y ys) at d.models in
      let size = length-append xs (y ∷ ys) in
      let end =
        ap o.array.all_data.cell {y = length (xs ++ (y ∷ ys)) - 1} (omega arith) ∙ cleared in
      let next = next_cell o.array xs ys m end in
      let seen = read-ok o.array.all_data i (first ys) (omega (arith, d.models)) next in
      (
        record { array = o.array; calls = o.calls; iter = on (first ys) (pos i); done = true },
        rw (check-in_bounds v i (omega arith)) (ground (arith, run, d.ret, seen)),
        record { models = m; kept = d.kept; calls = d.calls; iter = refl; done = refl },
      )
