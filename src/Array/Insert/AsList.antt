-- ===== src/Array/Insert/AsList.antt =====
-- What the insertions of util/mcl_array.c do to the list that the array stands for.
use mcl.Base.{
  ℕ, zero, suc, ◌+◌, ◌-◌, ◌<◌, ◌≡◌, refl, sym, ap, ◌∙◌, List, [], ◌∷◌, ◌++◌, Ptr, ok, Returns, pos,
  length, insert_at, length-insert_at, get_elem?-insert_at, arith, insert_at-length, insert_at-zero,
  Bool-cases, inl, inr, ◌==◌, dec_u32,
}
use mcl.Block.{Block, put, write, write-ok}
use mcl.Block.Moves.{shift_up, shift_up_lem}
use mcl.Array.{Array, outcome}
use mcl.Array.View.{
  IsArray, HasRoom, Yields, IsExtended, IsArray-IsInit, try_extend_array-IsExtended,
  check-in_bounds, Yields-congr,
}
use mcl.Array.Insert.{grown, append, preappend, insert, preinsert}

module _ {a : Array} {xs : List Ptr} (v : IsArray a xs) (room : HasRoom a) where
  -- All insertions shift what stands from `i` on, and write the element.
  shift-Yields :
      {a' : Array} (k i : ℕ) (p : Ptr)
      → IsExtended a xs a'
      → k + i ≡ length xs
      → (m b : Block) × (shift_up k i a'.all_data ≡ ok m)
        × (write m i p ≡ ok b)
        × Yields a (insert_at i p xs) [] (pos i) (outcome (grown a' b) [] (pos i))
  shift-Yields {a'} k i p x e =
      let v' = x.models in
      let (m, run, s) =
        shift_up_lem k i a'.all_data (omega arith) (IsArray-IsInit i (i + k) v' (omega arith)) in
      (
        m,
        put m i p,
        run,
        write-ok m i p (omega arith),
        record {
          models = record {
            size = omega (arith, length-insert_at i p xs);
            total = omega arith;
            fits = omega arith;
            small = omega arith;
            cells = λ j h. ground (
              arith,
              s.cell j,
              v'.cells j,
              v'.cells (j - 1),
              get_elem?-insert_at i p xs j,
              length-insert_at i p xs,
            );
          };
          capacity = x.capacity;
          kept = x.kept;
          calls = refl;
          ret = refl;
        },
      )

  -- `mcl_array_append` on an array with room puts the element at the end, makes no call, and
  -- returns its index.
  pub append-Yields :
      (p : Ptr) → Returns (append p a) (Yields a (xs ++ (p ∷ [])) [] (pos (length xs)))
  unfolding append shift_up
  append-Yields p =
      let (a', grow, x) = try_extend_array-IsExtended v room in
      let (m, b, run, put, y) = shift-Yields 0 a.cur_size p x (omega arith) in
      (
        outcome (grown a' b) [] (pos a.cur_size),
        ground (arith, grow, run, put),
        Yields-congr (ap (λ n. insert_at n p xs) v.size ∙ insert_at-length p xs) (ap pos v.size) y,
      )

  -- `mcl_array_preappend` on an array with room puts the element in front of all others and
  -- returns 0.
  pub preappend-Yields : (p : Ptr) → Returns (preappend p a) (Yields a (p ∷ xs) [] (pos 0))
  unfolding preappend
  preappend-Yields p =
      let (a', grow, x) = try_extend_array-IsExtended v room in
      let (m, b, run, put, y) = shift-Yields a.cur_size 0 p x (omega arith) in
      (
        outcome (grown a' b) [] (pos 0),
        rw (grow, run, put),
        Yields-congr (insert_at-zero p xs) refl y,
      )

  -- `mcl_array_insert` at the index of an element of an array with room puts the new one behind
  -- it, keeps the order, and returns where the new one is.
  pub insert-Yields :
      (i : ℕ) (p : Ptr)
      → i < length xs
      → Returns (insert p (pos i) a) (Yields a (insert_at (suc i) p xs) [] (pos (suc i)))
  unfolding insert
  insert-Yields i p h = elim (Bool-cases (i == dec_u32 a.cur_size)) [
    | inl last ↦
        let e : length xs ≡ suc i = ground arith in
        let (o, run, y) = append-Yields p in
        (
          o,
          rw (check-in_bounds v i h, last) run,
          Yields-congr (sym (insert_at-length p xs) ∙ ap (λ n. insert_at n p xs) e) (ap pos e) y,
        )
    | inr inner ↦
        let (a', grow, x) = try_extend_array-IsExtended v room in
        let (m, b, run, put, y) = shift-Yields (a.cur_size - 1 - i) (suc i) p x (ground arith) in
        (
          outcome (grown a' b) [] (pos (suc i)),
          rw (check-in_bounds v i h, inner, grow, run, put),
          y,
        )
  ]

  -- `mcl_array_preinsert` at the index of an element of an array with room puts the new one before
  -- it, keeps the order, and returns the index.
  pub preinsert-Yields :
      (i : ℕ) (p : Ptr)
      → i < length xs
      → Returns (preinsert p (pos i) a) (Yields a (insert_at i p xs) [] (pos i))
  unfolding preinsert
  preinsert-Yields zero p h =
      let (o, run, y) = preappend-Yields p in
      (o, rw (check-in_bounds v 0 h) run, Yields-congr (sym (insert_at-zero p xs)) refl y)
  preinsert-Yields (suc i) p h =
      let (a', grow, x) = try_extend_array-IsExtended v room in
      let (m, b, run, put, y) = shift-Yields (a.cur_size - suc i) (suc i) p x (omega arith) in
      (
        outcome (grown a' b) [] (pos (suc i)),
        rw (check-in_bounds v (suc i) h) (ground (arith, grow, run, put)),
        y,
      )
