-- ===== src/Array/Delete/Loops.antt =====
-- The loops of the deletions: the calls of `free_fn` that they make, and where they leave the cells.
use mcl.Base.{
  ℕ, zero, suc, ◌+◌, ◌-◌, ◌≤◌, ◌<◌, ◌≡◌, refl, ap, ◌∙◌, List, [], ◌∷◌, ◌++◌, some, ok, fault,
  Returns, Ptr, null, FreeFn, Call, ltb, ◌==◌, if◌then◌else◌, arith, length, get_elem?, inl, inr,
  ◌⊎◌,
}
use mcl.Block.{Block, read-ok, put, write-ok, move-ok, move-cases}
use mcl.Block.Moves.{IsInit, shift_down}
use mcl.Array.{free_cell, clean_loop}
use mcl.Array.Delete.{find_obj, null_freed, free_range, close_gap}

-- The call that frees an element, if `free_fn` and the element are not NULL.
unfoldable pub free_calls : FreeFn → Ptr → List Call
free_calls fn p = if fn == 0 then [] else if p == null then [] else (fn, p) ∷ []

-- The calls that free all elements, in order.
unfoldable pub calls_of : FreeFn → List Ptr → List Call
calls_of fn [] = []
calls_of fn (p ∷ ps) = free_calls fn p ++ calls_of fn ps

-- The index of the first `p`, or the length.
unfoldable pub find_index : Ptr → List Ptr → ℕ
find_index p [] = 0
find_index p (q ∷ qs) = if p == q then 0 else suc (find_index p qs)

-- The cells from `i` on hold `xs`.
abbrev pub HoldsAt : Block → ℕ → List Ptr → Type 0
HoldsAt b i xs = (j : ℕ) → j < length xs → b.cell (i + j) ≡ get_elem? xs j

pub HoldsAt-tail :
    (b : Block) (i : ℕ) {x : Ptr} (xs : List Ptr) → HoldsAt b i (x ∷ xs) → HoldsAt b (suc i) xs
HoldsAt-tail b i xs h j l =
    ap b.cell {x = suc i + j} {y = i + suc j} (omega arith) ∙ h (suc j) (omega arith)

pub HoldsAt-head :
    (b : Block) (i : ℕ) {x : Ptr} (xs : List Ptr) → HoldsAt b i (x ∷ xs) → b.cell i ≡ some x
HoldsAt-head b i xs h = ap b.cell {x = i} {y = i + 0} (omega arith) ∙ h 0 (omega arith)

pub free_cell-ok :
    (fn : FreeFn) (b : Block) (i p : ℕ)
    → i < b.size
    → b.cell i ≡ some p
    → free_cell fn b i ≡ ok (free_calls fn p)
unfolding free_cell free_calls
free_cell-ok fn b i p h e = ground (arith, read-ok b i p)

-- Every element is freed once, in order, and every cell is NULL behind the loop.
pub clean_loop_lem :
    (xs : List Ptr) (i : ℕ) (fn : FreeFn) (b : Block)
    → i + length xs ≤ b.size
    → HoldsAt b i xs
    → (b' : Block) × (clean_loop (length xs) i fn b ≡ ok (b', calls_of fn xs)) × (b'.size ≡ b.size)
unfolding clean_loop calls_of
clean_loop_lem [] i fn b h at = (b, refl, refl)
clean_loop_lem (x ∷ xs) i fn b h at =
    let (b', run, size) =
      clean_loop_lem xs (suc i) fn (put b i null) (omega arith)
        (λ j l. ground (arith, HoldsAt-tail b i xs at j)) in
    (
      b',
      rw (
        free_cell-ok fn b i x (omega arith) (HoldsAt-head b i xs at),
        write-ok b i null (omega arith),
        run,
      ),
      size,
    )

pub find_obj_lem :
    (xs : List Ptr) (i : ℕ) (p : Ptr) (b : Block)
    → i + length xs ≤ b.size
    → HoldsAt b i xs
    → find_obj (length xs) i p b ≡ ok (i + find_index p xs)
unfolding find_obj find_index
find_obj_lem [] i p b h at = ap ok (omega arith)
find_obj_lem (x ∷ xs) i p b h at =
    rw (read-ok b i x (omega arith) (HoldsAt-head b i xs at))
      (ground (arith, find_obj_lem xs (suc i) p b (omega arith) (HoldsAt-tail b i xs at)))

-- A deletion from an empty array runs this loop until it leaves the block.
pub shift_down_fault : (k i : ℕ) (b : Block) → b.size ≤ i + suc k → shift_down (suc k) i b ≡ fault
unfolding shift_down
shift_down_fault zero i b h = elim (move-cases i (suc i) b) [
  | inl e ↦ rw e
  | inr (p, l, e) ↦ absurd (omega arith)
]
shift_down_fault (suc k) i b h = elim (move-cases i (suc i) b) [
  | inl e ↦ rw e
  | inr (p, l, e) ↦ rw e (shift_down_fault k (suc i) (put b i p) (omega arith))
]

-- What the first loop of `mcl_array_delete_range` leaves of the cells, and its calls.
pub record IsFreed (k i : ℕ) (b b' : Block) : Type 0 where
  pub size : b'.size ≡ b.size
  pub outside : (j : ℕ) → (j < i) ⊎ (i + k ≤ j) → b'.cell j ≡ b.cell j

null_freed-IsFreed :
    (cs : List Call) (i : ℕ) (b : Block) → i < b.size → Returns (null_freed cs i b) (IsFreed 1 i b)
unfolding null_freed
null_freed-IsFreed [] i b h = (b, refl, record { size = refl; outside = λ j o. refl })
null_freed-IsFreed (c ∷ cs) i b h =
    (put b i null, write-ok b i null h, record { size = refl; outside = λ j o. ground arith })

pub free_range_lem :
    (xs : List Ptr) (i : ℕ) (fn : FreeFn) (b : Block)
    → i + length xs ≤ b.size
    → HoldsAt b i xs
    → (b' : Block) × (free_range (length xs) i fn b ≡ ok (b', calls_of fn xs))
      × IsFreed (length xs) i b b'
unfolding free_range calls_of
free_range_lem [] i fn b h at = (b, refl, record { size = refl; outside = λ j o. refl })
free_range_lem (x ∷ xs) i fn b h at =
    let (b₁, step, f) = null_freed-IsFreed (free_calls fn x) i b (omega arith) in
    let same = f.outside in
    let (b', run, s) =
      free_range_lem xs (suc i) fn b₁ (omega (arith, f.size))
        (λ j l. same (suc i + j) (inr (omega arith)) ∙ HoldsAt-tail b i xs at j l) in
    (
      b',
      rw (free_cell-ok fn b i x (omega arith) (HoldsAt-head b i xs at), step, run),
      record {
        size = s.size ∙ f.size;
        outside = λ j o. s.outside j (omega arith) ∙ same j (omega arith);
      },
    )

-- The second loop moves `k` cells down by `cnt` places.
pub record IsClosed (k i cnt : ℕ) (b b' : Block) : Type 0 where
  pub size : b'.size ≡ b.size
  pub cell :
      (j : ℕ)
      → j < i - cnt + k
      → b'.cell j ≡ (if ltb j (i - cnt) then b.cell j else b.cell (j + cnt))

pub close_gap_lem :
    (k i cnt : ℕ) (b : Block)
    → 0 < cnt
    → cnt ≤ i
    → i + k ≤ b.size
    → IsInit b i (i + k)
    → Returns (close_gap k i cnt b) (IsClosed k i cnt b)
unfolding close_gap
close_gap_lem zero i cnt b pos le h init =
    (b, refl, record { size = refl; cell = λ j l. ground arith })
close_gap_lem (suc k) i cnt b pos le h init =
    let (p, e) = init i (omega arith) (omega arith) in
    let b₁ = put (put b (i - cnt) p) i null in
    let (b', run, s) =
      close_gap_lem k (suc i) cnt b₁ pos (omega arith) (omega arith)
        (λ j l m. let (q, e') = init j (omega arith) (omega arith) in (q, ground arith)) in
    (
      b',
      rw
          (
            move-ok (i - cnt) i p b (omega arith) (omega arith) e,
            write-ok (put b (i - cnt) p) i null (omega arith),
          )
          run,
      record { size = s.size; cell = λ j l. ground (arith, s.cell j) },
    )
