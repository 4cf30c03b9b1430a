-- ===== src/Array/Sizes.antt =====
-- Construction, reading and tightening of an array, in terms of the list that it stands for.
use mcl.Base.{
  ℕ, zero, suc, ◌+◌, ◌*◌, ◌%◌, ◌^◌, ◌≤◌, ◌<◌, ◌≡◌, refl, sym, ap, ◌∙◌, List, [], Ptr, null, none,
  some, ok, fault, pos, length, get_elem?, lt_of_get_elem?, ltb, leb, if◌then◌else◌, arith,
  Bool-cases, inl, inr,
}
use mcl.Block.{Block, malloc, realloc, read-ok, write, put, write-ok}
use mcl.Block.Moves.{shift_up}
use mcl.Array.{
  Array, default_size, capacity_for, null_cells, new, tighten, at, extend_array, try_extend_array,
}
use mcl.Array.View.{IsArray, check-in_bounds}
use mcl.Array.Insert.{append, preappend}

null_cells_lem :
    (k i : ℕ) (b : Block)
    → i + k ≤ b.size
    → (b' : Block) × (null_cells k i b ≡ ok b') × (b'.size ≡ b.size)
unfolding null_cells
null_cells_lem zero i b h = (b, refl, refl)
null_cells_lem (suc k) i b h =
    let (b', run, size) = null_cells_lem k (suc i) (put b i null) (omega arith) in
    (b', rw (write-ok b i null (omega arith)) run, size)

abbrev pub capacity_of : ℕ → ℕ
capacity_of n = if ltb default_size n then n * 2 else default_size

capacity_for-ok : (n : ℕ) → n < 2 ^ 30 → capacity_for n ≡ ok (capacity_of n)
unfolding capacity_for
capacity_for-ok n h = ground arith

capacity_for-lt : (n : ℕ) → n < 2 ^ 30 → capacity_of n < 2 ^ 31
capacity_for-lt n h = ground arith

-- A new array is empty, and its capacity is the default one or, above it, twice the size asked
-- for. Its erase function is indeterminate.
pub record IsNew (n : ℕ) (a : Array) : Type 0 where
  pub models : IsArray a []
  pub capacity : a.total_size ≡ capacity_of n
  pub erase_fn : a.erase_fn ≡ none

-- `mcl_array_new` of a size below 2^30 gives an empty array whose capacity is the default one or,
-- above it, twice the size asked for, and whose erase function is indeterminate.
pub new-IsNew : (n : ℕ) → n < 2 ^ 30 → (a : Array) × (new (pos n) ≡ ok (some a)) × IsNew n a
unfolding new malloc
new-IsNew n h =
    let c = capacity_of n in
    let (b, run, size) = null_cells_lem c 0 (malloc c) (omega arith) in
    (
      record { all_data = b; cur_size = 0; total_size = c; erase_fn = none },
      rw (capacity_for-ok n h, run),
      record {
        models = record {
          size = refl;
          total = sym size;
          fits = omega arith;
          small = capacity_for-lt n h;
          cells = λ i l. elim l [ ];
        };
        capacity = refl;
        erase_fn = refl;
      },
    )

module _ {a : Array} {xs : List Ptr} (v : IsArray a xs) where
  -- `mcl_array_at` reads the element at an index.
  pub at-get_elem? : (i : ℕ) {x : Ptr} → get_elem? xs i ≡ some x → at (pos i) a ≡ ok x
  unfolding at
  at-get_elem? i {x} e =
      let h = lt_of_get_elem? xs i e in
      rw (check-in_bounds v i h) (read-ok a.all_data i x (omega arith) (v.cells i h ∙ e))

  -- `mcl_array_tighten` keeps the elements; the capacity falls to twice their number if it was
  -- larger, and stays otherwise.
  pub tighten-IsArray :
      IsArray (tighten a) xs
      × ((tighten a).total_size
          ≡ (if ltb (length xs * 2) a.total_size then length xs * 2 else a.total_size))
  unfolding tighten realloc
  tighten-IsArray = elim (Bool-cases (leb a.total_size (a.cur_size * 2 % 2 ^ 32))) [
    | inl slack ↦ rw slack (v, ground arith)
    | inr loose ↦ rw loose (
      record {
        size = v.size;
        total = refl;
        fits = ground arith;
        small = ground arith;
        cells = λ i h. ground (arith, v.cells i);
      },
      ground arith,
    )
  ]

-- Without capacity `try_extend_array` doubles nothing.
no_capacity :
    (a : Array)
    → a.cur_size ≡ 0
    → a.total_size ≡ 0
    → a.all_data.size ≡ 0
    → (p : Ptr) → (append p a ≡ fault) × (preappend p a ≡ fault)
unfolding append preappend try_extend_array extend_array shift_up write
no_capacity a c t s p =
    let same : try_extend_array a ≡ ok a = ground arith in
    (rw same (ground arith), rw same (ground (arith, ap (λ k. shift_up k 0 a.all_data) c)))

-- After `mcl_array_tighten` on an empty array, `mcl_array_append` and `mcl_array_preappend` both
-- write outside the block.
pub append-tighten_empty :
    {a : Array}
    → IsArray a []
    → (p : Ptr) → (append p (tighten a) ≡ fault) × (preappend p (tighten a) ≡ fault)
append-tighten_empty {a} v p =
    let (m, t) = tighten-IsArray v in no_capacity (tighten a) m.size (ground arith) (ground arith) p
