-- ===== src/Array/View.antt =====
-- The list that an array of util/mcl_array.c stands for, and what a call does to it.
use mcl.Base.{
  ℕ, ◌*◌, ◌%◌, ◌^◌, ◌≤◌, ◌<◌, ◌≡◌, refl, ◌∙◌, true, false, List, Ptr, Call, Returns, ℤ, pos, length,
  get_elem?, get_elem?-eq-some, Bool-cases, inl, inr, leb, arith,
}
use mcl.Block.{realloc}
use mcl.Block.Moves.{IsInit}
use mcl.Array.{Array, Outcome, check_out_of_bounds, extend_array, try_extend_array}

-- The first `_cur_size` cells hold `xs`, and the block is as large as `_total_size` says.
pub record IsArray (a : Array) (xs : List Ptr) : Type 0 where
  pub size : a.cur_size ≡ length xs
  pub total : a.total_size ≡ a.all_data.size
  pub fits : a.cur_size ≤ a.total_size
  pub small : a.total_size < 2 ^ 31
  pub cells : (i : ℕ) → i < length xs → a.all_data.cell i ≡ get_elem? xs i

-- `append` and its like can double the capacity, and reach a size that an `int` holds.
pub record HasRoom (a : Array) : Type 0 where
  pub capacity : 0 < a.total_size
  pub below : a.cur_size < 2 ^ 30

-- A call on `a` that leaves the list `ys`, makes these calls of `free_fn`, and returns `r`.
pub record Yields (a : Array) (ys : List Ptr) (cs : List Call) (r : ℤ) (o : Outcome) : Type 0 where
  pub models : IsArray o.array ys
  pub capacity : a.total_size ≤ o.array.total_size
  pub kept : o.array.erase_fn ≡ a.erase_fn
  pub calls : o.calls ≡ cs
  pub ret : o.ret ≡ r

pub IsArray-IsInit :
    {a : Array} {xs : List Ptr} (lo hi : ℕ)
    → IsArray a xs
    → hi ≤ length xs
    → IsInit a.all_data lo hi
IsArray-IsInit {xs} lo hi v h j l m =
    let (p, e) = get_elem?-eq-some xs j (omega arith) in (p, v.cells j (omega arith) ∙ e)

-- What growing keeps, and the room that it makes.
pub record IsExtended (a : Array) (xs : List Ptr) (a' : Array) : Type 0 where
  pub models : IsArray a' xs
  pub room : a'.cur_size < a'.total_size
  pub same_size : a'.cur_size ≡ a.cur_size
  pub capacity : a.total_size ≤ a'.total_size
  pub kept : a'.erase_fn ≡ a.erase_fn

module _ {a : Array} {xs : List Ptr} (v : IsArray a xs) where
  -- On an array with room to grow, `try_extend_array` keeps the elements and the erase function,
  -- and leaves a free cell behind the elements.
  pub try_extend_array-IsExtended : HasRoom a → Returns (try_extend_array a) (IsExtended a xs)
  unfolding try_extend_array extend_array realloc
  try_extend_array-IsExtended room = elim (Bool-cases (leb a.total_size a.cur_size)) [
    | inl full ↦
        let d = a.total_size * 2 % 2 ^ 32 in
        (
          record a { all_data = realloc d a.all_data; total_size = d },
          ground arith,
          record {
            models = record {
              size = v.size;
              total = refl;
              fits = ground arith;
              small = ground arith;
              cells = λ i h. ground (arith, v.cells i);
            };
            room = ground arith;
            same_size = refl;
            capacity = ground arith;
            kept = refl;
          },
        )
    | inr free ↦ (
      a,
      rw free,
      record {
        models = v;
        room = ground arith;
        same_size = refl;
        capacity = omega arith;
        kept = refl;
      },
    )
  ]

  pub check-in_bounds : (i : ℕ) → i < length xs → check_out_of_bounds (pos i) a ≡ false
  unfolding check_out_of_bounds
  check-in_bounds i h = ground arith

  pub check-out_of_bounds : (i : ℕ) → 0 < i → length xs ≤ i → check_out_of_bounds (pos i) a ≡ true
  unfolding check_out_of_bounds
  check-out_of_bounds i p h = ground arith

pub Yields-congr :
    {a : Array} {ys ys' : List Ptr} {cs : List Call} {r r' : ℤ} {o : Outcome}
    → ys ≡ ys'
    → r ≡ r'
    → Yields a ys cs r o
    → Yields a ys' cs r' o
Yields-congr e f y = rw (e, f) at y
