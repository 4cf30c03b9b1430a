-- ===== src/Block.antt =====
-- The memory that `malloc` and `realloc` give for an array of `void *`, with C's rules: a cell is
-- indeterminate until it is written, and a subscript outside the block is a fault.
pub mod Moves
use mcl.Base.{
  ℕ, zero, suc, ◌+◌, ◌<◌, ◌≡◌, refl, Option, none, some, Run, ok, fault, ◌>>=◌, Returns, Ptr, ltb,
  ◌==◌, if◌then◌else◌, arith, ◌⊎◌, inl, inr, Option-cases, Bool-cases, ◌&&◌,
}

-- `cell i` is `none` where the content is indeterminate.
pub record Block : Type 0 where
  pub size : ℕ
  pub cell : ℕ → Option Ptr

unfoldable pub malloc : ℕ → Block
malloc n = record { size = n; cell = λ i. none }

-- Cells up to the smaller size are kept, cells past the old size are indeterminate.
unfoldable pub realloc : ℕ → Block → Block
realloc n b = record { size = n; cell = λ i. if ltb i b.size then b.cell i else none }

defined : Option Ptr → Run Ptr
defined none = fault
defined (some p) = ok p

-- `b[i]` as a value
unfoldable pub read : Block → ℕ → Run Ptr
unfolding defined
read b i = if ltb i b.size then defined (b.cell i) else fault

abbrev pub put : Block → ℕ → Ptr → Block
put b i p = record b { cell = λ j. if j == i then some p else b.cell j }

-- `b[i] = p`
unfoldable pub write : Block → ℕ → Ptr → Run Block
write b i p = if ltb i b.size then ok (put b i p) else fault

-- `b[j] = b[i]`
unfoldable pub move : (j i : ℕ) → Block → Run Block
move j i b = do p ← read b i; write b j p

pub read-ok : (b : Block) (i p : ℕ) → i < b.size → b.cell i ≡ some p → read b i ≡ ok p
unfolding read
read-ok b i p h e = ground arith

pub write-ok : (b : Block) (i p : ℕ) → i < b.size → write b i p ≡ ok (put b i p)
unfolding write
write-ok b i p h = ground arith

pub move-ok :
    (j i p : ℕ) (b : Block)
    → j < b.size
    → i < b.size
    → b.cell i ≡ some p
    → move j i b ≡ ok (put b j p)
unfolding move
move-ok j i p b hj hi e = rw (read-ok b i p hi e, write-ok b j p hj)

pub read_out_of_bounds : (b : Block) (i : ℕ) → b.size < suc i → read b i ≡ fault
unfolding read
read_out_of_bounds b i h = ground arith

-- A copy within the block faults, or is one write.
pub move-cases :
    (j i : ℕ) (b : Block)
    → (move j i b ≡ fault) ⊎ ((p : Ptr) × (i < b.size) × (move j i b ≡ ok (put b j p)))
unfolding move read write defined
move-cases j i b = elim (Option-cases (b.cell i)) [
  | inl e ↦ inl (ground arith)
  | inr (p, e) ↦ elim (Bool-cases (ltb i b.size && ltb j b.size)) [
    | inl h ↦ inr (p, ground arith, ground arith)
    | inr h ↦ inl (ground arith)
  ]
]
