-- ===== src/Base/CTypes.antt =====
-- C's integers and pointers, and the types of include/mcl_common.h.
use Prim.Native.Nat.{ℕ, zero, suc, ◌+◌, ◌%◌, ◌^◌}

-- A C `int`: `negsuc n` is -(n + 1).
pub data ℤ : Type 0 where
  pos : ℕ → ℤ
  negsuc : ℕ → ℤ

-- The value -1, which the library returns for an index out of bounds.
abbrev pub minus_one : ℤ
minus_one = negsuc 0

-- A `void *`, `null` being 0, and a function pointer of type `mcl_free_fn_t`, 0 being NULL.
abbrev pub Ptr : Type 0
Ptr = ℕ

abbrev pub null : Ptr
null = 0

abbrev pub FreeFn : Type 0
FreeFn = ℕ

-- `(fn, p)`: the function at `fn` has been called on `p`.
abbrev pub Call : Type 0
Call = FreeFn × Ptr

-- `++ i` and `-- i` on an `int`.
abbrev pub inc : ℤ → ℤ
inc (pos n) = pos (suc n)
inc (negsuc zero) = pos zero
inc (negsuc (suc n)) = negsuc n

abbrev pub dec : ℤ → ℤ
dec (pos zero) = negsuc zero
dec (pos (suc n)) = pos n
dec (negsuc n) = negsuc (suc n)

-- The subscript that an `int` stands for where it is known not to be negative.
abbrev pub subscript : ℤ → ℕ
subscript (pos n) = n
subscript (negsuc n) = zero

-- `a - 1` on an `unsigned int`, as a difference and as the result of `-- a`.
abbrev pub dec_u32 : ℕ → ℕ
dec_u32 a = (a + 0xffff_ffff) % 2 ^ 32

-- `mcl_ds_ctrl_cmd` of mcl_common.h, an `int` at run time.
pub data CtrlCmd : Type 0 where
  regist_erase_fn : CtrlCmd
  unregist_erase_fn : CtrlCmd
  unknown_cmd : ℕ → CtrlCmd
