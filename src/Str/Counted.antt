-- ===== src/Str/Counted.antt =====
-- Making, counting and comparing the strings of util/mcl_string.c, for strings that are not NULL.
pub mod Copies
pub mod Compare
use mcl.Base.{
  ℕ, zero, suc, ◌-◌, Option, none, some, Run, ok, fault, ◌>>=◌, ℤ, pos, negsuc, ltb, ◌==◌,
  if◌then◌else◌,
}
use mcl.Block.{Block, malloc, read, write}
use mcl.Str.{Str}

-- `memcpy`, with `k` characters left from the subscript `i` on
unfoldable pub copy_in : (k i : ℕ) → Block → Block → Run Block
copy_in zero i src b = ok b
copy_in (suc k) i src b = do c ← read src i; b' ← write b i c; copy_in k (suc i) src b'

-- `mcl_string_alloc`, for a length that is not negative
unfoldable pub alloc : Block → ℕ → Run Str
unfolding copy_in
alloc strp len = do
  b ← copy_in len 0 strp (malloc (suc len))
  b' ← write b len 0
  ok (record { len = len; ref = 1; chars = b' })

-- `mcl_string_copy`
unfoldable pub copy : Str → Run Str
unfolding alloc
copy src = alloc src.chars src.len

-- `mcl_string_ref`
unfoldable pub ref : Str → Str
ref s = record s { ref = suc s.ref }

-- `mcl_string_free`, `none` once `do_free` has freed it. A string whose count is 0 is freed.
unfoldable pub free : Str → Run (Option Str)
free s = elim s.ref [
  | zero ↦ fault
  | suc n ↦ ok (if n == 0 then none else some (record s { ref = n }))
]

-- `mcl_string_deref`
unfoldable pub deref : Str → Run (Option Str)
unfolding free
deref s = free s

-- `strcmp` from the subscript `i` on: -1, 0 or 1 by the first difference
unfoldable pub strcmp_at : ℕ → ℕ → Block → Block → Run (Option ℤ)
strcmp_at zero i a b = ok none
strcmp_at (suc k) i a b = do
  c ← read a i
  d ← read b i
  let rest = strcmp_at k (suc i) a b
  if c == d
      then (if c == 0 then ok (some (pos 0)) else rest)
      else ok (some (if ltb c d then negsuc 0 else pos 1))

-- `mcl_string_cmp`
unfoldable pub cmp : ℕ → Str → Str → Run (Option ℤ)
unfolding strcmp_at
cmp fuel one another = strcmp_at fuel 0 one.chars another.chars
