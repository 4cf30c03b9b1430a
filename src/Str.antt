-- ===== src/Str.antt =====
-- The counted string of util/mcl_string.c, for a string that is not NULL. Its characters, with the
-- terminating NUL, stand in a block; a subscript below the block is a fault as one above it is. A
-- loop that does not count takes fuel and gives `none` if that runs out.
pub mod Trim
pub mod Counted
use mcl.Base.{
  ℕ, zero, suc, ◌+◌, ◌-◌, Bool, true, false, ◌||◌, Option, none, some, Run, ok, fault, ◌>>=◌, ◌==◌,
  if◌then◌else◌,
}
use mcl.Block.{Block, read, write, move}

-- `mcl_string`, with the length at `_len`.
pub record Str : Type 0 where
  pub len : ℕ
  pub ref : ℕ
  pub chars : Block

-- The space and the tab
abbrev pub is_space : ℕ → Bool
is_space c = c == 32 || (c == 9)

-- The first loop of `mcl_trim`
unfoldable pub find_head : ℕ → ℕ → Block → Run (Option ℕ)
find_head zero i b = ok none
find_head (suc k) i b = do
  c ← read b i
  let rest = find_head k (suc i) b
  if is_space c then rest else ok (some i)

-- The second loop, for the subscript behind `tail`
unfoldable pub find_tail : ℕ → Block → Run ℕ
find_tail zero b = fault
find_tail (suc n) b = do
  c ← read b n
  let rest = find_tail n b
  if is_space c then rest else ok (suc n)

-- The third loop, with `k` characters left
unfoldable pub copy_down : (k src head : ℕ) → Block → Run Block
copy_down zero src head b = ok b
copy_down (suc k) src head b = do b' ← move src head b; copy_down k (suc src) (suc head) b'

-- `strlen`, from the subscript `i` on
unfoldable pub strlen_at : ℕ → ℕ → Block → Run (Option ℕ)
strlen_at zero i b = ok none
strlen_at (suc k) i b = do
  c ← read b i
  let rest = strlen_at k (suc i) b
  if c == 0 then ok (some i) else rest

-- `k` characters are copied from `head` on.
unfoldable pub trim_to : ℕ → (k head : ℕ) → Str → Run (Option Str)
trim_to fuel k head s = do
  b ← copy_down k 0 head s.chars
  b' ← write b k 0
  n ← strlen_at fuel 0 b'
  ok (elim n [ none ↦ none | some l ↦ some (record s { chars = b'; len = l }) ])

-- `mcl_trim`
unfoldable pub trim : ℕ → Str → Run (Option Str)
unfolding trim_to
trim fuel s = do
  head ← find_head fuel 0 s.chars
  elim head [
    | none ↦ ok none
    | some h ↦ do behind ← find_tail s.len s.chars; trim_to fuel (behind - h) h s
  ]
