-- ===== src/Block/Moves.antt =====
-- The loops that shift a run of cells by one place.
use mcl.Base.{
  ℕ, zero, suc, ◌+◌, ◌-◌, ◌≤◌, ◌<◌, ◌≡◌, refl, ◌&&◌, some, Run, ok, ◌>>=◌, Returns, Ptr, ltb, leb,
  if◌then◌else◌, arith,
}
use mcl.Block.{Block, put, move, move-ok}

-- `for (i = lo + k; i > lo; -- i) b[i] = b[i - 1];`
unfoldable pub shift_up : (k lo : ℕ) → Block → Run Block
shift_up zero lo b = ok b
shift_up (suc k) lo b = do b' ← move (suc (lo + k)) (lo + k) b; shift_up k lo b'

-- `for (; k > 0; -- k, ++ i) b[i] = b[i + 1];`
unfoldable pub shift_down : (k i : ℕ) → Block → Run Block
shift_down zero i b = ok b
shift_down (suc k) i b = do b' ← move i (suc i) b; shift_down k (suc i) b'

-- The cells from `lo` up to `hi` have been written.
abbrev pub IsInit : Block → ℕ → ℕ → Type 0
IsInit b lo hi = (j : ℕ) → lo ≤ j → j < hi → (p : Ptr) × (b.cell j ≡ some p)

-- `b'` is `b` with the cells `lo … lo + k - 1` moved up by one place.
pub record IsShiftedUp (k lo : ℕ) (b b' : Block) : Type 0 where
  pub size : b'.size ≡ b.size
  pub cell : (j : ℕ) → b'.cell j ≡ (if ltb lo j && leb j (lo + k) then b.cell (j - 1) else b.cell j)

pub record IsShiftedDown (k i : ℕ) (b b' : Block) : Type 0 where
  pub size : b'.size ≡ b.size
  pub cell : (j : ℕ) → b'.cell j ≡ (if leb i j && ltb j (i + k) then b.cell (suc j) else b.cell j)

pub shift_up_lem :
    (k lo : ℕ) (b : Block)
    → lo + k < b.size
    → IsInit b lo (lo + k)
    → Returns (shift_up k lo b) (IsShiftedUp k lo b)
unfolding shift_up
shift_up_lem zero lo b h init = (b, refl, record { size = refl; cell = λ j. ground arith })
shift_up_lem (suc k) lo b h init =
    let (p, e) = init (lo + k) (omega arith) (omega arith) in
    let (b', run, s) =
      shift_up_lem k lo (put b (suc (lo + k)) p) (omega arith)
        (λ j l m. let (q, e') = init j l (omega arith) in (q, ground arith)) in
    (
      b',
      rw (move-ok (suc (lo + k)) (lo + k) p b (omega arith) (omega arith) e) run,
      record { size = s.size; cell = λ j. ground (arith, s.cell j) },
    )

pub shift_down_lem :
    (k i : ℕ) (b : Block)
    → i + k < b.size
    → IsInit b (suc i) (suc (i + k))
    → Returns (shift_down k i b) (IsShiftedDown k i b)
unfolding shift_down
shift_down_lem zero i b h init = (b, refl, record { size = refl; cell = λ j. ground arith })
shift_down_lem (suc k) i b h init =
    let (p, e) = init (suc i) (omega arith) (omega arith) in
    let (b', run, s) =
      shift_down_lem k (suc i) (put b i p) (omega arith)
        (λ j l m. let (q, e') = init j (omega arith) (omega arith) in (q, ground arith)) in
    (
      b',
      rw (move-ok i (suc i) p b (omega arith) (omega arith) e) run,
      record { size = s.size; cell = λ j. ground (arith, s.cell j) },
    )
