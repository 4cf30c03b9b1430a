-- ===== src/Str/Counted/Copies.antt =====
-- What `mcl_string_alloc` and `mcl_string_copy` of util/mcl_string.c make.
use mcl.Base.{
  ℕ, zero, suc, ◌+◌, ◌≤◌, ◌<◌, ◌≡◌, refl, ap, ◌∙◌, false, some, ok, ◌==◌, arith, Bool-cases, ==_iff,
  inl, inr,
}
use mcl.Block.{Block, malloc, put, read-ok, write-ok}
use mcl.Str.{Str}
use mcl.Str.Trim.{IsStr}
use mcl.Str.Counted.{copy_in, alloc, copy}

-- The first `n` cells of a source.
module _ (src : Block) (c : ℕ → ℕ) (n : ℕ) (fits : n ≤ src.size)
    (cells : (i : ℕ) → i < n → src.cell i ≡ some (c i)) where
  -- What a copy from the subscript `i` on leaves.
  record Copied (i : ℕ) (b b' : Block) : Type 0 where
    size : b'.size ≡ b.size
    copied : (j : ℕ) → i ≤ j → j < n → b'.cell j ≡ some (c j)
    kept : (j : ℕ) → j < i → b'.cell j ≡ b.cell j

  copy_in-Copied :
      (k i : ℕ) (b : Block)
      → i + k ≡ n
      → n ≤ b.size
      → (b' : Block) × (copy_in k i src b ≡ ok b') × Copied i b b'
  unfolding copy_in
  copy_in-Copied zero i b e h =
      (b, refl, record { size = refl; copied = λ j l m. ground arith; kept = λ j l. refl })
  copy_in-Copied (suc k) i b e h =
      let (b', run, r) = copy_in-Copied k (suc i) (put b i (c i)) (omega arith) h in
      (
        b',
        rw
            (
              read-ok src i (c i) (omega arith) (cells i (omega arith)),
              write-ok b i (c i) (omega arith),
            )
            run,
        record {
          size = r.size;
          copied = λ j l m. elim (Bool-cases (j == i)) [
            | inl s ↦ let same = (==_iff j i).0 s in rw same (r.kept i (omega arith) ∙ ground arith)
            | inr s ↦ r.copied j (ground arith) m
          ];
          kept = λ j l. r.kept j (omega arith) ∙ ground arith;
        },
      )

  -- The string that `mcl_string_alloc` makes of them.
  pub alloc-IsStr :
      ((i : ℕ) → i < n → (c i == 0) ≡ false)
      → (s : Str) × (alloc src n ≡ ok s) × IsStr s n c × (s.ref ≡ 1)
  unfolding alloc malloc
  alloc-IsStr no_nul =
      let (b, run, r) = copy_in-Copied n 0 (malloc (suc n)) (omega arith) (omega arith) in
      let size : b.size ≡ suc n = r.size in
      (
        record { len = n; ref = 1; chars = put b n 0 },
        rw (run, write-ok b n 0 (omega arith)) refl,
        record {
          size = refl;
          fits = omega arith;
          cells = λ i h.
              (let old = r.copied i (omega arith) h in
                let other : (i == n) ≡ false = ground arith in rw other old);
          no_nul = no_nul;
          nul = ground arith;
        },
        refl,
      )

-- `mcl_string_copy` of a string
pub copy-IsStr :
    (s : Str) (n : ℕ) (c : ℕ → ℕ)
    → IsStr s n c
    → (s' : Str) × (copy s ≡ ok s') × IsStr s' n c × (s'.ref ≡ 1)
unfolding copy
copy-IsStr s n c v =
    let (s', run, v', one) = alloc-IsStr s.chars c n (omega (arith, v.fits)) v.cells v.no_nul in
    (s', ap (alloc s.chars) v.size ∙ run, v', one)
