-- ===== src/Str/Trim.antt =====
-- `mcl_trim` of util/mcl_string.c.
use mcl.Base.{
  ℕ, zero, suc, ◌+◌, ◌-◌, ◌≤◌, ◌<◌, ◌≡◌, refl, ap, ◌∙◌, true, false, ◌&&◌, some, ok, fault, Returns,
  ltb, leb, ◌==◌, ==_iff, if◌then◌else◌, arith, Bool-cases, inl, inr,
}
use mcl.Block.{Block, write, put, read-ok, write-ok, move-ok}
use mcl.Str.{Str, is_space, find_head, find_tail, copy_down, strlen_at, trim_to, trim}

-- The `n` characters `c 0 … c (n - 1)`, none of them NUL, and the NUL behind them.
pub record IsStr (s : Str) (n : ℕ) (c : ℕ → ℕ) : Type 0 where
  pub size : s.len ≡ n
  pub fits : n < s.chars.size
  pub cells : (i : ℕ) → i < n → s.chars.cell i ≡ some (c i)
  pub no_nul : (i : ℕ) → i < n → (c i == 0) ≡ false
  pub nul : s.chars.cell n ≡ some 0

module _ (b : Block) (c : ℕ → ℕ) (n : ℕ) (fits : n ≤ b.size)
    (cells : (i : ℕ) → i < n → b.cell i ≡ some (c i)) where
  find_head_lem :
      (a : ℕ)
      → a < n
      → is_space (c a) ≡ false
      → ((i : ℕ) → i < a → is_space (c i) ≡ true)
      → (k i : ℕ) → i ≤ a
      → a < i + k
      → find_head k i b ≡ ok (some a)
  unfolding find_head
  find_head_lem a lt stop spaces zero i h m = ground arith
  find_head_lem a lt stop spaces (suc k) i h m = elim (Bool-cases (i == a)) [
    | inl e ↦
        let same = (==_iff i a).0 e in
        rw
          (
            read-ok b i (c i) (omega arith) (cells i (omega arith)),
            ap (λ x. is_space (c x)) same ∙ stop,
          )
          (ap (λ x. ok (some x)) same)
    | inr e ↦
        rw (read-ok b i (c i) (omega arith) (cells i (omega arith)), spaces i (ground arith))
          (find_head_lem a lt stop spaces k (suc i) (ground arith) (omega arith))
  ]

  find_tail_lem :
      (e : ℕ)
      → is_space (c e) ≡ false
      → ((i : ℕ) → e < i → i < n → is_space (c i) ≡ true)
      → (m : ℕ) → e < m
      → m ≤ n
      → find_tail m b ≡ ok (suc e)
  unfolding find_tail
  find_tail_lem e stop spaces zero h l = elim h [ ]
  find_tail_lem e stop spaces (suc m) h l = elim (Bool-cases (m == e)) [
    | inl s ↦
        let same = (==_iff m e).0 s in
        rw
          (
            read-ok b m (c m) (omega arith) (cells m (omega arith)),
            ap (λ x. is_space (c x)) same ∙ stop,
          )
          (ap (λ x. ok (suc x)) same)
    | inr s ↦
        rw
          (
            read-ok b m (c m) (omega arith) (cells m (omega arith)),
            spaces m (ground arith) (omega arith),
          )
          (find_tail_lem e stop spaces m (ground arith) (omega arith))
  ]

  find_tail_blank :
      ((i : ℕ) → i < n → is_space (c i) ≡ true) → (m : ℕ) → m ≤ n → find_tail m b ≡ fault
  unfolding find_tail
  find_tail_blank blank zero h = refl
  find_tail_blank blank (suc m) h =
      rw (read-ok b m (c m) (omega arith) (cells m (omega arith)), blank m (omega arith))
        (find_tail_blank blank m (omega arith))

-- Copying to the left by `g`: what is left to copy is not overwritten first.
record IsCopied (k src g : ℕ) (b b' : Block) : Type 0 where
  size : b'.size ≡ b.size
  cell : (j : ℕ) → b'.cell j ≡ (if leb src j && ltb j (src + k) then b.cell (j + g) else b.cell j)

copy_down_lem :
    (k src g : ℕ) (b : Block) (c : ℕ → ℕ)
    → src + g + k < b.size
    → ((i : ℕ) → src + g ≤ i → i < src + g + k → b.cell i ≡ some (c i))
    → Returns (copy_down k src (src + g) b) (IsCopied k src g b)
unfolding copy_down
copy_down_lem zero src g b c h cells = (b, refl, record { size = refl; cell = λ j. ground arith })
copy_down_lem (suc k) src g b c h cells =
    let (b', run, s) =
      copy_down_lem k (suc src) g (put b src (c (src + g))) c (omega arith)
        (λ i l m. ground (arith, cells i (omega arith) (omega arith))) in
    (
      b',
      rw
          (move-ok src (src + g) (c (src + g)) b (omega arith) (omega arith)
            (cells (src + g) (omega arith) (omega arith)))
          (ap (λ x. copy_down k (suc src) x (put b src (c (src + g)))) {x = suc (src + g)}
              {y = suc src + g} (omega arith)
            ∙ run),
      record {
        size = s.size;
        cell = λ j. ground (arith, s.cell j, cells (src + g), ap b.cell {x = j + g} {y = src + g});
      },
    )

strlen_at_lem :
    (n : ℕ) (b : Block) (c : ℕ → ℕ)
    → n < b.size
    → ((i : ℕ) → i < n → b.cell i ≡ some (c i))
    → ((i : ℕ) → i < n → (c i == 0) ≡ false)
    → b.cell n ≡ some 0
    → (k i : ℕ) → i ≤ n
    → n < i + k
    → strlen_at k i b ≡ ok (some n)
unfolding strlen_at
strlen_at_lem n b c fits cells full nul zero i h m = ground arith
strlen_at_lem n b c fits cells full nul (suc k) i h m = elim (Bool-cases (i == n)) [
  | inl e ↦
      let same = (==_iff i n).0 e in
      rw (read-ok b i 0 (omega arith) (ap b.cell same ∙ nul)) (ap (λ x. ok (some x)) same)
  | inr e ↦
      rw (read-ok b i (c i) (omega arith) (cells i (ground arith)), full i (ground arith))
        (strlen_at_lem n b c fits cells full nul k (suc i) (ground arith) (omega arith))
]

-- The four loops of `mcl_trim`, one after the other.
trim-runs :
    (s : Str) (a e fuel : ℕ) (m m' : Block)
    → find_head fuel 0 s.chars ≡ ok (some a)
    → find_tail s.len s.chars ≡ ok (suc e)
    → copy_down (suc e - a) 0 a s.chars ≡ ok m
    → write m (suc e - a) 0 ≡ ok m'
    → strlen_at fuel 0 m' ≡ ok (some (suc e - a))
    → trim fuel s ≡ ok (some (record s { chars = m'; len = suc e - a }))
unfolding trim trim_to
trim-runs s a e fuel m m' head tail run put size = rw (head, tail, run, put, size) refl

-- `mcl_trim` of a string in which `a` is the first character that is no space and no tab, and `e`
-- the last one, given fuel for its characters, ends without a fault and leaves the characters from
-- `a` to `e`, with their number as the length, and the reference count.
pub trim-IsStr :
    (s : Str) (n : ℕ) (c : ℕ → ℕ) (a e fuel : ℕ)
    → IsStr s n c
    → n < fuel
    → a ≤ e
    → e < n
    → is_space (c a) ≡ false
    → is_space (c e) ≡ false
    → ((i : ℕ) → i < a → is_space (c i) ≡ true)
    → ((i : ℕ) → e < i → i < n → is_space (c i) ≡ true)
    → (s' : Str) × (trim fuel s ≡ ok (some s'))
      × IsStr s' (suc e - a) (λ i. c (i + a))
      × (s'.ref ≡ s.ref)
trim-IsStr s n c a e fuel v lt ae en no_a no_e before behind =
    let b = s.chars in
    let k = suc e - a in
    let head =
      find_head_lem b c n (omega (arith, v.fits)) v.cells a (omega arith) no_a before fuel 0
        (omega arith) (omega arith) in
    let tail =
      find_tail_lem b c n (omega (arith, v.fits)) v.cells e no_e behind n en (omega arith) in
    let (m, run, copied) =
      copy_down_lem k 0 a b c (omega (arith, v.fits)) (λ i l h. v.cells i (omega arith)) in
    let m' = put m k 0 in
    let cell : (i : ℕ) → i < k → m'.cell i ≡ some (c (i + a)) =
      λ i h. ground (arith, copied.cell i, v.cells (i + a)) in
    let full : (i : ℕ) → i < k → (c (i + a) == 0) ≡ false = λ i h. v.no_nul (i + a) (omega arith) in
    let size =
      strlen_at_lem k m' (λ i. c (i + a)) (omega (arith, copied.size, v.fits)) cell full
        (ground arith) fuel 0 (omega arith) (omega arith) in
    (
      record s { chars = m'; len = k },
      trim-runs s a e fuel m m' head (ap (λ x. find_tail x b) v.size ∙ tail)
          (ap (λ x. copy_down k 0 x b) {x = a} {y = 0 + a} (omega arith) ∙ run)
          (write-ok m k 0 (omega (arith, copied.size, v.fits))) size,
      record {
        size = refl;
        fits = omega (arith, copied.size, v.fits);
        cells = cell;
        no_nul = full;
        nul = ground arith;
      },
      refl,
    )

-- The cells of a string, with the NUL.
blank_cell :
    (s : Str) (n : ℕ) (c : ℕ → ℕ)
    → IsStr s n c
    → (i : ℕ) → i < suc n
    → s.chars.cell i ≡ some (if i == n then 0 else c i)
blank_cell s n c v i h = elim (Bool-cases (i == n)) [
  | inl e ↦ rw e (ap s.chars.cell ((==_iff i n).0 e) ∙ v.nul)
  | inr e ↦ rw e (v.cells i (ground arith))
]

-- `mcl_trim` of a string without any character but spaces and tabs reads below the characters,
-- given fuel for its characters.
pub trim_blank :
    (s : Str) (n : ℕ) (c : ℕ → ℕ) (fuel : ℕ)
    → IsStr s n c
    → n < fuel
    → ((i : ℕ) → i < n → is_space (c i) ≡ true)
    → trim fuel s ≡ fault
unfolding trim
trim_blank s n c fuel v lt blank =
    let b = s.chars in
    let d : ℕ → ℕ = λ i. if i == n then 0 else c i in
    let self : (n == n) ≡ true = ground arith in
    let head =
      find_head_lem b d (suc n) v.fits (λ i h. blank_cell s n c v i h) n (omega arith)
        (ap is_space {x = d n} {y = 0} (rw self refl)) (λ i h. ground (arith, blank i)) fuel 0
        (omega arith) (omega arith) in
    rw (head, v.size, find_tail_blank b c n (omega (arith, v.fits)) v.cells blank n (omega arith))
      refl
