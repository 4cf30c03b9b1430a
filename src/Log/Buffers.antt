-- ===== src/Log/Buffers.antt =====
-- Text in the buffers of util/mcl_log.c.
use mcl.Base.{
  ℕ, zero, suc, ◌+◌, ◌-◌, ◌≤◌, ◌<◌, ◌≡◌, refl, ap, ◌∙◌, false, some, [], ◌∷◌, ◌++◌, ok, fault,
  length, take, get_elem?, get_elem?-take, ltb, ◌==◌, if◌then◌else◌, arith,
}
use mcl.Block.{Block, write, put, write-ok}
use mcl.Log.{Text, snprintf, text_from, text_of, print_text}

-- No character is NUL.
abbrev pub IsText : Text → Type 0
IsText [] = Unit
IsText (c ∷ cs) = ((c == 0) ≡ false) × IsText cs

-- A text and a NUL from the subscript `i` on.
abbrev Spells : (i : ℕ) → Text → Block → Type 0
Spells i [] b = b.cell i ≡ some 0
Spells i (c ∷ cs) b = (b.cell i ≡ some c) × Spells (suc i) cs b

text_from-Spells :
    (k i : ℕ) (cs : Text) (b : Block)
    → Spells i cs b
    → IsText cs
    → length cs < k
    → text_from k i b ≡ cs
unfolding text_from
text_from-Spells zero i cs b s t h = elim h [ ]
text_from-Spells (suc k) i [] b s t h = rw (text_from, s) refl
text_from-Spells (suc k) i (c ∷ cs) b (e, s) (n, t) h =
    rw (text_from, e, n, text_from-Spells k (suc i) cs b s t (omega arith)) refl

-- A function that gives the characters of a text, and then NUL, spells it.
Spells-cells :
    (i : ℕ) (cs : Text) (b : Block)
    → ((j : ℕ) → j < length cs → b.cell (i + j) ≡ get_elem? cs j)
    → b.cell (i + length cs) ≡ some 0
    → Spells i cs b
Spells-cells i [] b f e = ap b.cell {x = i} {y = i + 0} (omega arith) ∙ e
Spells-cells i (c ∷ cs) b f e = (
  ap b.cell {x = i} {y = i + 0} (omega arith) ∙ f 0 (omega arith),
  Spells-cells (suc i) cs b
      (λ j h. ap b.cell {x = suc i + j} {y = i + suc j} (omega arith) ∙ f (suc j) (omega arith))
      (ap b.cell {x = suc i + length cs} {y = i + suc (length cs)} (omega arith) ∙ e),
)

pub text_of-cells :
    (cs : Text) (b : Block)
    → IsText cs
    → length cs < b.size
    → ((j : ℕ) → j < length cs → b.cell j ≡ get_elem? cs j)
    → b.cell (length cs) ≡ some 0
    → text_of b ≡ cs
unfolding text_of
text_of-cells cs b t h f e =
    text_from-Spells b.size 0 cs b
      (Spells-cells 0 cs b (λ j m. ap b.cell {x = 0 + j} {y = j} (omega arith) ∙ f j m)
        (ap b.cell {x = 0 + length cs} {y = length cs} (omega arith) ∙ e))
      t h

pub length-take_min :
    (n : ℕ) (cs : Text) → length (take n cs) ≡ (if ltb n (length cs) then n else length cs)
length-take_min zero [] = refl
length-take_min zero (c ∷ cs) = ground arith
length-take_min (suc n) [] = ground arith
length-take_min (suc n) (c ∷ cs) = ground (arith, length-take_min n cs)

-- A text that is shorter than the buffer is put there.
pub print_text-text_of :
    (size : ℕ) (cs : Text) (b : Block)
    → IsText cs
    → b.size ≡ size
    → length cs < size
    → (b' : Block) × (print_text size cs b ≡ ok b') × (text_of b' ≡ cs)
unfolding print_text snprintf
print_text-text_of size cs b t e h =
    let b1 = (snprintf size cs b).0 in
    let n : length (take (size - 1) cs) ≡ length cs =
      ground (arith, length-take_min (size - 1) cs) in
    (
      put b1 (length cs) 0,
      write-ok b1 (length cs) 0 (omega arith),
      text_of-cells cs (put b1 (length cs) 0) t (omega arith) (λ j m. ground (arith, n))
          (ground arith),
    )

-- One that is not makes the last write leave the buffer.
pub print_text_fault :
    (size : ℕ) (cs : Text) (b : Block)
    → b.size ≡ size
    → size ≤ length cs
    → print_text size cs b ≡ fault
unfolding print_text snprintf write
print_text_fault size cs b e h = ground arith

IsText-take : (n : ℕ) (cs : Text) → IsText cs → IsText (take n cs)
IsText-take zero cs t = tt
IsText-take (suc n) [] t = tt
IsText-take (suc n) (c ∷ cs) t = (t.0, IsText-take n cs t.1)

-- A text that does not fit is cut off.
pub snprintf-take :
    (n : ℕ) (cs : Text) (b : Block)
    → IsText cs
    → b.size ≡ suc n
    → text_of (snprintf (suc n) cs b).0 ≡ take n cs
unfolding snprintf
snprintf-take n cs b t e =
    let m = suc n - 1 in
    let same : suc n - 1 ≡ n = omega arith in
    let k = length-take_min n cs in
    text_of-cells (take n cs) (snprintf (suc n) cs b).0 (IsText-take n cs t) (ground (arith, k))
      (λ j h. rw same (ground (arith, k, get_elem?-take n cs j))) (rw same (ground arith))

pub IsText-append : (bs cs : Text) → IsText bs → IsText cs → IsText (bs ++ cs)
IsText-append [] cs t u = u
IsText-append (b ∷ bs) cs t u = (t.0, IsText-append bs cs t.1 u)
