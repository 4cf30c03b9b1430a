-- ===== src/Array/Iter/EraseLoop.antt =====
-- A loop over an array that erases the elements that a test wants:
-- `for (ITER_HEAD; !ITER_NULL;) { if (wanted(info) && ERASE) continue; ITER_NEXT; }`.
use mcl.Base.{
  ℕ, zero, suc, ◌<◌, ◌≡◌, refl, ◌∙◌, Bool, false, List, [], ◌∷◌, ◌++◌, Option, none, some, Ptr,
  null, FreeFn, Call, Run, ok, ◌>>=◌, pos, length, length-append, ◌==◌, if◌then◌else◌, arith,
  Bool-cases, inl, inr,
}
use mathlib.Core.List.{append_assoc}
use mcl.Array.{Array}
use mcl.Array.View.{IsArray}
use mcl.Array.Delete.Loops.{calls_of}
use mcl.Array.Iter.{Iter, on, iter_head, iter_next, iter_info, iter_erase}
use mcl.Array.Iter.Walk.{cursor, iter_next-cursor, iter_info-on, iter_head-cursor}
use mcl.Array.Iter.Erase.{append-IsSuffix, first, iter_erase-ErasesTo}

-- What the loop leaves, or `none` if the fuel is not enough.
abbrev pub Swept : Type 0
Swept = Run (Option (Array × List Call))

abbrev pub after : List Call → Option (Array × List Call) → Option (Array × List Call)
after cs none = none
after cs (some (a, ds)) = some (a, cs ++ ds)

unfoldable pub sweep : ℕ → (Ptr → Bool) → Iter → Array → Swept
sweep zero wanted it a = ok none
sweep (suc k) wanted it a =
    let (it', p) = iter_info it a in
    let next : Swept = (do it'' ← iter_next it' a; sweep k wanted it'' a) in
    let erase : Swept = (do
      r ← iter_erase it' a
      rest ← sweep k wanted r.iter r.array
      ok (after r.calls rest)) in
    if it.ptr == null then ok (some (a, [])) else if wanted p then erase else next

module _ (wanted : Ptr → Bool) where
  unfoldable pub select : List Ptr → List Ptr
  select [] = []
  select (y ∷ ys) = if wanted y then y ∷ select ys else select ys

  unfoldable pub reject : List Ptr → List Ptr
  reject [] = []
  reject (y ∷ ys) = if wanted y then reject ys else y ∷ reject ys

-- No element is NULL.
abbrev pub NoNull : List Ptr → Type 0
NoNull [] = Unit
NoNull (y ∷ ys) = ((y == null) ≡ false) × NoNull ys

-- The iterator is on the first of `ys`, which starts at the index `i`; with none left its pointer is NULL.
abbrev IsAt : Iter → ℕ → List Ptr → Type 0
IsAt it i [] = it.ptr ≡ null
IsAt it i (y ∷ ys) = it ≡ on y (pos i)

abbrev pub SweepsTo : FreeFn → (Ptr → Bool) → List Ptr → List Ptr → Swept → Type 0
SweepsTo fn w xs ys r =
    (a' : Array) × (r ≡ ok (some (a', calls_of fn (select w ys)))) × IsArray a' (xs ++ reject w ys)

IsAt-cursor : (i : ℕ) (ys : List Ptr) → IsAt (cursor i ys) i ys
IsAt-cursor i [] = refl
IsAt-cursor i (y ∷ ys) = refl

IsAt-first : (i : ℕ) (ys : List Ptr) → IsAt (on (first ys) (pos i)) i ys
IsAt-first i [] = refl
IsAt-first i (y ∷ ys) = refl

module _ {fn : FreeFn} (wanted : Ptr → Bool) where
  sweep-SweepsTo :
      (fuel : ℕ) (it : Iter) (a : Array) (xs ys : List Ptr)
      → IsAt it (length xs) ys
      → NoNull ys
      → IsArray a (xs ++ ys)
      → a.erase_fn ≡ some fn
      → length ys < fuel
      → SweepsTo fn wanted xs ys (sweep fuel wanted it a)
  unfolding sweep select reject calls_of
  sweep-SweepsTo zero it a xs ys at n v e h = elim h [ ]
  sweep-SweepsTo (suc k) it a xs [] at n v e h = (a, rw at, v)
  sweep-SweepsTo (suc k) it a xs (y ∷ ys) at n v e h =
      let s = append-IsSuffix xs (y ∷ ys) in
      let i = length xs in
      let info = iter_info-on v i y (omega (arith, s.size)) in
      elim (Bool-cases (wanted y)) [
        | inl yes' ↦
            let (r, run, d) = iter_erase-ErasesTo xs y ys v e in
            let (a', go, m) =
              sweep-SweepsTo k r.iter r.array xs ys (rw d.iter (IsAt-first i ys)) n.1 d.models
                (d.kept ∙ e) (omega arith) in
            (a', rw (at, n.0, info, yes', run, go) (ground (arith, d.calls)), rw yes' m)
        | inr no' ↦
            let n' : length (xs ++ (y ∷ [])) ≡ suc i = omega (arith, length-append xs (y ∷ [])) in
            let (a', go, m) =
              sweep-SweepsTo k (cursor (suc i) ys) a (xs ++ (y ∷ [])) ys
                (rw n' (IsAt-cursor (suc i) ys)) n.1 (rw (append_assoc xs (y ∷ []) ys) v) e
                (omega arith) in
            (
              a',
              rw (at, n.0, info, no', iter_next-cursor v i y ys s, go),
              rw no' (rw (append_assoc xs (y ∷ []) (reject wanted ys)) at m),
            )
      ]

  -- With a registered erase function, no NULL among the elements and enough fuel, a loop over an
  -- array that erases the elements a test wants ends, leaves the other elements in order, and
  -- frees each wanted one once, in order.
  pub sweep-reject :
      {a : Array} (xs : List Ptr) (fuel : ℕ)
      → IsArray a xs
      → a.erase_fn ≡ some fn
      → NoNull xs
      → length xs < fuel
      → SweepsTo fn wanted [] xs (iter_head a >>= λ it. sweep fuel wanted it a)
  sweep-reject {a} xs fuel v e n h =
      rw (iter_head-cursor xs v)
        (sweep-SweepsTo fuel (cursor 0 xs) a [] xs (IsAt-cursor 0 xs) n v e h)
