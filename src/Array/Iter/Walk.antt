-- ===== src/Array/Iter/Walk.antt =====
-- A loop over an array visits its elements in order, up to the first that is NULL.
use mcl.Base.{
  ℕ, zero, suc, ◌+◌, ◌<◌, ◌≡◌, refl, sym, ap, ◌∙◌, List, [], ◌∷◌, some, Ptr, null, ok, pos, length,
  get_elem?, ◌==◌, if◌then◌else◌, arith, Bool-cases, inl, inr,
}
use mcl.Block.{read-ok}
use mcl.Array.{Array}
use mcl.Array.View.{IsArray, check-in_bounds, check-out_of_bounds}
use mcl.Array.Iter.{Iter, on, unset, iter_head, iter_next, iter_info, foreach_from, foreach}

-- The elements before the first NULL.
unfoldable pub until_null : List Ptr → List Ptr
until_null [] = []
until_null (p ∷ ps) = if p == null then [] else p ∷ until_null ps

-- The iterator on the first of the elements `ys`, which start at the index `i`.
abbrev pub cursor : ℕ → List Ptr → Iter
cursor i [] = unset
cursor i (y ∷ ys) = on y (pos i)

-- `ys` are the elements of `xs` from the index `i` on.
pub record IsSuffix (i : ℕ) (ys xs : List Ptr) : Type 0 where
  pub size : i + length ys ≡ length xs
  pub elems : (j : ℕ) → get_elem? ys j ≡ get_elem? xs (i + j)

pub IsSuffix-tail :
    (i : ℕ) (y : Ptr) (ys xs : List Ptr) → IsSuffix i (y ∷ ys) xs → IsSuffix (suc i) ys xs
IsSuffix-tail i y ys xs s = record {
  size = omega (arith, s.size);
  elems = λ j. s.elems (suc j) ∙ ap (get_elem? xs) {x = i + suc j} {y = suc i + j} (omega arith);
}

pub IsSuffix-head :
    (i : ℕ) (y : Ptr) (ys xs : List Ptr) → IsSuffix i (y ∷ ys) xs → get_elem? xs i ≡ some y
IsSuffix-head i y ys xs s = ap (get_elem? xs) {x = i} {y = i + 0} (omega arith) ∙ sym (s.elems 0)

pub IsSuffix-self : (xs : List Ptr) → IsSuffix 0 xs xs
IsSuffix-self xs = record { size = omega arith; elems = λ j. ap (get_elem? xs) (omega arith) }

module _ {a : Array} {xs : List Ptr} (v : IsArray a xs) where
  pub iter_next-cursor :
      (i : ℕ) (y : Ptr) (ys : List Ptr)
      → IsSuffix i (y ∷ ys) xs
      → iter_next (on y (pos i)) a ≡ ok (cursor (suc i) ys)
  unfolding iter_next
  iter_next-cursor i y [] s =
      rw (check-out_of_bounds v (suc i) (omega (arith, s.size)) (omega (arith, s.size)))
  iter_next-cursor i y (z ∷ zs) s =
      let t = IsSuffix-tail i y (z ∷ zs) xs s in
      let h : suc i < length xs = omega (arith, t.size) in
      rw (
        check-in_bounds v (suc i) h,
        read-ok a.all_data (suc i) z (omega arith)
            (v.cells (suc i) h ∙ IsSuffix-head (suc i) z zs xs t),
      )

  pub iter_info-on :
      (i : ℕ) (y : Ptr) → i < length xs → iter_info (on y (pos i)) a ≡ (on y (pos i), y)
  unfolding iter_info
  iter_info-on i y h = rw (check-in_bounds v i h)

pub iter_head-cursor : {a : Array} (xs : List Ptr) → IsArray a xs → iter_head a ≡ ok (cursor 0 xs)
unfolding iter_head
iter_head-cursor [] v = ground arith
iter_head-cursor {a} (x ∷ xs) v =
    ground (arith, read-ok a.all_data 0 x (omega arith) (v.cells 0 (omega arith)))

module _ {a : Array} {xs : List Ptr} (v : IsArray a xs) where
  foreach_from-until_null :
      (fuel i : ℕ) (ys : List Ptr)
      → IsSuffix i ys xs
      → length ys < fuel
      → foreach_from fuel (cursor i ys) a ≡ ok (some (until_null ys))
  unfolding foreach_from until_null
  foreach_from-until_null zero i ys s h = elim h [ ]
  foreach_from-until_null (suc k) i [] s h = refl
  foreach_from-until_null (suc k) i (y ∷ ys) s h = elim (Bool-cases (y == null)) [
    | inl e ↦ rw e
    | inr e ↦ rw (
      e,
      iter_info-on v i y (omega (arith, s.size)),
      iter_next-cursor v i y ys s,
      foreach_from-until_null k (suc i) ys (IsSuffix-tail i y ys xs s) (omega arith),
    )
  ]

  -- `MCL_FOREACH` over an array with more fuel than elements ends, and reads the elements before
  -- the first NULL in order.
  pub foreach-until_null :
      (fuel : ℕ) → length xs < fuel → foreach fuel a ≡ ok (some (until_null xs))
  unfolding foreach
  foreach-until_null fuel h =
      rw (iter_head-cursor xs v) (foreach_from-until_null fuel 0 xs (IsSuffix-self xs) h)
