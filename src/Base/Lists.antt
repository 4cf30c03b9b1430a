-- ===== src/Base/Lists.antt =====
-- Lists measured and indexed by native numbers, with insertion and removal at an index.
use Prim.Native.Nat.{ℕ, zero, suc, ◌+◌, ◌-◌, ◌≤◌, ◌<◌}
use mathlib.Core.Path.{◌≡◌, refl, ap, ◌∙◌}
use mathlib.Core.List.{List, [], ◌∷◌, ◌++◌, map}
use mathlib.Core.Option.{Option, none, some}
use native.Mathlib.Omega.{arith}
use mcl.Base.Tests.{ltb, ◌==◌, if◌then◌else◌}

pred-suc : (n : ℕ) → suc n - 1 ≡ n
pred-suc n = omega arith

shift-suc : (j k : ℕ) → suc j + k ≡ suc (j + k)
shift-suc j k = omega arith

sub-suc : (e b : ℕ) → suc e - suc b ≡ e - b
sub-suc e b = omega arith

module _ {ℓ} {A : Type ℓ} where
  abbrev pub length : List A → ℕ
  length [] = 0
  length (x ∷ xs) = suc (length xs)

  abbrev pub get_elem? : List A → ℕ → Option A
  get_elem? [] i = none
  get_elem? (x ∷ xs) zero = some x
  get_elem? (x ∷ xs) (suc i) = get_elem? xs i

  abbrev pub take : ℕ → List A → List A
  take zero xs = []
  take (suc n) [] = []
  take (suc n) (x ∷ xs) = x ∷ take n xs

  abbrev pub drop : ℕ → List A → List A
  drop zero xs = xs
  drop (suc n) [] = []
  drop (suc n) (x ∷ xs) = drop n xs

  pub length-append : (xs ys : List A) → length (xs ++ ys) ≡ length xs + length ys
  length-append [] ys = omega arith
  length-append (x ∷ xs) ys = omega (arith, length-append xs ys)

  pub length-take : (n : ℕ) (xs : List A) → n ≤ length xs → length (take n xs) ≡ n
  length-take zero xs h = refl
  length-take (suc n) [] h = elim h [ ]
  length-take (suc n) (x ∷ xs) h = omega (arith, length-take n xs)

  pub length-drop : (n : ℕ) (xs : List A) → length (drop n xs) ≡ length xs - n
  length-drop zero xs = omega arith
  length-drop (suc n) [] = omega arith
  length-drop (suc n) (x ∷ xs) = omega (arith, length-drop n xs)

  pub get_elem?-append :
      (xs ys : List A) (i : ℕ)
      → get_elem? (xs ++ ys) i
        ≡ (if ltb i (length xs) then get_elem? xs i else get_elem? ys (i - length xs))
  get_elem?-append [] ys i = ground arith
  get_elem?-append (x ∷ xs) ys zero = ground arith
  get_elem?-append (x ∷ xs) ys (suc i) = ground (arith, get_elem?-append xs ys i)

  pub get_elem?-take :
      (n : ℕ) (xs : List A) (i : ℕ) → i < n → get_elem? (take n xs) i ≡ get_elem? xs i
  get_elem?-take zero xs i h = elim h [ ]
  get_elem?-take (suc n) [] i h = refl
  get_elem?-take (suc n) (x ∷ xs) zero h = refl
  get_elem?-take (suc n) (x ∷ xs) (suc i) h = get_elem?-take n xs i (omega arith)

  pub get_elem?-drop :
      (n : ℕ) (xs : List A) (i : ℕ) → get_elem? (drop n xs) i ≡ get_elem? xs (n + i)
  get_elem?-drop zero xs i = ap (get_elem? xs) (omega arith)
  get_elem?-drop (suc n) [] i = refl
  get_elem?-drop (suc n) (x ∷ xs) i =
      get_elem?-drop n xs i ∙ ap (get_elem? (x ∷ xs)) {x = suc (n + i)} (omega arith)

  pub get_elem?-eq-some :
      (xs : List A) (i : ℕ) → i < length xs → (x : A) × (get_elem? xs i ≡ some x)
  get_elem?-eq-some [] i h = elim h [ ]
  get_elem?-eq-some (x ∷ xs) zero h = (x, refl)
  get_elem?-eq-some (x ∷ xs) (suc i) h = get_elem?-eq-some xs i (omega arith)

  -- A write out of bounds changes nothing.
  abbrev pub set : List A → ℕ → A → List A
  set [] i v = []
  set (x ∷ xs) zero v = v ∷ xs
  set (x ∷ xs) (suc i) v = x ∷ set xs i v

  pub length-set : (xs : List A) (i : ℕ) (v : A) → length (set xs i v) ≡ length xs
  length-set [] i v = refl
  length-set (x ∷ xs) zero v = refl
  length-set (x ∷ xs) (suc i) v = ap suc (length-set xs i v)

  pub get_elem?-set :
      (xs : List A) (i : ℕ) (v : A) (j : ℕ)
      → i < length xs
      → get_elem? (set xs i v) j ≡ (if j == i then some v else get_elem? xs j)
  get_elem?-set [] i v j h = elim h [ ]
  get_elem?-set (x ∷ xs) zero v zero h = refl
  get_elem?-set (x ∷ xs) zero v (suc j) h = ground arith
  get_elem?-set (x ∷ xs) (suc i) v zero h = ground arith
  get_elem?-set (x ∷ xs) (suc i) v (suc j) h = ground (arith, get_elem?-set xs i v j)

  -- The list with `x` put before the element at `i`.
  pub insert_at : ℕ → A → List A → List A
  insert_at i x xs = take i xs ++ (x ∷ drop i xs)

  -- The list without the elements from `b` up to `e`.
  pub remove_range : ℕ → ℕ → List A → List A
  remove_range b e xs = take b xs ++ drop e xs

  pub length-insert_at :
      (i : ℕ) (x : A) (xs : List A) → i ≤ length xs → length (insert_at i x xs) ≡ length xs + 1
  unfolding insert_at
  length-insert_at i x xs h =
      omega (arith, length-append (take i xs) (x ∷ drop i xs), length-take i xs h, length-drop i xs)

  pub get_elem?-insert_at :
      (i : ℕ) (x : A) (xs : List A) (j : ℕ)
      → i ≤ length xs
      → get_elem? (insert_at i x xs) j
        ≡ (if ltb j i then get_elem? xs j else (if j == i then some x else get_elem? xs (j - 1)))
  unfolding insert_at
  get_elem?-insert_at zero x xs zero h = ground arith
  get_elem?-insert_at zero x xs (suc j) h = ground (arith, ap (get_elem? xs) (pred-suc j))
  get_elem?-insert_at (suc i) x [] j h = elim h [ ]
  get_elem?-insert_at (suc i) x (y ∷ xs) zero h = ground arith
  get_elem?-insert_at (suc i) x (y ∷ xs) (suc zero) h =
      ground (arith, get_elem?-insert_at i x xs zero)
  get_elem?-insert_at (suc i) x (y ∷ xs) (suc (suc j)) h =
      ground (arith, get_elem?-insert_at i x xs (suc j), pred-suc j, pred-suc (suc j))

  pub length-remove_range :
      (b e : ℕ) (xs : List A)
      → b ≤ e
      → e ≤ length xs
      → length (remove_range b e xs) + (e - b) ≡ length xs
  unfolding remove_range
  length-remove_range b e xs h k = omega (
    arith,
    length-append (take b xs) (drop e xs),
    length-take b xs (omega arith),
    length-drop e xs,
  )

  pub get_elem?-remove_range :
      (b e : ℕ) (xs : List A) (j : ℕ)
      → b ≤ e
      → e ≤ length xs
      → get_elem? (remove_range b e xs) j
        ≡ (if ltb j b then get_elem? xs j else get_elem? xs (j + (e - b)))
  unfolding remove_range
  get_elem?-remove_range zero e xs j h k =
      get_elem?-drop e xs j ∙ ap (get_elem? xs) {y = j + (e - 0)} (omega arith) ∙ ground arith
  get_elem?-remove_range (suc b) zero xs j h k = elim h [ ]
  get_elem?-remove_range (suc b) (suc e) [] j h k = elim k [ ]
  get_elem?-remove_range (suc b) (suc e) (x ∷ xs) zero h k = ground arith
  get_elem?-remove_range (suc b) (suc e) (x ∷ xs) (suc j) h k = ground (
    arith,
    get_elem?-remove_range b e xs j,
    ap (get_elem? (x ∷ xs)) (shift-suc j (e - b)),
    sub-suc e b,
  )

  pub insert_at-length : (x : A) (xs : List A) → insert_at (length xs) x xs ≡ xs ++ (x ∷ [])
  unfolding insert_at
  insert_at-length x [] = refl
  insert_at-length x (y ∷ xs) = ap (λ zs. y ∷ zs) (insert_at-length x xs)

  pub insert_at-zero : (x : A) (xs : List A) → insert_at 0 x xs ≡ x ∷ xs
  unfolding insert_at
  insert_at-zero x xs = refl

  pub lt_of_get_elem? : (xs : List A) (i : ℕ) {x : A} → get_elem? xs i ≡ some x → i < length xs
  lt_of_get_elem? [] i e = cc
  lt_of_get_elem? (x ∷ xs) zero e = omega arith
  lt_of_get_elem? (x ∷ xs) (suc i) e = omega (arith, lt_of_get_elem? xs i e)

  abbrev pub drop_last : List A → List A
  drop_last xs = take (length xs - 1) xs

  pub length-drop_last : (xs : List A) → length (drop_last xs) ≡ length xs - 1
  length-drop_last xs = length-take (length xs - 1) xs (omega arith)

  pub get_elem?-drop_last-set :
      (xs : List A) (i : ℕ) (y : A) (j : ℕ)
      → i < length xs
      → j < length xs - 1
      → get_elem? (drop_last (set xs i y)) j ≡ (if j == i then some y else get_elem? xs j)
  get_elem?-drop_last-set xs i y j h l =
      get_elem?-take (length (set xs i y) - 1) (set xs i y) j (omega (arith, length-set xs i y))
      ∙ get_elem?-set xs i y j h

  pub remove_range-append :
      (xs : List A) (y : A) (ys : List A)
      → remove_range (length xs) (suc (length xs)) (xs ++ (y ∷ ys)) ≡ xs ++ ys
  unfolding remove_range
  remove_range-append [] y ys = refl
  remove_range-append (x ∷ xs) y ys = ap (λ zs. x ∷ zs) (remove_range-append xs y ys)

  pub get_elem?-append_right :
      (xs ys : List A) (j : ℕ) → get_elem? (xs ++ ys) (length xs + j) ≡ get_elem? ys j
  get_elem?-append_right [] ys j = ap (get_elem? ys) (omega arith)
  get_elem?-append_right (x ∷ xs) ys j =
      ap (get_elem? (x ∷ (xs ++ ys))) {x = suc (length xs) + j} {y = suc (length xs + j)}
        (omega arith)
      ∙ get_elem?-append_right xs ys j

  pub le_of_get_elem?-none : (xs : List A) (i : ℕ) → get_elem? xs i ≡ none → length xs ≤ i
  le_of_get_elem?-none [] i e = omega arith
  le_of_get_elem?-none (x ∷ xs) zero e = cc
  le_of_get_elem?-none (x ∷ xs) (suc i) e = omega (arith, le_of_get_elem?-none xs i e)

pub length-map {ℓ κ} :
    {A : Type ℓ} {B : Type κ} (f : A → B) (xs : List A) → length (map f xs) ≡ length xs
length-map f [] = refl
length-map f (x ∷ xs) = ap suc (length-map f xs)
