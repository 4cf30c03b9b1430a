-- ===== src/Heap/Chain.antt =====
-- Doubly linked chains of nodes on the heap.
use mcl.Base.{refl, ◌++◌, ◌≡◌, Bool, true, false, ◌||◌, some, List, [], ◌∷◌, Ptr, null, ◌==◌, arith}
use mcl.Heap.{Heap}

-- The address and the `_data` of each node, in order.
abbrev pub Nodes : Type 0
Nodes = List (Ptr × Ptr)

abbrev pub has : Ptr → Nodes → Bool
has a [] = false
has a ((p, _) ∷ xs) = (a == p) || has a xs

-- `b` follows `a`.
pub record Edge (h : Heap) (a b : Ptr) : Type 0 where
  pub from : h.live a ≡ true
  pub to : h.live b ≡ true
  pub next : h.next a ≡ some b
  pub prev : h.prev b ≡ some a

-- From `a` over the nodes `xs` to `b`.
abbrev pub Chain : Heap → Ptr → Nodes → Ptr → Type 0
Chain h a [] b = Edge h a b
Chain h a ((x, d) ∷ xs) b = Edge h a x × (h.item x ≡ some d) × Chain h x xs b

-- The nodes are distinct, none is NULL, and none is one of the two ends.
abbrev pub AreApart : Ptr → Nodes → Ptr → Type 0
AreApart a [] b = Unit
AreApart a ((x, d) ∷ xs) b =
    ((x == null) ≡ false)
    × ((x == a) ≡ false)
    × ((x == b) ≡ false)
    × (has x xs ≡ false)
    × (has a xs ≡ false)
    × AreApart x xs b

-- `h'` differs from `h` at most in how `a` goes on, in how `b` is reached, and in the nodes `xs`.
pub record SameBut (h : Heap) (a : Ptr) (xs : Nodes) (b : Ptr) (h' : Heap) : Type 0 where
  pub live : (p : Ptr) → has p xs ≡ false → h'.live p ≡ h.live p
  pub item : (p : Ptr) → has p xs ≡ false → h'.item p ≡ h.item p
  pub next : (p : Ptr) → (p == a) ≡ false → has p xs ≡ false → h'.next p ≡ h.next p
  pub prev : (p : Ptr) → (p == b) ≡ false → has p xs ≡ false → h'.prev p ≡ h.prev p

-- `h'` agrees with `h` on what makes the chain.
pub record Agrees (h : Heap) (a : Ptr) (xs : Nodes) (b : Ptr) (h' : Heap) : Type 0 where
  pub live_ends : (h'.live a ≡ h.live a) × (h'.live b ≡ h.live b)
  pub next_end : h'.next a ≡ h.next a
  pub prev_end : h'.prev b ≡ h.prev b
  pub live : (p : Ptr) → has p xs ≡ true → h'.live p ≡ h.live p
  pub item : (p : Ptr) → has p xs ≡ true → h'.item p ≡ h.item p
  pub next : (p : Ptr) → has p xs ≡ true → h'.next p ≡ h.next p
  pub prev : (p : Ptr) → has p xs ≡ true → h'.prev p ≡ h.prev p

pub Agrees-Chain :
    {h h' : Heap} {b : Ptr} (a : Ptr) (xs : Nodes)
    → Agrees h a xs b h'
    → Chain h a xs b
    → Chain h' a xs b
Agrees-Chain a [] g e = ground arith
Agrees-Chain a ((x, d) ∷ xs) g (e, i, c) = (
  ground (arith, g.live x, g.prev x),
  ground (arith, g.item x),
  Agrees-Chain x xs
      (record {
        live_ends = (ground (arith, g.live x), g.live_ends.1);
        next_end = ground (arith, g.next x);
        prev_end = g.prev_end;
        live = λ p m. ground (arith, g.live p);
        item = λ p m. ground (arith, g.item p);
        next = λ p m. ground (arith, g.next p);
        prev = λ p m. ground (arith, g.prev p);
      })
      c,
)

-- `h'` is `h` at an address.
pub record SameAt (h h' : Heap) (p : Ptr) : Type 0 where
  pub live : h'.live p ≡ h.live p
  pub next : h'.next p ≡ h.next p
  pub prev : h'.prev p ≡ h.prev p
  pub item : h'.item p ≡ h.item p

pub AreApart-from :
    (a c : Ptr) (xs : Nodes) (b : Ptr) → AreApart a xs b → has c xs ≡ false → AreApart c xs b
AreApart-from a c [] b s e = tt
AreApart-from a c ((x, d) ∷ xs) b s e = ground (arith, s)

pub not-has-start : (a : Ptr) (xs : Nodes) (b : Ptr) → AreApart a xs b → has a xs ≡ false
not-has-start a [] b s = refl
not-has-start a ((x, d) ∷ xs) b s = ground (arith, s)

pub has-append : (p : Ptr) (xs ys : Nodes) → has p (xs ++ ys) ≡ (has p xs || has p ys)
has-append p [] ys = refl
has-append p ((x, d) ∷ xs) ys = rw (has-append p xs ys) (ground arith)

-- One more node at the end.
pub AreApart-snoc :
    (a : Ptr) (xs : Nodes) (p d b : Ptr)
    → AreApart a xs b
    → (p == null) ≡ false
    → (p == a) ≡ false
    → (p == b) ≡ false
    → has p xs ≡ false
    → AreApart a (xs ++ ((p, d) ∷ [])) b
AreApart-snoc a [] p d b s ne_null ne_a ne_b out = (ne_null, ne_a, ne_b, refl, refl, tt)
AreApart-snoc a ((x, d') ∷ xs) p d b s ne_null ne_a ne_b out = (
  s.0,
  s.1,
  s.2,
  rw (has-append x xs ((p, d) ∷ [])) (ground (arith, s)),
  rw (has-append a xs ((p, d) ∷ [])) (ground (arith, s)),
  AreApart-snoc x xs p d b s.5 ne_null (ground arith) ne_b (ground arith),
)
