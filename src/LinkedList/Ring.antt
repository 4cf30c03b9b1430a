-- ===== src/LinkedList/Ring.antt =====
-- A list as a ring on the heap: from the head over the nodes back to the head.
use mcl.Base.{
  none, null, Returns, ◌≡◌, refl, true, false, some, [], ◌∷◌, Ptr, ◌==◌, length, arith, ok,
}
use mcl.Heap.{update, alloc, set_prev, set_next, Heap, get_next, get_prev, get_item}
use mcl.Heap.Chain.{Nodes, has, Edge, Chain, AreApart, SameAt}
use mcl.LinkedList.{new, LinkedList}

pub record IsList (h : Heap) (l : LinkedList) (xs : Nodes) : Type 0 where
  pub chain : Chain h l.entries xs l.entries
  pub apart : AreApart l.entries xs l.entries
  pub size : l.list_sz ≡ length xs

-- The address behind the start of a chain, and the one before its end.
abbrev pub first : Nodes → Ptr → Ptr
first [] b = b
first ((x, d) ∷ xs) b = x

abbrev pub last : Ptr → Nodes → Ptr
last a [] = a
last a ((x, d) ∷ xs) = last x xs

module _ (h : Heap) (b : Ptr) where
  pub first-Edge : (a : Ptr) (xs : Nodes) → Chain h a xs b → Edge h a (first xs b)
  first-Edge a [] e = e
  first-Edge a ((x, d) ∷ xs) (e, i, c) = e

  pub last-Edge : (a : Ptr) (xs : Nodes) → Chain h a xs b → Edge h (last a xs) b
  last-Edge a [] e = e
  last-Edge a ((x, d) ∷ xs) (e, i, c) = last-Edge x xs c

  -- An address that is not allocated is no node.
  pub not-has_of_dead :
      (a : Ptr) (xs : Nodes) (p : Ptr) → Chain h a xs b → h.live p ≡ false → has p xs ≡ false
  not-has_of_dead a [] p e dead = refl
  not-has_of_dead a ((x, d) ∷ xs) p (e, i, c) dead =
      ground (arith, e.to, not-has_of_dead x xs p c dead)

module _ {h : Heap} {a b : Ptr} (e : Edge h a b) where
  pub get_next-ok : get_next a h ≡ ok (b, h)
  unfolding get_next
  get_next-ok = rw (e.from, e.next)

  pub get_prev-ok : get_prev b h ≡ ok (a, h)
  unfolding get_prev
  get_prev-ok = rw (e.to, e.prev)

pub get_item-ok :
    (h : Heap) (p d : Ptr) → h.live p ≡ true → h.item p ≡ some d → get_item p h ≡ ok (d, h)
unfolding get_item
get_item-ok h p d l e = rw (l, e)

pub last-ne :
    (p a : Ptr) (xs : Nodes) → (p == a) ≡ false → has p xs ≡ false → (p == last a xs) ≡ false
last-ne p a [] e f = e
last-ne p a ((x, d) ∷ xs) e f = last-ne p x xs (ground arith) (ground arith)

pub first-ne :
    (p b : Ptr) (xs : Nodes) → (p == b) ≡ false → has p xs ≡ false → (p == first xs b) ≡ false
first-ne p b [] e f = e
first-ne p b ((x, d) ∷ xs) e f = ground arith

pub ne_sym : (p q : Ptr) → (p == q) ≡ false → (q == p) ≡ false
ne_sym p q e = ground arith

pub compare_self : (p : Ptr) → (p == p) ≡ true
compare_self p = ground arith

-- The heap with a head at `fresh` that is its own neighbour on both sides.
abbrev created : Heap → Ptr → Heap
created h fresh = record {
  live = update h.live fresh true;
  next = update (update h.next fresh none) fresh (some fresh);
  prev = update (update h.prev fresh none) fresh (some fresh);
  item = update h.item fresh none;
}

-- A new list: its ring is empty, and the heap outside of its head is as before.
pub record Creates (h : Heap) (fresh : Ptr) (o : LinkedList × Heap) : Type 0 where
  pub ring : IsList o.1 o.0 []
  pub entries : o.0.entries ≡ fresh
  pub erase_fn : o.0.erase_fn ≡ null
  pub same : (p : Ptr) → (p == fresh) ≡ false → SameAt h o.1 p

-- `mcl_list_new`, given an address that is not NULL, makes an empty well-formed list there,
-- without an erase function, and changes nothing else.
pub new-Creates :
    (fresh : Ptr) (h : Heap) → (fresh == null) ≡ false → Returns (new fresh h) (Creates h fresh)
unfolding new alloc set_prev set_next
new-Creates fresh h nz =
    let self = compare_self fresh in
    (
      (record { entries = fresh; list_sz = 0; erase_fn = null }, created h fresh),
      rw (nz, self, self) refl,
      record {
        ring = record {
          chain = record {
            from = rw self refl;
            to = rw self refl;
            next = rw self refl;
            prev = rw self refl;
          };
          apart = tt;
          size = refl;
        };
        entries = refl;
        erase_fn = refl;
        same = λ p e. record {
          live = rw e refl;
          next = rw e refl;
          prev = rw e refl;
          item = rw e refl;
        };
      },
    )
