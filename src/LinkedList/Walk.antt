-- ===== src/LinkedList/Walk.antt =====
-- What the loops of util/mcl_list.c that go by `_next` need of a ring.
use mcl.Base.{◌≡◌, true, false, some, [], ◌∷◌, Ptr, null, ◌==◌, ok}
use mcl.Heap.{Heap, get_next}
use mcl.Heap.Chain.{Nodes, has, Chain, AreApart}
use mcl.LinkedList.Ring.{first, first-Edge}

-- What a walk by `_next` reads of the nodes before `b`.
abbrev pub Rest : Heap → Nodes → Ptr → Type 0
Rest h [] b = Unit
Rest h ((x, d) ∷ xs) b =
    (h.live x ≡ true) × (h.item x ≡ some d) × (h.next x ≡ some (first xs b)) × Rest h xs b

pub Chain-Rest : (h : Heap) (a : Ptr) (xs : Nodes) (b : Ptr) → Chain h a xs b → Rest h xs b
Chain-Rest h a [] b e = tt
Chain-Rest h a ((x, d) ∷ xs) b (e, i, c) =
    (e.to, i, (first-Edge h b x xs c).next, Chain-Rest h x xs b c)

-- Each node is in `xs` once, and neither NULL nor `b` is.
abbrev pub AreOnce : Nodes → Ptr → Type 0
AreOnce [] b = Unit
AreOnce ((x, d) ∷ xs) b =
    ((x == null) ≡ false) × ((x == b) ≡ false) × (has x xs ≡ false) × AreOnce xs b

pub AreApart-AreOnce : (a : Ptr) (xs : Nodes) (b : Ptr) → AreApart a xs b → AreOnce xs b
AreApart-AreOnce a [] b s = tt
AreApart-AreOnce a ((x, d) ∷ xs) b s = (s.0, s.2, s.3, AreApart-AreOnce x xs b s.5)

pub get_next-live :
    (h : Heap) (x n : Ptr) → h.live x ≡ true → h.next x ≡ some n → get_next x h ≡ ok (n, h)
unfolding get_next
get_next-live h x n l e = rw (l, e)
