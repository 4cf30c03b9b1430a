-- ===== src/LinkedList/Find.antt =====
-- `mcl_list_find` of util/mcl_list.c.
use mcl.Base.{
  ℕ, zero, suc, ◌<◌, ◌≡◌, refl, false, some, [], ◌∷◌, Ptr, null, ◌==◌, length, arith, ok,
  if◌then◌else◌, Bool-cases, inl, inr,
}
use mcl.Heap.{Heap, get_next}
use mcl.Heap.Chain.{Nodes}
use mcl.LinkedList.{LinkedList, CmpFn}
use mcl.LinkedList.Iter.{Iter, on, off, iter_head, iter_next, iter_info, matches, find_loop, find}
use mcl.LinkedList.Ring.{IsList, ne_sym, compare_self, get_next-ok, get_item-ok}
use mcl.LinkedList.Walk.{Rest, Chain-Rest, get_next-live, AreOnce, AreApart-AreOnce}

-- The first data that matches, NULL if there is none. A node whose data is NULL ends the search.
unfoldable pub first_match : CmpFn → Ptr → Nodes → Ptr
first_match cmp d [] = null
first_match cmp d ((x, d') ∷ xs) =
    if d' == null then null else if matches cmp d d' then d' else first_match cmp d xs

-- The iterator on the first of the nodes.
abbrev pub cursor : Nodes → Iter
cursor [] = off
cursor ((x, d) ∷ xs) = on x

pub iter_head-cursor :
    (h : Heap) (l : LinkedList) (xs : Nodes) → IsList h l xs → iter_head l h ≡ ok (cursor xs, h)
unfolding iter_head
iter_head-cursor h l [] i = rw (get_next-ok i.chain, compare_self l.entries) refl
iter_head-cursor h l ((x, d) ∷ xs) i = rw (get_next-ok i.chain.0, ne_sym x l.entries i.apart.1) refl

module _ (h : Heap) (l : LinkedList) (n : Ptr) (next : get_next l.entries h ≡ ok (n, h))
    (ne : (l.entries == n) ≡ false) where
  iter_next-cursor :
      (x d : Ptr) (xs : Nodes)
      → Rest h ((x, d) ∷ xs) l.entries
      → AreOnce ((x, d) ∷ xs) l.entries
      → iter_next (on x) l h ≡ ok (cursor xs, h)
  unfolding iter_next
  iter_next-cursor x d [] r s =
      rw (next, ne, s.0, get_next-live h x l.entries r.0 r.2, compare_self l.entries) refl
  iter_next-cursor x d ((y, d') ∷ xs) r s =
      rw (next, ne, s.0, get_next-live h x y r.0 r.2, s.3.1) refl

  find_loop-first_match :
      (k : ℕ) (d : Ptr) (cmp : CmpFn) (xs : Nodes)
      → Rest h xs l.entries
      → AreOnce xs l.entries
      → length xs < k
      → find_loop k (cursor xs) d l cmp h ≡ ok (some (first_match cmp d xs), h)
  unfolding find_loop first_match iter_info
  find_loop-first_match zero d cmp xs r s lt = elim lt [ ]
  find_loop-first_match (suc k) d cmp [] r s lt = refl
  find_loop-first_match (suc k) d cmp ((x, d') ∷ xs) r s lt =
      rw (s.0, compare_self x, get_item-ok h x d' r.0 r.1)
        (elim (Bool-cases (d' == null)) [
          | inl e ↦ rw e refl
          | inr e ↦ elim (Bool-cases (matches cmp d d')) [
            | inl m ↦ rw (e, m) refl
            | inr m ↦
                rw (e, m, iter_next-cursor x d' xs r s)
                  (find_loop-first_match k d cmp xs r.3 s.3 (ground arith))
          ]
        ])

find_loop-on :
    (k : ℕ) (d : Ptr) (cmp : CmpFn) (h : Heap) (l : LinkedList) (xs : Nodes)
    → IsList h l xs
    → length xs < k
    → find_loop k (cursor xs) d l cmp h ≡ ok (some (first_match cmp d xs), h)
unfolding find_loop first_match
find_loop-on zero d cmp h l xs i lt = elim lt [ ]
find_loop-on (suc k) d cmp h l [] i lt = refl
find_loop-on (suc k) d cmp h l ((x, d') ∷ xs) i lt =
    find_loop-first_match h l x (get_next-ok i.chain.0) (ne_sym x l.entries i.apart.1) (suc k) d cmp
      ((x, d') ∷ xs) (Chain-Rest h l.entries ((x, d') ∷ xs) l.entries i.chain)
      (AreApart-AreOnce l.entries ((x, d') ∷ xs) l.entries i.apart) lt

-- On a list, `mcl_list_find` with more fuel than there are nodes ends without a fault, changes
-- nothing, and returns the first data that matches, a node whose data is NULL ending the search,
-- and NULL if there is none or the data is NULL.
pub find-first_match :
    (fuel : ℕ) (d : Ptr) (cmp : CmpFn) (h : Heap) (l : LinkedList) (xs : Nodes)
    → IsList h l xs
    → length xs < fuel
    → find fuel d l cmp h ≡ ok (some (if d == null then null else first_match cmp d xs), h)
unfolding find
find-first_match fuel d cmp h l xs i lt = elim (Bool-cases (d == null)) [
  | inl e ↦ rw e refl
  | inr e ↦ rw (e, iter_head-cursor h l xs i) (find_loop-on fuel d cmp h l xs i lt)
]
