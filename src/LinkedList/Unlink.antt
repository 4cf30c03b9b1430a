-- ===== src/LinkedList/Unlink.antt =====
-- `HANDLE_ELEM` of util/mcl_list.c takes one node out of the ring and frees it.
use mcl.Base.{◌≡◌, Bool, false, none, some, [], ◌∷◌, Ptr, FreeFn, ◌==◌, arith, ok}
use mcl.Heap.{Heap, update, get_next, get_prev, get_item, set_next, set_prev, free}
use mcl.Heap.Chain.{Nodes, Chain, AreApart, SameBut, Agrees-Chain}
use mcl.LinkedList.{handle_elem}
use mcl.LinkedList.Freeing.{freed_by, free_item-freed_by}
use mcl.LinkedList.Ring.{first, last-Edge, first-Edge, first-ne}

-- The heap without the node `x` between `a` and `y`.
abbrev pub unlinked : Heap → (a x y : Ptr) → Heap
unlinked h a x y = record {
  live = update h.live x false;
  next = update (update h.next a (some y)) x none;
  prev = update (update h.prev y (some a)) x none;
  item = update h.item x none;
}

module _ {h : Heap} (a x d b : Ptr) (xs : Nodes) (c : Chain h a ((x, d) ∷ xs) b)
    (s : AreApart a ((x, d) ∷ xs) b) where
  ne_next : (x == first xs b) ≡ false
  ne_next = first-ne x b xs s.2 s.3

  pub handle_elem-unlinked :
      (flag : Bool) (fn : FreeFn)
      → handle_elem x flag fn h ≡ ok (freed_by flag fn d, unlinked h a x (first xs b))
  unfolding handle_elem get_next get_prev get_item set_next set_prev free
  handle_elem-unlinked flag fn =
      let e = c.0 in
      let f = first-Edge h b x xs c.2 in
      rw⁻¹ (free_item-freed_by flag fn d) (
        ground
          (arith, e.from, e.to, e.next, e.prev, f.from, f.to, f.next, f.prev, ne_next, c.1, s.1))

  pub unlinked-SameBut : SameBut h a ((x, d) ∷ xs) b (unlinked h a x (first xs b))
  unlinked-SameBut = record {
    live = λ p o. ground arith;
    item = λ p o. ground arith;
    next = λ p e o. ground arith;
    prev = λ p e o. ground (arith, first-ne p b xs e);
  }

pub unlinked-Chain :
    {h : Heap} (a x d b : Ptr) (xs : Nodes)
    → Chain h a ((x, d) ∷ xs) b
    → AreApart a ((x, d) ∷ xs) b
    → Chain (unlinked h a x (first xs b)) a xs b
unlinked-Chain a x d b [] (e, i, f) s = ground (arith, e.from, f.to, s)
unlinked-Chain {h} a x d b ((y, d') ∷ xs) (e, i, (f, j, c)) s =
    let end = (last-Edge h b y xs c).to in
    (
      ground (arith, e.from, f.to, s),
      ground (arith, j, s),
      Agrees-Chain y xs
          (record {
            live_ends = ground (arith, s);
            next_end = ground (arith, s);
            prev_end = ground (arith, s);
            live = λ p m. ground (arith, s);
            item = λ p m. ground (arith, s);
            next = λ p m. ground (arith, s);
            prev = λ p m. ground (arith, s);
          })
          c,
    )
