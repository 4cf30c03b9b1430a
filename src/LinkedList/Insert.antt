-- ===== src/LinkedList/Insert.antt =====
-- `mcl_list_insert` and `mcl_list_insert_tail` put a new node at either end of the ring.
use mcl.Base.{
  suc, ◌+◌, ◌<◌, ◌≡◌, refl, Bool, true, false, none, some, [], ◌∷◌, ◌++◌, Ptr, null, ◌==◌,
  length-append, arith, Returns, ok,
}
use mcl.Heap.{Heap, update, get_next, get_prev, set_next, set_prev, set_item, alloc}
use mcl.Heap.Chain.{
  Nodes, has, Chain, AreApart, Agrees-Chain, SameAt, AreApart-from, AreApart-snoc, not-has-start,
}
use mcl.LinkedList.{LinkedList, max_size, insert, insert_tail}
use mcl.LinkedList.Ring.{
  IsList, first, last, first-Edge, last-Edge, last-ne, first-ne, not-has_of_dead,
}

-- The heap with a new node between `p` and `n`.
abbrev linked : Heap → (fresh d p n : Ptr) → Heap
linked h fresh d p n = record {
  live = update h.live fresh true;
  next = update (update (update h.next fresh none) fresh (some n)) p (some fresh);
  prev = update (update (update h.prev fresh none) fresh (some p)) n (some fresh);
  item = update (update h.item fresh none) fresh (some d);
}

module _ (h : Heap) (fresh d b : Ptr) (dead : h.live fresh ≡ false) where
  -- A new node right behind `a`.
  linked_front :
      (a : Ptr) (xs : Nodes)
      → Chain h a xs b
      → AreApart a xs b
      → Chain (linked h fresh d a (first xs b)) a ((fresh, d) ∷ xs) b
  linked_front a [] e s = (ground (arith, e.from, e.to), ground arith, ground (arith, e.from, e.to))
  linked_front a ((x, d') ∷ xs) (e, i, c) s =
      let out = not-has_of_dead h b a ((x, d') ∷ xs) fresh (e, i, c) dead in
      let end = (last-Edge h b x xs c).to in
      (
        ground (arith, e.from, e.to),
        ground arith,
        (
          ground (arith, e.from, e.to),
          ground (arith, out, i),
          Agrees-Chain x xs
              (record {
                live_ends = ground (arith, e.to, end);
                next_end = ground (arith, e.to, s);
                prev_end = ground (arith, s, end);
                live = λ p m. ground (arith, out);
                item = λ p m. ground (arith, out);
                next = λ p m. ground (arith, out, s);
                prev = λ p m. ground (arith, out, s);
              })
              c,
        ),
      )

  -- A new node right before `b`.
  linked_back :
      (a : Ptr) (xs : Nodes)
      → Chain h a xs b
      → AreApart a xs b
      → Chain (linked h fresh d (last a xs) b) a (xs ++ ((fresh, d) ∷ [])) b
  linked_back a [] e s = linked_front a [] e s
  linked_back a ((x, d') ∷ xs) (e, i, c) s =
      let apart = last-ne a x xs (ground (arith, s)) (ground (arith, s)) in
      (
        ground (arith, apart, s, e.from, e.to, e.next, e.prev),
        ground (arith, e.to, i),
        linked_back x xs c s.5,
      )

-- What an insertion returns: 1, the list with one node more, and a heap that stands for `ys` and
-- differs from `h` only at the new node and in the ring.
pub record Inserts (h : Heap) (l : LinkedList) (xs : Nodes) (fresh : Ptr) (ys : Nodes)
    (r : (Bool × LinkedList) × Heap) : Type 0 where
  pub done : r.0.0 ≡ true
  pub ring : IsList r.1 r.0.1 ys
  pub same_entries : r.0.1.entries ≡ l.entries
  pub same_erase_fn : r.0.1.erase_fn ≡ l.erase_fn
  pub outside :
      (p : Ptr)
      → (p == fresh) ≡ false
      → (p == l.entries) ≡ false
      → has p xs ≡ false
      → SameAt h r.1 p

-- `mcl_list_insert` and `mcl_list_insert_tail` refuse a list that has the largest size.
pub insert_full :
    (fresh d : Ptr) (h : Heap) (l : LinkedList)
    → max_size < suc l.list_sz
    → (insert fresh d l h ≡ ok ((false, l), h)) × (insert_tail fresh d l h ≡ ok ((false, l), h))
unfolding insert insert_tail
insert_full fresh d h l big = (ground arith, ground arith)

module _ {h : Heap} {l : LinkedList} {xs : Nodes} (is : IsList h l xs) (fresh d : Ptr)
    (ne_null : (fresh == null) ≡ false) (dead : h.live fresh ≡ false)
    (small : l.list_sz < max_size) where
  ne_entries : (fresh == l.entries) ≡ false
  ne_entries = ground (arith, (first-Edge h l.entries l.entries xs is.chain).from)

  out : has fresh xs ≡ false
  out = not-has_of_dead h l.entries l.entries xs fresh is.chain dead

  insert-linked :
      insert fresh d l h
      ≡ ok (
        (true, record l { list_sz = l.list_sz + 1 }),
        linked h fresh d l.entries (first xs l.entries),
      )
  unfolding insert alloc set_item get_next set_prev set_next
  insert-linked =
      let e = first-Edge h l.entries l.entries xs is.chain in ground (arith, e.from, e.to, e.next)

  insert_tail-linked :
      insert_tail fresh d l h
      ≡ ok (
        (true, record l { list_sz = l.list_sz + 1 }),
        linked h fresh d (last l.entries xs) l.entries,
      )
  unfolding insert_tail alloc set_item get_prev set_prev set_next
  insert_tail-linked =
      let e = last-Edge h l.entries l.entries xs is.chain in ground (arith, e.from, e.to, e.prev)

  -- On a list below the largest size, `mcl_list_insert` with an address that is not NULL and not
  -- in use puts the data in front of all nodes, leaves a well-formed ring with the right size, and
  -- changes nothing outside of it.
  pub insert-Inserts : Returns (insert fresh d l h) (Inserts h l xs fresh ((fresh, d) ∷ xs))
  insert-Inserts = (
    ((true, record l { list_sz = l.list_sz + 1 }), linked h fresh d l.entries (first xs l.entries)),
    insert-linked,
    record {
      done = refl;
      ring = record {
        chain = linked_front h fresh d l.entries dead l.entries xs is.chain is.apart;
        apart = (
          ne_null,
          ne_entries,
          ne_entries,
          out,
          not-has-start l.entries xs l.entries is.apart,
          AreApart-from l.entries fresh xs l.entries is.apart out,
        );
        size = omega (arith, is.size);
      };
      same_entries = refl;
      same_erase_fn = refl;
      outside = λ p e f g. ground (arith, first-ne p l.entries xs f g);
    },
  )

  -- On a list below the largest size, `mcl_list_insert_tail` with an address that is not NULL and
  -- not in use puts the data behind all nodes, leaves a well-formed ring with the right size, and
  -- changes nothing outside of it.
  pub insert_tail-Inserts :
      Returns (insert_tail fresh d l h) (Inserts h l xs fresh (xs ++ ((fresh, d) ∷ [])))
  insert_tail-Inserts = (
    ((true, record l { list_sz = l.list_sz + 1 }), linked h fresh d (last l.entries xs) l.entries),
    insert_tail-linked,
    record {
      done = refl;
      ring = record {
        chain = linked_back h fresh d l.entries dead l.entries xs is.chain is.apart;
        apart =
            AreApart-snoc l.entries xs fresh d l.entries is.apart ne_null ne_entries ne_entries out;
        size = omega (arith, is.size, length-append xs ((fresh, d) ∷ []));
      };
      same_entries = refl;
      same_erase_fn = refl;
      outside = λ p e f g. ground (arith, last-ne p l.entries xs f g);
    },
  )
