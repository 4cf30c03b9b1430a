-- ===== src/LinkedList/Delete.antt =====
-- `list_del` of util/mcl_list.c, behind `mcl_list_delete` and `mcl_list_del_cmp`, deletes the first
-- node that matches.
use mcl.Base.{
  ℕ, zero, suc, ◌+◌, ◌-◌, ◌<◌, ◌≡◌, refl, Bool, true, false, Option, some, [], ◌∷◌, Ptr, FreeFn,
  ◌==◌, length, arith, Returns, if◌then◌else◌, Bool-cases, inl, inr,
}
use mcl.Heap.{Heap}
use mcl.Heap.Chain.{Nodes, has, Edge, Chain, AreApart, SameBut, SameAt, AreApart-from}
use mcl.LinkedList.Freeing.{freed_by, wants, compares-wants}
use mcl.LinkedList.{LinkedList, CmpFn, Deleted, counted, del_loop, list_del}
use mcl.LinkedList.Ring.{ne_sym, compare_self, IsList, first, first-Edge, get_next-ok, get_item-ok}
use mcl.LinkedList.Unlink.{unlinked, handle_elem-unlinked, unlinked-SameBut, unlinked-Chain}

module _ (want : Ptr → Bool) where
  unfoldable pub erase_first : Nodes → Nodes
  erase_first [] = []
  erase_first ((x, d) ∷ xs) = if want d then xs else (x, d) ∷ erase_first xs

  -- Whether a node is wanted, and the calls that free its data.
  unfoldable pub deletion : Bool → FreeFn → Nodes → Deleted
  deletion flag fn [] = (false, [])
  deletion flag fn ((x, d) ∷ xs) =
      if want d then (true, freed_by flag fn d) else deletion flag fn xs

  not-has-erase_first : (p : Ptr) (xs : Nodes) → has p xs ≡ false → has p (erase_first xs) ≡ false
  unfolding erase_first
  not-has-erase_first p [] o = refl
  not-has-erase_first p ((x, d) ∷ xs) o = ground (arith, not-has-erase_first p xs)

  AreApart-erase_first :
      (a : Ptr) (xs : Nodes) (b : Ptr) → AreApart a xs b → AreApart a (erase_first xs) b
  unfolding erase_first
  AreApart-erase_first a [] b s = tt
  AreApart-erase_first a ((x, d) ∷ xs) b s = elim (Bool-cases (want d)) [
    | inl e ↦ rw e (AreApart-from x a xs b s.5 s.4)
    | inr e ↦ rw e (
      s.0,
      s.1,
      s.2,
      not-has-erase_first x xs s.3,
      not-has-erase_first a xs s.4,
      AreApart-erase_first x xs b s.5,
    )
  ]

  length-erase_first :
      (flag : Bool) (fn : FreeFn) (xs : Nodes)
      → length xs ≡ length (erase_first xs) + (if (deletion flag fn xs).0 then 1 else 0)
  unfolding erase_first deletion
  length-erase_first flag fn [] = omega arith
  length-erase_first flag fn ((x, d) ∷ xs) = ground (arith, length-erase_first flag fn xs)

-- What the loop leaves between `a` and `b`.
record Deletes (h : Heap) (a : Ptr) (xs : Nodes) (b : Ptr) (ys : Nodes) (r : Deleted)
    (o : Option Deleted × Heap) : Type 0 where
  result : o.0 ≡ some r
  chain : Chain o.1 a ys b
  same : SameBut h a xs b o.1

module _ (d : Ptr) (flag : Bool) (cmp : CmpFn) (fn : FreeFn) (b : Ptr) where
  -- A change behind `x` leaves the edge from `a` to `x`.
  Edge-kept :
      (h : Heap) (a x d' : Ptr) (xs : Nodes) (h' : Heap)
      → Edge h a x
      → AreApart a ((x, d') ∷ xs) b
      → SameBut h x xs b h'
      → Edge h' a x
  Edge-kept h a x d' xs h' e s g = record {
    from = ground (arith, g.live a, e.from, s);
    to = ground (arith, g.live x, e.to, s);
    next = ground (arith, g.next a, e.next, s);
    prev = ground (arith, g.prev x, e.prev, s);
  }

  SameBut-cons :
      (h : Heap) (a x d' : Ptr) (xs : Nodes) (h' : Heap)
      → AreApart a ((x, d') ∷ xs) b
      → SameBut h x xs b h'
      → SameBut h a ((x, d') ∷ xs) b h'
  SameBut-cons h a x d' xs h' s g = record {
    live = λ p o. ground (arith, g.live p);
    item = λ p o. ground (arith, g.item p);
    next = λ p e o. ground (arith, g.next p);
    prev = λ p e o. ground (arith, g.prev p);
  }

  del_loop-Deletes :
      (k : ℕ) (h : Heap) (a : Ptr) (xs : Nodes)
      → Chain h a xs b
      → AreApart a xs b
      → length xs < k
      → Returns
          (del_loop k d b (first xs b) flag cmp fn h)
          (Deletes h a xs b (erase_first (wants cmp d) xs) (deletion (wants cmp d) flag fn xs))
  unfolding del_loop erase_first deletion
  del_loop-Deletes zero h a xs c s fuel = elim fuel [ ]
  del_loop-Deletes (suc k) h a [] c s fuel = (
    (some (false, []), h),
    ground arith,
    record {
      result = refl;
      chain = c;
      same = record {
        live = λ p o. refl;
        item = λ p o. refl;
        next = λ p e o. refl;
        prev = λ p e o. refl;
      };
    },
  )
  del_loop-Deletes (suc k) h a ((x, d') ∷ xs) c s fuel = elim (Bool-cases (wants cmp d d')) [
    | inl e ↦ (
      (some (true, freed_by flag fn d'), unlinked h a x (first xs b)),
      rw
          (
            s.2,
            get_item-ok h x d' c.0.to c.1,
            compares-wants cmp d d',
            e,
            handle_elem-unlinked a x d' b xs c s flag fn,
          )
          refl,
      rw e (record {
        result = refl;
        chain = unlinked-Chain a x d' b xs c s;
        same = unlinked-SameBut a x d' b xs c s;
      }),
    )
    | inr e ↦
        let (o, r, g) = del_loop-Deletes k h x xs c.2 s.5 (ground arith) in
        (
          o,
          rw
              (
                s.2,
                get_item-ok h x d' c.0.to c.1,
                compares-wants cmp d d',
                e,
                get_next-ok (first-Edge h b x xs c.2),
              )
              r,
          rw e (record {
            result = g.result;
            chain = (
              Edge-kept h a x d' xs o.1 c.0 s g.same,
              (ground (arith, g.same.item x, c.1, s)),
              g.chain,
            );
            same = SameBut-cons h a x d' xs o.1 s g.same;
          }),
        )
  ]

abbrev shrunk : LinkedList → Bool → LinkedList
shrunk l b = record l { list_sz = if b then l.list_sz - 1 else l.list_sz }

counted-some : (l : LinkedList) (r : Deleted) → counted l (some r) ≡ some (shrunk l r.0, r)
counted-some l (true, calls) = refl
counted-some l (false, calls) = refl

-- The list afterwards: the first wanted node is gone, the size says so, and the heap outside of the
-- ring is as before.
pub record Removes (h : Heap) (l : LinkedList) (xs : Nodes) (want : Ptr → Bool) (flag : Bool)
    (fn : FreeFn) (o : Option (LinkedList × Deleted) × Heap) : Type 0 where
  pub after : LinkedList
  pub result : o.0 ≡ some (after, deletion want flag fn xs)
  pub list : IsList o.1 after (erase_first want xs)
  pub entries : after.entries ≡ l.entries
  pub erase_fn : after.erase_fn ≡ l.erase_fn
  pub same : (p : Ptr) → (p == l.entries) ≡ false → has p xs ≡ false → SameAt h o.1 p

module _ (d : Ptr) (flag : Bool) (cmp : CmpFn) (fn : FreeFn) (fuel : ℕ) (h : Heap)
    (l : LinkedList) where
  Removes-counted :
      (xs : Nodes)
      → IsList h l xs
      → (o : Option Deleted × Heap)
      → Deletes h l.entries xs l.entries
          (erase_first (wants cmp d) xs)
          (deletion (wants cmp d) flag fn xs)
          o
      → Removes h l xs (wants cmp d) flag fn (counted l o.0, o.1)
  Removes-counted xs i o g = record {
    after = shrunk l (deletion (wants cmp d) flag fn xs).0;
    result = rw g.result (counted-some l (deletion (wants cmp d) flag fn xs));
    list = record {
      chain = g.chain;
      apart = AreApart-erase_first (wants cmp d) l.entries xs l.entries i.apart;
      size = ground (arith, i.size, length-erase_first (wants cmp d) flag fn xs);
    };
    entries = refl;
    erase_fn = refl;
    same = λ p e f. record {
      live = g.same.live p f;
      next = g.same.next p e f;
      prev = g.same.prev p e f;
      item = g.same.item p f;
    };
  }

  -- On a list, `list_del` with more fuel than there are nodes ends without a fault, removes the
  -- first node whose data is the pointer or compares equal to it, reports whether there is one,
  -- calls the free function on its data when asked to and neither is NULL, keeps the size equal to
  -- the number of nodes, and changes nothing outside of the ring.
  pub list_del-Removes :
      (xs : Nodes)
      → IsList h l xs
      → length xs < fuel
      → Returns (list_del fuel d l flag cmp fn h) (Removes h l xs (wants cmp d) flag fn)
  unfolding list_del deletion erase_first
  list_del-Removes [] i lt = (
    (some (l, (false, [])), h),
    rw (get_next-ok i.chain, compare_self l.entries) refl,
    record {
      after = l;
      result = refl;
      list = i;
      entries = refl;
      erase_fn = refl;
      same = λ p e o. record { live = refl; next = refl; prev = refl; item = refl };
    },
  )
  list_del-Removes ((x, d') ∷ xs) i lt =
      let (o, r, g) =
        del_loop-Deletes d flag cmp fn l.entries fuel h l.entries ((x, d') ∷ xs) i.chain i.apart
          lt in
      (
        (counted l o.0, o.1),
        rw (get_next-ok i.chain.0, ne_sym x l.entries i.apart.1, r) refl,
        Removes-counted ((x, d') ∷ xs) i o g,
      )
