-- ===== src/LinkedList/Destroy.antt =====
-- `mcl_list_destroy` of util/mcl_list.c.
use mcl.Base.{
  ℕ, zero, suc, ◌<◌, ◌≡◌, refl, true, false, ◌||◌, Option, none, some, List, [], ◌∷◌, ◌++◌, Ptr,
  FreeFn, Call, ◌==◌, length, arith, ok, Returns, Bool-cases, inl, inr,
}
use mathlib.Core.Option
use mcl.Heap.{Heap, update, free}
use mcl.Heap.Chain.{Nodes, has, SameAt, not-has-start}
use mcl.LinkedList.{LinkedList, destroy_loop, destroy}
use mcl.LinkedList.Freeing.{freed_by, free_item-freed_by}
use mcl.LinkedList.Walk.{Rest, Chain-Rest, get_next-live, AreOnce, AreApart-AreOnce}
use mcl.LinkedList.Ring.{ne_sym, compare_self, IsList, first, get_next-ok, get_item-ok}

abbrev freed : Heap → Ptr → Heap
freed h x = record {
  live = update h.live x false;
  next = update h.next x none;
  prev = update h.prev x none;
  item = update h.item x none;
}

free-live : (h : Heap) (x : Ptr) → h.live x ≡ true → free x h ≡ ok (tt, freed h x)
unfolding free
free-live h x l = rw l

Rest-freed :
    (h : Heap) (x : Ptr) (xs : Nodes) (b : Ptr)
    → has x xs ≡ false
    → Rest h xs b
    → Rest (freed h x) xs b
Rest-freed h x [] b o r = tt
Rest-freed h x ((y, d) ∷ xs) b o (l, i, n, r) =
    (ground arith, ground arith, ground arith, Rest-freed h x xs b (ground arith) r)

-- The calls that free the data of all nodes, in order.
unfoldable pub free_items : FreeFn → Nodes → List Call
free_items fn [] = []
free_items fn ((x, d) ∷ xs) = freed_by true fn d ++ free_items fn xs

record Frees (h : Heap) (xs : Nodes) (fn : FreeFn) (o : Option (List Call) × Heap) : Type 0 where
  pub calls : o.0 ≡ some (free_items fn xs)
  pub dead : (p : Ptr) → has p xs ≡ true → o.1.live p ≡ false
  pub same : (p : Ptr) → has p xs ≡ false → SameAt h o.1 p

module _ (b : Ptr) (fn : FreeFn) where
  destroy_loop-Frees :
      (k : ℕ) (h : Heap) (xs : Nodes)
      → Rest h xs b
      → AreOnce xs b
      → length xs < k
      → Returns (destroy_loop k b (first xs b) fn h) (Frees h xs fn)
  unfolding destroy_loop free_items
  destroy_loop-Frees zero h xs r s lt = elim lt [ ]
  destroy_loop-Frees (suc k) h [] r s lt = (
    (some [], h),
    ground arith,
    record {
      calls = refl;
      dead = λ p e. ground arith;
      same = λ p e. record { live = refl; next = refl; prev = refl; item = refl };
    },
  )
  destroy_loop-Frees (suc k) h ((x, d) ∷ xs) (l, i, n, r) s lt =
      let (o, run, g) =
        destroy_loop-Frees k (freed h x) xs (Rest-freed h x xs b s.2 r) s.3 (ground arith) in
      (
        (Option.map (λ cs. freed_by true fn d ++ cs) o.0, o.1),
        rw
            (
              s.1,
              get_item-ok h x d l i,
              free_item-freed_by true fn d,
              get_next-live h x (first xs b) l n,
              free-live h x l,
              run,
            )
            refl,
        record {
          calls = rw g.calls refl;
          dead = λ p e. elim (Bool-cases (has p xs)) [
            | inl m ↦ g.dead p m
            | inr m ↦ ground (arith, (g.same p m).live)
          ];
          same = λ p e. record {
            live = ground (arith, (g.same p (ground arith)).live);
            next = ground (arith, (g.same p (ground arith)).next);
            prev = ground (arith, (g.same p (ground arith)).prev);
            item = ground (arith, (g.same p (ground arith)).item);
          };
        },
      )

-- The heap afterwards: neither a node nor the list itself is allocated, and nothing else changed.
pub record Destroys (h : Heap) (l : LinkedList) (xs : Nodes) (fn : FreeFn)
    (o : Option (List Call) × Heap) : Type 0 where
  pub calls : o.0 ≡ some (free_items fn xs)
  dead : (p : Ptr) → ((p == l.entries) || has p xs) ≡ true → o.1.live p ≡ false
  same : (p : Ptr) → ((p == l.entries) || has p xs) ≡ false → SameAt h o.1 p

-- On a list, `mcl_list_destroy` with more fuel than there are nodes ends without a fault; it frees
-- each node and the list itself, and no more, and has called the free function, unless that is
-- NULL, on the data of each node in order that is not NULL.
pub destroy-Destroys :
    (fn : FreeFn) (fuel : ℕ) (h : Heap) (l : LinkedList) (xs : Nodes)
    → IsList h l xs
    → length xs < fuel
    → Returns (destroy fuel l fn h) (Destroys h l xs fn)
unfolding destroy free_items
destroy-Destroys fn fuel h l [] i lt = (
  (some [], freed h l.entries),
  rw (get_next-ok i.chain, compare_self l.entries, free-live h l.entries i.chain.from) refl,
  record {
    calls = refl;
    dead = λ p e. ground arith;
    same = λ p e. record {
      live = ground arith;
      next = ground arith;
      prev = ground arith;
      item = ground arith;
    };
  },
)
destroy-Destroys fn fuel h l ((x, d) ∷ xs) i lt =
    let ys : Nodes = (x, d) ∷ xs in
    let (o, run, g) =
      destroy_loop-Frees l.entries fn fuel h ys (Chain-Rest h l.entries ys l.entries i.chain)
        (AreApart-AreOnce l.entries ys l.entries i.apart) lt in
    let kept = g.same l.entries (not-has-start l.entries ys l.entries i.apart) in
    (
      (o.0, freed o.1 l.entries),
      rw
          (
            get_next-ok i.chain.0,
            ne_sym x l.entries i.apart.1,
            run,
            free-live o.1 l.entries (ground (arith, kept.live, i.chain.0.from)),
          )
          refl,
      record {
        calls = g.calls;
        dead = λ p e. ground (arith, g.dead p);
        same = λ p e. record {
          live = ground (arith, (g.same p (ground arith)).live);
          next = ground (arith, (g.same p (ground arith)).next);
          prev = ground (arith, (g.same p (ground arith)).prev);
          item = ground (arith, (g.same p (ground arith)).item);
        };
      },
    )
