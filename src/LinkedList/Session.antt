-- ===== src/LinkedList/Session.antt =====
-- A client of the list of util/mcl_list.c: a sequence of calls, up to the list's destruction.
use mathlib.Core.List.{map-append}
use mcl.Base.{
  ℕ, suc, ◌+◌, ◌≤◌, ◌<◌, ◌≡◌, refl, sym, ap, ◌∙◌, Bool, true, Option, none, some, Run, ok, Returns,
  List, [], ◌∷◌, ◌++◌, map, Ptr, FreeFn, length, length-map, length-append, leb, arith, Bool-cases,
  inl, inr,
}
use mcl.Heap.{Heap}
use mcl.Heap.Chain.{Nodes}
use mcl.LinkedList.Freeing.{freed_by, wants}
use mcl.LinkedList.{LinkedList, max_size, CmpFn, free_item, list_del}
use mcl.LinkedList
use mcl.LinkedList.Ring.{IsList}
use mcl.LinkedList.Insert.{insert_full, insert-Inserts, insert_tail-Inserts}
use mcl.LinkedList.Delete.{erase_first, deletion, list_del-Removes}
use mcl.LinkedList.Destroy.{free_items, destroy-Destroys}
use mcl.LinkedList.Calls.{
  ListCall, insert, insert_tail, delete, del_cmp, size, Seen, seen, deleted, call, remove_first,
  removal, spec, IsNew, IsAllowed, session, free_all, spec_session, AreAllowed,
}

abbrev pub data_of : Nodes → List Ptr
data_of xs = map (λ x. x.1) xs

data_of-length : (xs : Nodes) → length (data_of xs) ≡ length xs
data_of-length xs = length-map (λ x. x.1) xs

data_of-erase_first :
    (want : Ptr → Bool) (xs : Nodes)
    → data_of (erase_first want xs) ≡ remove_first want (data_of xs)
unfolding erase_first remove_first
data_of-erase_first want [] = refl
data_of-erase_first want ((x, d) ∷ xs) = elim (Bool-cases (want d)) [
  | inl e ↦ rw e refl
  | inr e ↦ rw e (ap (λ r. d ∷ r) (data_of-erase_first want xs))
]

deletion-removal :
    (want : Ptr → Bool) (fn : FreeFn) (l : LinkedList) (xs : Nodes)
    → deleted (l, deletion want true fn xs) ≡ (l, removal want fn (data_of xs))
unfolding deletion removal
deletion-removal want fn l [] = refl
deletion-removal want fn l ((x, d) ∷ xs) = elim (Bool-cases (want d)) [
  | inl e ↦ rw e refl
  | inr e ↦ rw e (deletion-removal want fn l xs)
]

free_items-free_all : (fn : FreeFn) (xs : Nodes) → free_items fn xs ≡ free_all fn (data_of xs)
unfolding free_items free_all
free_items-free_all fn [] = refl
free_items-free_all fn ((x, d) ∷ xs) = ap (λ r. freed_by true fn d ++ r) (free_items-free_all fn xs)

-- A call ends without a fault; the list stands for the specification's data, and so does what is
-- seen.
record Refines (s : List Ptr × Seen) (o : Run (Option (LinkedList × Seen) × Heap)) : Type 0 where
  after : LinkedList
  heap : Heap
  nodes : Nodes
  run : o ≡ ok (some (after, s.1), heap)
  list : IsList heap after nodes
  same : data_of nodes ≡ s.0

module _ (fuel : ℕ) (h : Heap) (l : LinkedList) (xs : Nodes) (i : IsList h l xs) where
  sizes : l.list_sz ≡ length (data_of xs)
  sizes = i.size ∙ sym (data_of-length xs)

  insert-Refines :
      (fresh d : Ptr)
      → IsNew fresh h
      → Refines (spec (insert fresh d) (data_of xs)) (call fuel (insert fresh d) l h)
  unfolding call spec
  insert-Refines fresh d (nz, dead) = elim (Bool-cases (leb max_size (length (data_of xs)))) [
    | inl full ↦
        let same_size = sizes in
        let run = (insert_full fresh d h l (ground arith)).0 in
        rw (full, run)
          (record { after = l; heap = h; nodes = xs; run = refl; list = i; same = refl })
    | inr room ↦
        let same_size = sizes in
        let (r, run, g) = insert-Inserts i fresh d nz dead (ground arith) in
        rw (room, run)
          (record {
            after = r.0.1;
            heap = r.1;
            nodes = (fresh, d) ∷ xs;
            run = rw g.done refl;
            list = g.ring;
            same = refl;
          })
  ]

  insert_tail-Refines :
      (fresh d : Ptr)
      → IsNew fresh h
      → Refines (spec (insert_tail fresh d) (data_of xs)) (call fuel (insert_tail fresh d) l h)
  unfolding call spec
  insert_tail-Refines fresh d (nz, dead) = elim (Bool-cases (leb max_size (length (data_of xs)))) [
    | inl full ↦
        let same_size = sizes in
        let run = (insert_full fresh d h l (ground arith)).1 in
        rw (full, run)
          (record { after = l; heap = h; nodes = xs; run = refl; list = i; same = refl })
    | inr room ↦
        let same_size = sizes in
        let (r, run, g) = insert_tail-Inserts i fresh d nz dead (ground arith) in
        rw (room, run)
          (record {
            after = r.0.1;
            heap = r.1;
            nodes = xs ++ ((fresh, d) ∷ []);
            run = rw g.done refl;
            list = g.ring;
            same = map-append (λ x. x.1) xs ((fresh, d) ∷ []);
          })
  ]

  delete-Refines :
      (d : Ptr) (cmp : CmpFn) (fn : FreeFn)
      → length xs < fuel
      → Refines (spec (del_cmp d cmp fn) (data_of xs)) (call fuel (del_cmp d cmp fn) l h)
  unfolding call spec LinkedList.del_cmp
  delete-Refines d cmp fn lt =
      let (r, run, g) = list_del-Removes d true cmp fn fuel h l xs i lt in
      let want = wants cmp d in
      record {
        after = g.after;
        heap = r.1;
        nodes = erase_first want xs;
        run = rw (run, g.result, deletion-removal want fn g.after xs) refl;
        list = g.list;
        same = data_of-erase_first want xs;
      }

  call-Refines :
      (c : ListCall)
      → IsAllowed c h
      → length xs < fuel
      → Refines (spec c (data_of xs)) (call fuel c l h)
  unfolding call spec LinkedList.delete LinkedList.del_cmp LinkedList.size
  call-Refines (insert fresh d) new lt = insert-Refines fresh d new
  call-Refines (insert_tail fresh d) new lt = insert_tail-Refines fresh d new
  call-Refines (delete d fn) new lt = delete-Refines d none fn lt
  call-Refines (del_cmp d cmp fn) new lt = delete-Refines d cmp fn lt
  call-Refines size new lt = record {
    after = l;
    heap = h;
    nodes = xs;
    run = ap (λ n. ok (some (l, seen [] n), h)) sizes;
    list = i;
    same = refl;
  }

-- No call adds more than one node.
remove_first-length :
    (want : Ptr → Bool) (ds : List Ptr) → length (remove_first want ds) ≤ length ds
unfolding remove_first
remove_first-length want [] = omega arith
remove_first-length want (d ∷ ds) =
    let later = remove_first-length want ds in
    elim (Bool-cases (want d)) [ inl e ↦ rw e (omega arith) | inr e ↦ rw e (omega arith) ]

spec-length : (c : ListCall) (ds : List Ptr) → length (spec c ds).0 ≤ suc (length ds)
unfolding spec
spec-length (insert fresh d) ds = elim (Bool-cases (leb max_size (length ds))) [
  | inl e ↦ rw e (omega arith)
  | inr e ↦ rw e (omega arith)
]
spec-length (insert_tail fresh d) ds =
    let new = length-append ds (d ∷ []) in
    elim (Bool-cases (leb max_size (length ds))) [
      | inl e ↦ rw e (omega arith)
      | inr e ↦ rw e (omega arith)
    ]
spec-length (delete d fn) ds = let less = remove_first-length (wants none d) ds in omega arith
spec-length (del_cmp d cmp fn) ds = let less = remove_first-length (wants cmp d) ds in omega arith
spec-length size ds = omega arith

-- A client's sequence of insertions at either end, deletions by address or by comparison, and
-- questions for the size, on a well-formed list, with the destruction of the list at its end,
-- where `malloc` gives each node an address that is not NULL and not in use, with more fuel than
-- there are nodes and calls, ends without a fault; its results and its calls of free functions are
-- those of the specification over the plain sequence of the data, in which an insertion at the
-- largest size is refused and a deletion takes the first that matches.
pub list_session-spec_session :
    (fuel : ℕ) (fn : FreeFn) (cs : List ListCall) (h : Heap) (l : LinkedList) (xs : Nodes)
    → IsList h l xs
    → length xs + length cs < fuel
    → AreAllowed fuel cs l h
    → Returns (session fuel fn cs l h) (λ o. o.0 ≡ some (spec_session fn cs (data_of xs)))
unfolding session spec_session
list_session-spec_session fuel fn [] h l xs i lt a =
    let g = destroy-Destroys fn fuel h l xs i (omega arith) in
    (
      (some (seen (free_all fn (data_of xs)) 0 ∷ []), g.0.1),
      rw (g.1, g.2.calls, free_items-free_all fn xs) refl,
      refl,
    )
list_session-spec_session fuel fn (c ∷ cs) h l xs i lt (now, later) =
    let r = call-Refines fuel h l xs i c now (omega arith) in
    let few = spec-length c (data_of xs) in
    let old = data_of-length xs in
    let new : length r.nodes ≡ length (spec c (data_of xs)).0 =
      sym (data_of-length r.nodes) ∙ ap length r.same in
    let (o, run, shown) =
      list_session-spec_session fuel fn cs r.heap r.after r.nodes r.list (omega arith)
        (rw r.run at later) in
    (
      (some ((spec c (data_of xs)).1 ∷ spec_session fn cs (spec c (data_of xs)).0), o.1),
      rw (r.run, run, shown, r.same) refl,
      refl,
    )
