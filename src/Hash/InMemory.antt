-- ===== src/Hash/InMemory.antt =====
-- The buckets of util/mcl_hash.c as lists of util/mcl_list.c on the heap: what the table does to the
-- sequence of pairs is what the list operations do to the ring.
use mcl.Base.{
  ℕ, suc, ◌<◌, ◌≡◌, refl, sym, ap, ◌∙◌, true, false, Option, none, some, [], ◌∷◌, Ptr, null, length,
  Returns, ok, ◌==◌, arith, Bool-cases, inl, inr,
}
use mcl.Heap.{Heap}
use mcl.Heap.Chain.{Nodes}
use mcl.LinkedList
use mcl.LinkedList.{LinkedList, CmpFn, Deleted, max_size}
use mcl.LinkedList.Iter
use mcl.LinkedList.Iter.{matches}
use mcl.LinkedList.Ring.{IsList}
use mcl.LinkedList.Insert.{insert-Inserts}
use mcl.LinkedList.Freeing.{wants}
use mcl.LinkedList.Delete.{erase_first, list_del-Removes}
use mcl.LinkedList.Find.{first_match, find-first_match}
use mcl.Hash.{Pair, Bucket, find_pair, delete_pair}
use mcl.Keys.{Key, key_cmp}

-- The nodes point to the pairs, in order, where `key_at` reads a pair's key; no pair is NULL.
module _ (key_at : Ptr → Key) where
  abbrev pub Holds : Nodes → Bucket → Type 0
  Holds [] [] = Unit
  Holds [] (p ∷ ps) = ⊥
  Holds (x ∷ xs) [] = ⊥
  Holds ((x, d) ∷ xs) (p ∷ ps) =
      (d ≡ p.addr) × (key_at d ≡ p.key) × ((d == null) ≡ false) × Holds xs ps

  -- `pair_pair_cmp` and `key_pair_cmp`, with the key sought.
  abbrev pub cmp_key : Key → CmpFn
  cmp_key k = some (λ a c. key_cmp k (key_at c))

  -- The pairs of the bucket hang on the list's ring.
  abbrev pub InMemory : Heap → LinkedList → Bucket → Type 0
  InMemory h l b = (xs : Nodes) × IsList h l xs × Holds xs b

  abbrev pub addr_or_null : Option Pair → Ptr
  addr_or_null none = null
  addr_or_null (some p) = p.addr

  length-Holds : (xs : Nodes) (b : Bucket) → Holds xs b → length xs ≡ length b
  length-Holds [] [] h = refl
  length-Holds [] (p ∷ ps) h = elim h [ ]
  length-Holds (x ∷ xs) [] h = elim h [ ]
  length-Holds (x ∷ xs) (p ∷ ps) h = ap suc (length-Holds xs ps h.3)

  first_match-find_pair :
      (k : Key) (d : Ptr) (xs : Nodes) (b : Bucket)
      → Holds xs b
      → first_match (cmp_key k) d xs ≡ addr_or_null (find_pair k b)
  unfolding first_match find_pair matches
  first_match-find_pair k d [] [] h = refl
  first_match-find_pair k d [] (p ∷ ps) h = elim h [ ]
  first_match-find_pair k d (x ∷ xs) [] h = elim h [ ]
  first_match-find_pair k d ((x, e) ∷ xs) (p ∷ ps) (same, key, nz, h) =
      elim (Bool-cases (key_cmp k p.key)) [
        | inl t ↦ rw (nz, key, t) same
        | inr f ↦ rw (nz, key, f) (first_match-find_pair k d xs ps h)
      ]

  Holds-delete_pair :
      (a : Ptr) (xs : Nodes) (b : Bucket)
      → Holds xs b
      → Holds (erase_first (wants none a) xs) (delete_pair a b)
  unfolding erase_first delete_pair
  Holds-delete_pair a [] [] h = tt
  Holds-delete_pair a [] (p ∷ ps) h = elim h [ ]
  Holds-delete_pair a (x ∷ xs) [] h = elim h [ ]
  Holds-delete_pair a ((x, d) ∷ xs) (p ∷ ps) (same, key, nz, h) = elim (Bool-cases (p.addr == a)) [
    | inl t ↦ rw (same, t) h
    | inr f ↦
        rw (same, f)
          (
            refl,
            ap key_at (sym same) ∙ key,
            ap (λ x. x == null) (sym same) ∙ nz,
            Holds-delete_pair a xs ps h,
          )
  ]

  -- When a bucket of the table hangs on a list's ring in memory, `mcl_list_find` by the table's
  -- comparison, for a pointer that is not NULL and with enough fuel, ends without a fault and
  -- returns the address of the pair that the table finds, NULL if there is none, and changes
  -- nothing.
  pub find-find_pair :
      (fuel : ℕ) (k : Key) (d : Ptr) (h : Heap) (l : LinkedList) (b : Bucket)
      → (d == null) ≡ false
      → InMemory h l b
      → length b < fuel
      → Iter.find fuel d l (cmp_key k) h ≡ ok (some (addr_or_null (find_pair k b)), h)
  find-find_pair fuel k d h l b nz (xs, i, m) lt =
      find-first_match fuel d (cmp_key k) h l xs i (omega (arith, length-Holds xs b m))
      ∙ rw (nz, first_match-find_pair k d xs b m) refl

  -- When a bucket of the table hangs on a list's ring in memory, `mcl_list_delete` of an address
  -- with enough fuel ends without a fault and leaves in memory the bucket that the table has after
  -- deleting that pair.
  pub delete-delete_pair :
      (fuel : ℕ) (a : Ptr) (h : Heap) (l : LinkedList) (b : Bucket)
      → InMemory h l b
      → length b < fuel
      → Returns (LinkedList.delete fuel a l null h) λ o.
        (l' : LinkedList) × (r : Deleted) × (o.0 ≡ some (l', r)) × InMemory o.1 l' (delete_pair a b)
  unfolding LinkedList.delete
  delete-delete_pair fuel a h l b (xs, i, m) lt =
      let (o, run, g) =
        list_del-Removes a true none null fuel h l xs i (omega (arith, length-Holds xs b m)) in
      (
        o,
        run,
        (g.after, _, g.result, (erase_first (wants none a) xs, g.list, Holds-delete_pair a xs b m)),
      )

  -- When a bucket of the table below the largest size hangs on a list's ring in memory,
  -- `mcl_list_insert` of a pair that is not NULL, with an address for the node that is not NULL
  -- and not in use, ends without a fault and leaves in memory the bucket with the pair in front.
  pub insert-front :
      (fresh : Ptr) (p : Pair) (h : Heap) (l : LinkedList) (b : Bucket)
      → InMemory h l b
      → (fresh == null) ≡ false
      → h.live fresh ≡ false
      → length b < max_size
      → key_at p.addr ≡ p.key
      → (p.addr == null) ≡ false
      → Returns (LinkedList.insert fresh p.addr l h) λ o. InMemory o.1 o.0.1 (p ∷ b)
  insert-front fresh p h l b (xs, i, m) nz dead room key filled =
      let (o, run, g) =
        insert-Inserts i fresh p.addr nz dead (omega (arith, i.size, length-Holds xs b m)) in
      (o, run, ((fresh, p.addr) ∷ xs, g.ring, (refl, key, filled, m)))
