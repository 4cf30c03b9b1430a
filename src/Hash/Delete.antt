-- ===== src/Hash/Delete.antt =====
-- Deletion from the table of util/mcl_hash.c.
use mcl.Base.{
  ℕ, ◌≡◌, refl, ap, ◌∙◌, true, false, none, some, [], ◌∷◌, pos, null, FreeFn, ◌==◌, arith,
  Option-cases, inl, inr,
}
use mcl.LinkedList.{free_item}
use mcl.Hash.{
  Pair, Hash, Change, change, find_pair, delete_pair, store, value, hash_delete, delete_key, delete,
  find_key,
}
use mcl.Keys.{Key, int, key_cmp}
use mcl.Hash.Buckets.{find_pair-delete_pair, find_pair-delete_pair_other, delete_pair-IsBucket}
use mcl.Hash.Map.{
  index, index-Hashes, IsHash, Hashes, Hashes-available, find_key-value_in, find_key-store,
  store-IsHash, at_index,
}
use mcl.Hash.Insert.{addrs, absent_of_find}

-- A deletion that finds the key.
pub record Removes (t : Hash) (k : Key) (i : ℕ) (fn : FreeFn) (r : Change) : Type 0 where
  pub ret : r.ret ≡ 1
  pub gone : find_key k r.table ≡ null
  pub others : (j : Key) → key_cmp j k ≡ false → find_key j r.table ≡ find_key j t
  pub calls : r.calls ≡ free_item true fn (find_key k t)
  pub freed : r.freed ≡ addrs (find_pair k (at_index t i))
  pub table : IsHash r.table

module _ (k : Key) (i : ℕ) (fn : FreeFn) (t : Hash) (h : Hashes k i) (w : IsHash t) where
  -- A deletion of the pair that a lookup finds stores the rest of its bucket.
  pub delete_key-found :
      (q : Pair)
      → find_pair k (at_index t i) ≡ some q
      → delete_key k fn t
        ≡ change
            (store i (some (delete_pair q.addr (at_index t i))) t)
            (free_item true fn q.val)
            (q.addr ∷ [])
            1
  unfolding delete_key hash_delete find_pair
  delete_key-found q f = ap (λ x. hash_delete x k fn t) h.hash ∙ elim (Option-cases (t.tables i)) [
    | inl e ↦ let no_pair : none ≡ some q = rw e at f in ground arith
    | inr (b, e) ↦
        let f' : find_pair k b ≡ some q = rw e at f in rw (Hashes-available k i h, e, f') refl
  ]

  -- `mcl_int_hash_delete` and `mcl_str_hash_delete` on a well-formed table, of a key whose hash is
  -- an index of the table and that has a value, return 1; the key then has no value, all other
  -- keys have theirs, the table is well-formed, and just its pair is freed, with its value unless
  -- the free function is NULL.
  pub delete-Removes : (find_key k t == null) ≡ false → Removes t k i fn (delete_key k fn t)
  unfolding value addrs
  delete-Removes u = elim (Option-cases (find_pair k (at_index t i))) [
    | inl f ↦ let a : find_key k t ≡ null = find_key-value_in k i t h ∙ ap value f in ground arith
    | inr (q, f) ↦
        let b = at_index t i in
        let bs = delete_pair q.addr b in
        let old : find_key k t ≡ q.val = find_key-value_in k i t h ∙ ap value f in
        let self : (i == i) ≡ true = ground arith in
        rw (delete_key-found q f) (record {
          ret = refl;
          gone =
              find_key-value_in k i (store i (some bs) t) h
              ∙ rw (self, find_pair-delete_pair i k b (w i) f) refl;
          others = λ j ne. find_key-store j i bs t (find_pair-delete_pair_other i k j ne b (w i) f);
          calls = rw old refl;
          freed = rw f refl;
          table = store-IsHash i bs t w (delete_pair-IsBucket q.addr i b (w i));
        })
  ]

  -- `mcl_int_hash_delete` or `mcl_str_hash_delete` on a well-formed table, of a key that has an index
  -- and no value, returns 0 and leaves the table.
  pub delete_absent : find_key k t ≡ null → delete_key k fn t ≡ change t [] [] 0
  unfolding delete_key hash_delete
  delete_absent u = ap (λ x. hash_delete x k fn t) h.hash ∙ elim (Option-cases (t.tables i)) [
    | inl e ↦ rw (Hashes-available k i h, e) refl
    | inr (b, e) ↦
        let f : find_pair k b ≡ none = rw e at (absent_of_find k i t h w u) in
        rw (Hashes-available k i h, e, f) refl
  ]

-- The deletion of an `int`.
pub delete_int-Removes :
    (n : ℕ) (fn : FreeFn) (t : Hash)
    → IsHash t
    → (find_key (int (pos n)) t == null) ≡ false
    → Removes t (int (pos n)) (index n) fn (delete (pos n) fn t)
unfolding delete
delete_int-Removes n fn t w u = delete-Removes (int (pos n)) (index n) fn t (index-Hashes n) w u
