-- ===== src/Hash/Clean.antt =====
-- `mcl_hash_clean` of util/mcl_hash.c.
use mcl.Base.{
  ℕ, zero, suc, ◌+◌, ◌≤◌, ◌<◌, ◌≡◌, refl, sym, ap, ◌∙◌, true, false, not, none, some, List, [], ◌∷◌,
  ◌++◌, ℤ, pos, negsuc, subscript, Ptr, null, FreeFn, Call, ltb, ◌==◌, ==_iff, if◌then◌else◌, arith,
  Bool-cases, Option-cases, inl, inr,
}
use mathlib.Core.List.{append_assoc}
use mcl.LinkedList.{free_item}
use mcl.Hash.{
  Bucket, Hash, Change, change, find_pair, store, bucket_at, value, find_key, destroy_pairs,
  clean_loop, clean,
}
use mcl.Keys.{Key, max_hash_size, calc_hash, available_hash_value}
use mcl.Hash.Map.{value_in, hash_find-value_in}

-- The pairs of the buckets from the index `i` on, in order, with `k` indices left.
unfoldable pub pairs : (k i : ℕ) → Hash → Bucket
pairs zero i t = []
pairs (suc k) i t = bucket_at (t.tables i) ++ pairs k (suc i) t

-- The calls that free all values, in order.
unfoldable pub free_values : FreeFn → Bucket → List Call
free_values fn [] = []
free_values fn (p ∷ ps) = free_item true fn p.val ++ free_values fn ps

abbrev pub addresses : Bucket → List Ptr
addresses [] = []
addresses (p ∷ ps) = p.addr ∷ addresses ps

addresses-append : (b c : Bucket) → addresses (b ++ c) ≡ addresses b ++ addresses c
addresses-append [] c = refl
addresses-append (p ∷ b) c = rw (addresses-append b c) refl

free_values-append :
    (fn : FreeFn) (b c : Bucket) → free_values fn (b ++ c) ≡ free_values fn b ++ free_values fn c
unfolding free_values
free_values-append fn [] c = refl
free_values-append fn (p ∷ b) c =
    rw (free_values-append fn b c)
      (sym (append_assoc (free_item true fn p.val) (free_values fn b) (free_values fn c)))

destroy_pairs-all :
    (fn : FreeFn) (b : Bucket) → destroy_pairs fn b ≡ (free_values fn b, addresses b)
unfolding destroy_pairs free_values
destroy_pairs-all fn [] = refl
destroy_pairs-all fn (p ∷ ps) = rw (destroy_pairs-all fn ps) refl

-- Every pair is freed once, and every value that is not NULL, unless the function is NULL. From
-- `i` on no bucket is left, and below `i` each is as it was.
record Cleans (k i : ℕ) (fn : FreeFn) (old t : Hash) (r : Change) : Type 0 where
  calls : r.calls ≡ free_values fn (pairs k i old)
  freed : r.freed ≡ addresses (pairs k i old)
  emptied : (j : ℕ) → i ≤ j → j < i + k → r.table.tables j ≡ none
  below : (j : ℕ) → j < i → r.table.tables j ≡ t.tables j

clean_loop-none :
    (k i : ℕ) (fn : FreeFn) (t : Hash)
    → t.tables i ≡ none
    → clean_loop (suc k) i fn t ≡ clean_loop k (suc i) fn t
unfolding clean_loop
clean_loop-none k i fn t e = rw (clean_loop, e) refl

clean_loop-some :
    (k i : ℕ) (fn : FreeFn) (t : Hash) (b : Bucket)
    → t.tables i ≡ some b
    → clean_loop (suc k) i fn t ≡ (
        let rest = clean_loop k (suc i) fn (store i none t) in
        change rest.table (free_values fn b ++ rest.calls) (addresses b ++ rest.freed) 0)
unfolding clean_loop
clean_loop-some k i fn t b e = rw (clean_loop, e, destroy_pairs-all fn b) refl

cleared : (i j : ℕ) (t : Hash) → (j == i) ≡ false → (store i none t).tables j ≡ t.tables j
cleared i j t e = rw e refl

cleared_self : (i : ℕ) (t : Hash) → (store i none t).tables i ≡ none
cleared_self i t = let e : (i == i) ≡ true = ground arith in rw e refl

nothing_left :
    (i : ℕ) (fn : FreeFn) (old t : Hash) → Cleans zero i fn old t (clean_loop zero i fn t)
unfolding clean_loop pairs free_values
nothing_left i fn old t = record {
  calls = refl;
  freed = refl;
  emptied = λ j lo hi. ground arith;
  below = λ j h. refl;
}

clean_loop-Cleans :
    (k i : ℕ) (fn : FreeFn) (old t : Hash)
    → ((j : ℕ) → i ≤ j → t.tables j ≡ old.tables j)
    → Cleans k i fn old t (clean_loop k i fn t)
unfolding pairs free_values
clean_loop-Cleans zero i fn old t same = nothing_left i fn old t
clean_loop-Cleans (suc k) i fn old t same = elim (Option-cases (t.tables i)) [
  | inl e ↦
      let g = clean_loop-Cleans k (suc i) fn old t (λ j h. same j (omega arith)) in
      let e' = sym (same i (omega arith)) ∙ e in
      rw (clean_loop-none k i fn t e) (record {
        calls = rw e' g.calls;
        freed = rw e' g.freed;
        emptied = λ j lo hi. elim (Bool-cases (j == i)) [
          | inl s ↦ g.below j (ground arith) ∙ ap t.tables ((==_iff j i).0 s) ∙ e
          | inr n ↦ g.emptied j (ground arith) (omega arith)
        ];
        below = λ j h. g.below j (omega arith);
      })
  | inr (b, e) ↦
      let g =
        clean_loop-Cleans k (suc i) fn old (store i none t)
          (λ j h. cleared i j t (ground arith) ∙ same j (omega arith)) in
      let e' = sym (same i (omega arith)) ∙ e in
      rw (clean_loop-some k i fn t b e) (record {
        calls = rw (e', g.calls) (sym (free_values-append fn b (pairs k (suc i) old)));
        freed = rw (e', g.freed) (sym (addresses-append b (pairs k (suc i) old)));
        emptied = λ j lo hi. elim (Bool-cases (j == i)) [
          | inl s ↦
              g.below j (ground arith)
              ∙ ap (store i none t).tables ((==_iff j i).0 s)
              ∙ cleared_self i t
          | inr n ↦ g.emptied j (ground arith) (omega arith)
        ];
        below = λ j h. g.below j (omega arith) ∙ cleared i j t (ground arith);
      })
]

empty-bucket :
    (h : ℤ) (j : Key) (t : Hash)
    → ((i : ℕ) → i < max_hash_size → t.tables i ≡ none)
    → (if not (available_hash_value h)
        then null
        else value_in j (bucket_at (t.tables (subscript h))))
      ≡ null
unfolding value find_pair
empty-bucket (pos n) j t e = elim (Bool-cases (ltb n max_hash_size)) [
  | inl s ↦ rw (s, e n (ground arith)) refl
  | inr f ↦ rw f refl
]
empty-bucket (negsuc n) j t e = refl

-- A table without buckets has no keys.
empty-find :
    (t : Hash) → ((j : ℕ) → j < max_hash_size → t.tables j ≡ none) → (j : Key) → find_key j t ≡ null
unfolding find_key value find_pair
empty-find t h j = hash_find-value_in (calc_hash j) j t ∙ empty-bucket (calc_hash j) j t h

-- `mcl_hash_clean` frees each pair once, and its value unless that or the free function is NULL,
-- bucket after bucket, and afterwards no key has a value.
pub clean-find :
    (fn : FreeFn) (t : Hash)
    → ((clean fn t).calls ≡ free_values fn (pairs max_hash_size 0 t))
      × ((clean fn t).freed ≡ addresses (pairs max_hash_size 0 t))
      × ((j : Key) → find_key j (clean fn t).table ≡ null)
unfolding clean
clean-find fn t =
    let g = clean_loop-Cleans max_hash_size 0 fn t t (λ j h. refl) in
    (
      g.calls,
      g.freed,
      empty-find (clean_loop max_hash_size 0 fn t).table (λ j h. g.emptied j (omega arith) h),
    )
