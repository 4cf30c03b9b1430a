-- ===== src/Hash/Iter/Removed.antt =====
-- Removing a pair that an iterator of util/mcl_hash.c is on, seen through the lookup.
use mcl.Base.{
  ℕ, zero, suc, ◌≤◌, ◌≡◌, refl, sym, ap, ◌∙◌, true, false, List, [], ◌∷◌, null, length,
  length-append, ◌==◌, ==_iff, arith, Bool-cases, inl, inr,
}
use mcl.Keys.{Key, key_cmp}
use mcl.Hash.{Bucket, Hash, find_pair, delete_pair, bucket_at, value, find_key}
use mcl.Hash.Buckets.{find_pair-delete_pair, find_pair-delete_pair_other}
use mcl.Hash.Map.{IsHash, at_index, find_key-value_in, find_key-store}
use mcl.Hash.Iter.{At}
use mcl.Hash.Iter.Walk.{ats_in, ats, remove}
use mcl.Hash.Iter.Members.{Member, Members, NotIn}

module _ (t : Hash) (w : IsHash t) (a : At) (m : Member t a) where
  pub remove-gone : find_key a.pair.key (remove a t) ≡ null
  unfolding remove value
  remove-gone =
      let i = a.cursor in
      let self : (i == i) ≡ true = ground arith in
      find_key-value_in a.pair.key i (remove a t) m.hashes
      ∙ rw self (ap value (find_pair-delete_pair i a.pair.key (at_index t i) (w i) m.found))

  others_found :
      (j : Key)
      → key_cmp j a.pair.key ≡ false
      → find_pair j (delete_pair a.pair.addr (at_index t a.cursor))
        ≡ find_pair j (at_index t a.cursor)
  others_found j d =
      find_pair-delete_pair_other a.cursor a.pair.key j d (at_index t a.cursor) (w a.cursor) m.found

  pub remove-others :
      (j : Key) → key_cmp j a.pair.key ≡ false → find_key j (remove a t) ≡ find_key j t
  unfolding remove
  remove-others j d =
      find_key-store j a.cursor (delete_pair a.pair.addr (at_index t a.cursor)) t (others_found j d)

  remove-Member :
      (b : At) → key_cmp b.pair.key a.pair.key ≡ false → Member t b → Member (remove a t) b
  unfolding remove
  remove-Member b d n = record {
    hashes = n.hashes;
    found = elim (Bool-cases (b.cursor == a.cursor)) [
      | inl s ↦
          let same = (==_iff b.cursor a.cursor).0 s in
          rw s (
            others_found b.pair.key d
            ∙ ap (λ i. find_pair b.pair.key (at_index t i)) (sym same)
            ∙ n.found)
      | inr e ↦ rw e n.found
    ];
    filled = n.filled;
  }

  pub remove-Members : (xs : List At) → NotIn a.pair.key xs → Members t xs → Members (remove a t) xs
  remove-Members [] d ms = tt
  remove-Members (b ∷ xs) d ms = (remove-Member b d.0 ms.0, ms.1, remove-Members xs d.1 ms.2)

  pub remove-erase_fn : (remove a t).erase_fn ≡ t.erase_fn
  unfolding remove
  remove-erase_fn = refl

-- The pairs do not become more.
delete_pair-length : (a : ℕ) (b : Bucket) → length (delete_pair a b) ≤ length b
unfolding delete_pair
delete_pair-length a [] = omega arith
delete_pair-length a (p ∷ ps) =
    let later = delete_pair-length a ps in
    elim (Bool-cases (p.addr == a)) [ inl e ↦ rw e (omega arith) | inr e ↦ rw e (omega arith) ]

length-ats_in : (i : ℕ) (b : Bucket) → length (ats_in i b) ≡ length b
unfolding ats_in
length-ats_in i [] = refl
length-ats_in i (p ∷ ps) = ap suc (length-ats_in i ps)

bucket-length :
    (i : ℕ) (a : At) (t : Hash)
    → length (bucket_at ((remove a t).tables i)) ≤ length (bucket_at (t.tables i))
unfolding remove
bucket-length i a t = elim (Bool-cases (i == a.cursor)) [
  | inl s ↦
      let same : length (bucket_at (t.tables a.cursor)) ≡ length (bucket_at (t.tables i)) =
        ap (λ j. length (bucket_at (t.tables j))) (sym ((==_iff i a.cursor).0 s)) in
      let less = delete_pair-length a.pair.addr (bucket_at (t.tables a.cursor)) in
      rw s (omega arith)
  | inr e ↦ rw e (omega arith)
]

pub remove-length :
    (n i : ℕ) (a : At) (t : Hash) → length (ats n i (remove a t)) ≤ length (ats n i t)
unfolding ats remove
remove-length zero i a t = omega arith
remove-length (suc n) i a t =
    let b = bucket_at (t.tables i) in
    let b' = bucket_at ((remove a t).tables i) in
    let later = remove-length n (suc i) a t in
    let here = bucket-length i a t in
    let new = length-append (ats_in i b') (ats n (suc i) (remove a t)) in
    let old = length-append (ats_in i b) (ats n (suc i) t) in
    let new_here = length-ats_in i b' in let old_here = length-ats_in i b in omega arith
