-- ===== src/Hash/Insert.antt =====
-- Insertion into the table of util/mcl_hash.c.
use mcl.Base.{
  ℕ, zero, suc, ◌-◌, ◌*◌, ◌%◌, ◌<◌, ◌≡◌, refl, sym, ap, ◌∙◌, Bool, true, false, Option, none, some,
  List, [], ◌∷◌, ℤ, pos, negsuc, Ptr, null, FreeFn, Call, length, leb, ◌++◌, if◌then◌else◌, ◌==◌,
  arith, Option-cases, inl, inr,
}
use mcl.LinkedList.{max_size, free_item}
use mcl.Hash.{
  Pair, Bucket, Hash, Change, change, find_pair, delete_pair, store, put_pair, do_hash_insert,
  hash_insert, insert, insert_safe, value, hash_find, find_key, find,
}
use mcl.Keys.{Key, max_hash_size, negate, cal_hash_int, calc_hash}
use mcl.Hash.Buckets.{
  has_addr, find_pair-filled, find_pair-delete_pair, find_pair-delete_pair_other,
  has_addr-delete_pair, delete_pair-IsBucket, length-delete_pair,
}
use mcl.Hash.Map.{
  IsHash, Hashes, Hashes-available, find_key-value_in, find_key-store, store-IsHash, Binds,
  at_index, put-Binds,
}

unfoldable pub addrs : Option Pair → List Ptr
addrs none = []
addrs (some p) = p.addr ∷ []

-- An insertion that succeeds: the binding, and what it frees of the one before it.
pub record Rebinds (t : Hash) (k : Key) (i : ℕ) (d : Ptr) (fn : FreeFn) (r : Change) : Type 0 where
  pub binds : Binds t k d r.table
  pub ret : r.ret ≡ 1
  pub calls : r.calls ≡ free_item true fn (find_key k t)
  pub freed : r.freed ≡ addrs (find_pair k (at_index t i))

negate-positive : (r : ℕ) → 0 < r → negate r ≡ negsuc (r - 1)
negate-positive zero h = elim h [ ]
negate-positive (suc r) h = ap negsuc (omega arith)

cal_hash-negative :
    (m : ℕ)
    → 0 < suc m * 2654435761 % max_hash_size
    → cal_hash_int (negsuc m) ≡ negsuc (suc m * 2654435761 % max_hash_size - 1)
unfolding cal_hash_int
cal_hash-negative m h = negate-positive (suc m * 2654435761 % max_hash_size) h

-- A value that is not there: no pair has the key.
pub absent_of_find :
    (k : Key) (i : ℕ) (t : Hash)
    → Hashes k i
    → IsHash t
    → find_key k t ≡ null
    → find_pair k (at_index t i) ≡ none
unfolding value
absent_of_find k i t h w e = elim (Option-cases (find_pair k (at_index t i))) [
  | inl a ↦ a
  | inr (q, f) ↦
      let zero : q.val ≡ null = sym (find_key-value_in k i t h ∙ ap value f) ∙ e in
      let filled = find_pair-filled i k (at_index t i) (w i) f in ground arith
]

put_pair-ok :
    (i : ℕ) (p : Pair) (b : Bucket) (cs : List Call) (freed : List Ptr) (t : Hash)
    → length b < max_size
    → put_pair i p b cs freed t ≡ change (store i (some (p ∷ b)) t) cs freed 1
unfolding put_pair
put_pair-ok i p b cs freed t h =
    let room : leb max_size (length b) ≡ false = ground arith in rw room refl

-- The insertion when the hash is known.
insert_at : ℤ → (fresh : Ptr) → Key → Ptr → Bool → FreeFn → Hash → Change
insert_at hash fresh k d sub_flg fn t =
    let r = do_hash_insert hash (record { addr = fresh; key = k; val = d }) sub_flg fn t in
    if d == null
    then change t [] [] 0
    else if r.ret == 0
    then change r.table r.calls (r.freed ++ (fresh ∷ [])) 0
    else r

hash_insert-insert_at :
    (fresh : Ptr) (k : Key) (i : ℕ) (d : Ptr) (sub_flg : Bool) (fn : FreeFn) (t : Hash)
    → Hashes k i
    → hash_insert fresh k d sub_flg fn t ≡ insert_at (pos i) fresh k d sub_flg fn t
unfolding hash_insert insert_at
hash_insert-insert_at fresh k i d sub_flg fn t h =
    ap (λ x. insert_at x fresh k d sub_flg fn t) h.hash

module _ (fresh : Ptr) (k : Key) (i : ℕ) (d : Ptr) (t : Hash) (h : Hashes k i)
    (nz : (d == null) ≡ false) (room : length (at_index t i) < max_size) where
  abbrev pub new_pair : Pair
  new_pair = record { addr = fresh; key = k; val = d }

  pub hash_insert-absent :
      (sub_flg : Bool) (fn : FreeFn)
      → find_pair k (at_index t i) ≡ none
      → hash_insert fresh k d sub_flg fn t
        ≡ change (store i (some (new_pair ∷ at_index t i)) t) [] [] 1
  unfolding insert_at do_hash_insert
  hash_insert-absent sub_flg fn e =
      hash_insert-insert_at fresh k i d sub_flg fn t h
      ∙ rw (nz, Hashes-available k i h, e, put_pair-ok i new_pair (at_index t i) [] [] t room) refl

  hash_insert-present :
      (fn : FreeFn) {q : Pair}
      → find_pair k (at_index t i) ≡ some q
      → hash_insert fresh k d true fn t
        ≡ change
            (store i (some (new_pair ∷ delete_pair q.addr (at_index t i))) t)
            (free_item true fn q.val)
            (q.addr ∷ [])
            1
  unfolding insert_at do_hash_insert
  hash_insert-present fn {q} e =
      let room' = length-delete_pair q.addr (at_index t i) in
      hash_insert-insert_at fresh k i d true fn t h
      ∙ rw
          (
            nz,
            Hashes-available k i h,
            e,
            put_pair-ok i new_pair (delete_pair q.addr (at_index t i)) (free_item true fn q.val)
                (q.addr ∷ []) t (omega arith),
          )
          refl

module _ (fresh : Ptr) (k : Key) (i : ℕ) (d : Ptr) (t : Hash) (h : Hashes k i) (w : IsHash t)
    (nz : (d == null) ≡ false) (free : has_addr fresh (at_index t i) ≡ false)
    (room : length (at_index t i) < max_size) where
  Binds-absent :
      find_pair k (at_index t i) ≡ none
      → Binds t k d (store i (some (record { addr = fresh; key = k; val = d } ∷ at_index t i)) t)
  Binds-absent e = put-Binds k i d fresh (at_index t i) t h w (w i) nz e free (λ j ne. refl)

  -- `mcl_int_hash_insert` and `mcl_str_hash_insert` (`hash_insert` that replaces) on a well-formed
  -- table, of a key whose hash is an index of the table and a value that is not NULL, at an
  -- address that no pair of the bucket has, into a bucket below the largest size, return 1; the
  -- key then has this value, all other keys have theirs, the table is well-formed, and just the
  -- pair that the key had before is freed, with its value unless the free function is NULL.
  pub insert-Rebinds : (fn : FreeFn) → Rebinds t k i d fn (hash_insert fresh k d true fn t)
  unfolding addrs free_item value
  insert-Rebinds fn = elim (Option-cases (find_pair k (at_index t i))) [
    | inl e ↦ rw (hash_insert-absent fresh k i d t h nz room true fn e) (record {
      binds = Binds-absent e;
      ret = refl;
      calls = rw (find_key-value_in k i t h, e) refl;
      freed = rw e refl;
    })
    | inr (q, e) ↦ rw (hash_insert-present fresh k i d t h nz room fn e) (record {
      binds =
          put-Binds k i d fresh (delete_pair q.addr (at_index t i)) t h w
            (delete_pair-IsBucket q.addr i (at_index t i) (w i)) nz
            (find_pair-delete_pair i k (at_index t i) (w i) e)
            (has_addr-delete_pair q.addr fresh (at_index t i) free)
            (λ j ne. find_pair-delete_pair_other i k j ne (at_index t i) (w i) e);
      ret = refl;
      calls = rw (find_key-value_in k i t h, e) refl;
      freed = rw e refl;
    })
  ]

  -- `mcl_int_hash_insert_safe` and `mcl_str_hash_insert_safe` (`hash_insert` that does not
  -- replace) on a well-formed table, of a key whose hash is an index of the table and that has no
  -- value, and of a value that is not NULL, at an address that no pair of the bucket has, into a
  -- bucket below the largest size, return 1; the key then has this value, all other keys have
  -- theirs, the table is well-formed, and nothing is freed.
  pub insert_safe-Rebinds :
      find_key k t ≡ null → Rebinds t k i d null (hash_insert fresh k d false null t)
  unfolding addrs free_item
  insert_safe-Rebinds u =
      let e = absent_of_find k i t h w u in
      rw (hash_insert-absent fresh k i d t h nz room false null e)
        (record { binds = Binds-absent e; ret = refl; calls = rw u refl; freed = rw e refl })

-- An insertion that is refused: the new pair is freed, no value is, and the map is as before.
pub record Refuses (fresh : Ptr) (t : Hash) (r : Change) : Type 0 where
  pub ret : r.ret ≡ 0
  pub calls : r.calls ≡ []
  pub freed : r.freed ≡ fresh ∷ []
  pub find : (j : Key) → find_key j r.table ≡ find_key j t
  pub table : IsHash r.table

-- An insertion that does not replace, of a key that has a value, is refused.
pub insert_safe-Refuses :
    (fresh : Ptr) (k : Key) (i : ℕ) (d : Ptr) (t : Hash)
    → Hashes k i
    → IsHash t
    → (d == null) ≡ false
    → (find_key k t == null) ≡ false
    → Refuses fresh t (hash_insert fresh k d false null t)
unfolding insert_at do_hash_insert value
insert_safe-Refuses fresh k i d t h w nz u = elim (Option-cases (find_pair k (at_index t i))) [
  | inl e ↦ let none' : find_key k t ≡ null = find_key-value_in k i t h ∙ ap value e in ground arith
  | inr (q, e) ↦
      rw (hash_insert-insert_at fresh k i d false null t h, nz, Hashes-available k i h, e)
        (record {
          ret = refl;
          calls = refl;
          freed = refl;
          find = λ j. find_key-store j i (at_index t i) t refl;
          table = store-IsHash i (at_index t i) t w (w i);
        })
]

-- A negative key whose product with the multiplier is not divisible by the number of buckets is
-- never inserted, by either insertion of a value that is not NULL, and never found; the new pair
-- is freed and the table is as before.
pub insert_negative :
    (fresh m : ℕ) (d : Ptr) (fn : FreeFn) (t : Hash)
    → (d == null) ≡ false
    → 0 < suc m * 2654435761 % max_hash_size
    → (insert fresh (negsuc m) d fn t ≡ change t [] (fresh ∷ []) 0)
      × (insert_safe fresh (negsuc m) d t ≡ change t [] (fresh ∷ []) 0)
      × (find (negsuc m) t ≡ null)
unfolding insert insert_safe hash_insert do_hash_insert find find_key hash_find calc_hash
insert_negative fresh m d fn t nz h =
    let e = cal_hash-negative m h in (rw (nz, e) refl, rw (nz, e) refl, rw e refl)
