-- ===== src/Hash/EraseFn.antt =====
-- Inserting into a table of util/mcl_hash.c, and deleting from it, keeps its registered function.
use mcl.Base.{
  ◌≡◌, refl, ℕ, ℤ, Bool, not, ◌==◌, leb, length, Ptr, List, Call, FreeFn, Bool-cases, Option-cases,
  inl, inr, subscript, null, true, [], ◌∷◌,
}
use mcl.Keys.{Key, available_hash_value, calc_hash}
use mcl.LinkedList.{max_size, free_item}
use mcl.Hash.{
  Hash, Pair, Bucket, bucket_at, find_pair, delete_pair, put_pair, do_hash_insert, hash_insert,
  hash_delete, delete_key,
}

put_pair-erase_fn :
    (i : ℕ) (p : Pair) (b : Bucket) (cs : List Call) (freed : List Ptr) (t : Hash)
    → (put_pair i p b cs freed t).table.erase_fn ≡ t.erase_fn
unfolding put_pair
put_pair-erase_fn i p b cs freed t = elim (Bool-cases (leb max_size (length b))) [
  | inl e ↦ rw e refl
  | inr e ↦ rw e refl
]

do_hash_insert-erase_fn :
    (hash : ℤ) (p : Pair) (sub_flg : Bool) (fn : FreeFn) (t : Hash)
    → (do_hash_insert hash p sub_flg fn t).table.erase_fn ≡ t.erase_fn
unfolding do_hash_insert
do_hash_insert-erase_fn hash p sub_flg fn t =
    let i = subscript hash in
    let b = bucket_at (t.tables i) in
    elim (Bool-cases (not (available_hash_value hash))) [
      | inl e ↦ rw e refl
      | inr e ↦ elim (Option-cases (find_pair p.key b)) [
        | inl f ↦ rw (do_hash_insert, e, f) (put_pair-erase_fn i p b [] [] t)
        | inr (q, f) ↦ elim (Bool-cases (not sub_flg)) [
          | inl g ↦ rw (do_hash_insert, e, f, g) refl
          | inr g ↦
              rw (do_hash_insert, e, f, g)
                (put_pair-erase_fn i p (delete_pair q.addr b) (free_item true fn q.val)
                  (q.addr ∷ []) t)
        ]
      ]
    ]

pub hash_insert-erase_fn :
    (fresh : Ptr) (k : Key) (d : Ptr) (sub_flg : Bool) (fn : FreeFn) (t : Hash)
    → (hash_insert fresh k d sub_flg fn t).table.erase_fn ≡ t.erase_fn
unfolding hash_insert
hash_insert-erase_fn fresh k d sub_flg fn t =
    let p : Pair = record { addr = fresh; key = k; val = d } in
    let r = do_hash_insert (calc_hash k) p sub_flg fn t in
    let same = do_hash_insert-erase_fn (calc_hash k) p sub_flg fn t in
    elim (Bool-cases (d == null)) [
      | inl e ↦ rw e refl
      | inr e ↦ elim (Bool-cases (r.ret == 0)) [ inl f ↦ rw (e, f) same | inr f ↦ rw (e, f) same ]
    ]

pub delete_key-erase_fn :
    (k : Key) (fn : FreeFn) (t : Hash) → (delete_key k fn t).table.erase_fn ≡ t.erase_fn
unfolding delete_key hash_delete
delete_key-erase_fn k fn t = elim (Bool-cases (not (available_hash_value (calc_hash k)))) [
  | inl e ↦ rw e refl
  | inr e ↦ elim (Option-cases (t.tables (subscript (calc_hash k)))) [
    | inl f ↦ rw (delete_key, hash_delete, e, f) refl
    | inr (b, f) ↦ elim (Option-cases (find_pair k b)) [
      | inl g ↦ rw (delete_key, hash_delete, e, f, g) refl
      | inr (q, g) ↦ rw (delete_key, hash_delete, e, f, g) refl
    ]
  ]
]
