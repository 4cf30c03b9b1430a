-- ===== src/Hash/Map.antt =====
-- The table of util/mcl_hash.c as a map from keys to values, which is what `mcl_int_hash_find` and
-- `mcl_str_hash_find` show of it.
use mcl.Base.{
  ◌<◌, List, ℕ, ◌*◌, ◌%◌, ◌≡◌, refl, sym, ap, ◌∙◌, true, false, not, none, some, ◌∷◌, ℤ, pos,
  subscript, Ptr, null, ltb, ◌==◌, ==_iff, if◌then◌else◌, arith, Bool-cases, Option-cases, inl, inr,
}
use mcl.Hash.{new, Pair, Bucket, Hash, find_pair, store, bucket_at, value, hash_find, find_key}
use mcl.Keys.{Key, int, str, max_hash_size, cal_hash_int, calc_hash, available_hash_value, key_cmp}
use mcl.Keys.Elf.{cal_hash_str-index}
use mcl.Keys.Compare.{key_cmp_self}
use mcl.Hash.Buckets.{has_addr, IsBucket}

abbrev pub IsHash : Hash → Type 0
IsHash t = (i : ℕ) → IsBucket i (bucket_at (t.tables i))

-- The index of the table that a key hashes to.
pub record Hashes (k : Key) (i : ℕ) : Type 0 where
  pub hash : calc_hash k ≡ pos i
  pub in_table : i < max_hash_size

pub Hashes-available : (k : Key) (i : ℕ) → Hashes k i → ltb i max_hash_size ≡ true
Hashes-available k i h = let lt = h.in_table in ground arith

-- An `int` that is not negative has an index, and so has each string.
abbrev pub index : ℕ → ℕ
index n = n * 2654435761 % max_hash_size

pub index-Hashes : (n : ℕ) → Hashes (int (pos n)) (index n)
unfolding calc_hash cal_hash_int
index-Hashes n = record { hash = refl; in_table = omega arith }

pub str-Hashes : (s : List ℕ) → (i : ℕ) × Hashes (str s) i
unfolding calc_hash
str-Hashes s = let (i, lt, e) = cal_hash_str-index s in (i, record { hash = e; in_table = lt })

-- What the lookup reads of the bucket at an index.
abbrev pub value_in : Key → Bucket → Ptr
value_in k b = value (find_pair k b)

pub hash_find-value_in :
    (h : ℤ) (k : Key) (t : Hash)
    → hash_find h k t ≡ (
        if not (available_hash_value h)
        then null
        else value_in k (bucket_at (t.tables (subscript h))))
unfolding hash_find value find_pair
hash_find-value_in h k t = elim (Option-cases (t.tables (subscript h))) [
  | inl e ↦ rw e refl
  | inr (b, e) ↦ rw e refl
]

abbrev pub at_index : Hash → ℕ → Bucket
at_index t i = bucket_at (t.tables i)

pub find_key-value_in :
    (k : Key) (i : ℕ) (t : Hash) → Hashes k i → find_key k t ≡ value_in k (at_index t i)
unfolding find_key
find_key-value_in k i t h =
    ap (λ x. hash_find x k t) h.hash
    ∙ hash_find-value_in (pos i) k t
    ∙ rw (Hashes-available k i h) refl

-- Storing a bucket in which a key is found as before leaves the key's value.
pub find_key-store :
    (j : Key) (i : ℕ) (b : Bucket) (t : Hash)
    → find_pair j b ≡ find_pair j (at_index t i)
    → find_key j (store i (some b) t) ≡ find_key j t
unfolding find_key
find_key-store j i b t e =
    hash_find-value_in (calc_hash j) j (store i (some b) t)
    ∙ elim (Bool-cases (subscript (calc_hash j) == i)) [
      | inl s ↦
          let same = (==_iff (subscript (calc_hash j)) i).0 s in
          let e' = e ∙ ap (λ x. find_pair j (bucket_at (t.tables x))) (sym same) in
          rw (s, e') (sym (hash_find-value_in (calc_hash j) j t))
      | inr n ↦ rw n (sym (hash_find-value_in (calc_hash j) j t))
    ]

pub store-IsHash :
    (i : ℕ) (b : Bucket) (t : Hash) → IsHash t → IsBucket i b → IsHash (store i (some b) t)
store-IsHash i b t w v j = elim (Bool-cases (j == i)) [
  | inl s ↦ rw s (rw ((==_iff j i).0 s) v)
  | inr n ↦ rw n (w j)
]

-- The key has the value, all other keys have the values they had, and the table is well-formed.
pub record Binds (t : Hash) (k : Key) (d : Ptr) (t' : Hash) : Type 0 where
  pub bound : find_key k t' ≡ d
  pub others : (j : Key) → key_cmp j k ≡ false → find_key j t' ≡ find_key j t
  pub table : IsHash t'

-- Storing a new pair in front of a bucket that lacks its key.
pub put-Binds :
    (k : Key) (i : ℕ) (d fresh : Ptr) (b : Bucket) (t : Hash)
    → Hashes k i
    → IsHash t
    → IsBucket i b
    → (d == null) ≡ false
    → find_pair k b ≡ none
    → has_addr fresh b ≡ false
    → ((j : Key) → key_cmp j k ≡ false → find_pair j b ≡ find_pair j (at_index t i))
    → Binds t k d (store i (some (record { addr = fresh; key = k; val = d } ∷ b)) t)
unfolding find_pair value
put-Binds k i d fresh b t h w v nz absent free others =
    let p : Pair = record { addr = fresh; key = k; val = d } in
    let self : (i == i) ≡ true = ground arith in
    record {
      bound = find_key-value_in k i (store i (some (p ∷ b)) t) h ∙ rw (self, key_cmp_self k) refl;
      others = λ j ne. find_key-store j i (p ∷ b) t (rw ne (others j ne));
      table = store-IsHash i (p ∷ b) t w (h.hash, nz, absent, free, v);
    }

-- `mcl_int_hash_new` and `mcl_str_hash_new` make a well-formed table in which no key has a value.
pub new-find : IsHash new × ((j : Key) → find_key j new ≡ null)
unfolding new find_key value find_pair
new-find = (
  λ i. tt,
  λ j.
      hash_find-value_in (calc_hash j) j new
      ∙ elim (Bool-cases (available_hash_value (calc_hash j))) [
        | inl e ↦ rw e refl
        | inr e ↦ rw e refl
      ],
)
