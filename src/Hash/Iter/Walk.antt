-- ===== src/Hash/Iter/Walk.antt =====
-- Where the iterator of util/mcl_hash.c is in its table.
use mcl.Base.{
  ℕ, zero, suc, ◌+◌, ◌-◌, ◌<◌, ◌≤◌, ◌≡◌, refl, sym, ap, ◌∙◌, true, false, Option, none, some, List,
  [], ◌∷◌, ◌++◌, ok, length, length-append, ltb, ◌==◌, arith, Option-cases, inl, inr, ◌⊎◌,
}
use mcl.LinkedList.{free_item}
use mcl.Hash.{Pair, Bucket, Hash, store, bucket_at, delete_pair}
use mcl.Keys.{max_hash_size}
use mcl.Hash.Buckets.{has_addr, delete_pair-IsBucket}
use mcl.Hash.Map.{IsHash, store-IsHash}
use mcl.Hash.Iter.{At, HashIter, on, seek, iter_next, iter_erase, first_pair, on_or}
use mcl.Hash.Iter.Middle.{has_addr-middle, list_next-middle, delete_pair-middle}

abbrev pub at_cursor : ℕ → Pair → At
at_cursor i p = record { cursor = i; pair = p }

-- The pairs of a bucket, with its index.
unfoldable pub ats_in : ℕ → Bucket → List At
ats_in i [] = []
ats_in i (p ∷ ps) = at_cursor i p ∷ ats_in i ps

-- The pairs from the index `i` on, with `k` indices left.
unfoldable pub ats : (k i : ℕ) → Hash → List At
ats zero i t = []
ats (suc k) i t = ats_in i (bucket_at (t.tables i)) ++ ats k (suc i) t

-- The table without a pair.
unfoldable pub remove : At → Hash → Hash
remove a t = store a.cursor (some (delete_pair a.pair.addr (bucket_at (t.tables a.cursor)))) t

-- The iterator at the start of the pairs `ps` of the bucket at `i`, or behind that bucket.
abbrev pub start : ℕ → Bucket → Hash → HashIter
start i [] t = seek (max_hash_size - suc i) (suc i) t
start i (p ∷ ps) t = on i p

-- The iterator is on the first of the pairs still to come.
pub data Pos (t : Hash) : HashIter → List At → Type 0 where
  end : Pos t none []
  mid :
      (i : ℕ) (done : Bucket) (p : Pair) (ps : Bucket)
      → i < max_hash_size
      → bucket_at (t.tables i) ≡ done ++ (p ∷ ps)
      → Pos t (on i p) (at_cursor i p ∷ (ats_in i ps ++ ats (max_hash_size - suc i) (suc i) t))

pub bucket_cases : (b : Bucket) → (b ≡ []) ⊎ ((p : Pair) × (ps : Bucket) × (b ≡ p ∷ ps))
bucket_cases [] = inl refl
bucket_cases (p ∷ ps) = inr (p, ps, refl)

module _ (k i : ℕ) (t : Hash) where
  pub seek_empty : bucket_at (t.tables i) ≡ [] → seek (suc k) i t ≡ seek k (suc i) t
  unfolding seek
  seek_empty e = rw (seek, e) refl

  pub seek_pair :
      {p : Pair} {ps : Bucket} → bucket_at (t.tables i) ≡ p ∷ ps → seek (suc k) i t ≡ on i p
  unfolding seek
  seek_pair e = rw (seek, e) refl

  pub ats_bucket :
      (b : Bucket) → bucket_at (t.tables i) ≡ b → ats (suc k) i t ≡ ats_in i b ++ ats k (suc i) t
  unfolding ats
  ats_bucket b e = ap (λ c. ats_in i c ++ ats k (suc i) t) e

pub seek-Pos : (k i : ℕ) (t : Hash) → i + k ≡ max_hash_size → Pos t (seek k i t) (ats k i t)
unfolding seek ats ats_in
seek-Pos zero i t e = end
seek-Pos (suc k) i t e = elim (bucket_cases (bucket_at (t.tables i))) [
  | inl f ↦ rw (seek_empty k i t f, ats_bucket k i t [] f) (seek-Pos k (suc i) t (omega arith))
  | inr (p, ps, f) ↦
      let left : k ≡ max_hash_size - suc i = omega arith in
      rw (seek_pair k i t f, ats_bucket k i t (p ∷ ps) f) (rw left (mid i [] p ps (omega arith) f))
]

pub start-Pos :
    (i : ℕ) (done ps : Bucket) (t : Hash)
    → i < max_hash_size
    → bucket_at (t.tables i) ≡ done ++ ps
    → Pos t (start i ps t) (ats_in i ps ++ ats (max_hash_size - suc i) (suc i) t)
unfolding ats_in
start-Pos i done [] t h e = seek-Pos (max_hash_size - suc i) (suc i) t (omega arith)
start-Pos i done (p ∷ ps) t h e = mid i done p ps h e

pub nonempty : (done : Bucket) (p : Pair) (ps : Bucket) → 0 ≡ length (done ++ (p ∷ ps)) → 1 ≤ 0
nonempty done p ps e = omega (arith, length-append done (p ∷ ps))

pub start_of :
    (i : ℕ) (ps : Bucket) (t : Hash)
    → ok (on_or i (seek (max_hash_size - suc i) (suc i) t) (first_pair ps)) ≡ ok (start i ps t)
start_of i [] t = refl
start_of i (q ∷ ps) t = refl

-- A step of the iterator within a bucket.
module _ (t : Hash) (w : IsHash t) (i : ℕ) (done : Bucket) (p : Pair) (ps : Bucket)
    (lt : i < max_hash_size) (here : bucket_at (t.tables i) ≡ done ++ (p ∷ ps)) where
  pub in_range : ltb i max_hash_size ≡ true
  in_range = ground arith

  pub stored : t.tables i ≡ some (done ++ (p ∷ ps))
  stored = elim (Option-cases (t.tables i)) [
    | inl e ↦ let no_bucket = ap length (rw e at here) in elim (nonempty done p ps no_bucket) [ ]
    | inr (b, e) ↦ e ∙ ap some (rw e at here)
  ]

  pub apart : has_addr p.addr done ≡ false
  apart = has_addr-middle i done p ps (rw here at (w i))

  pub iter_next-start : iter_next (on i p) t ≡ ok (start i ps t)
  unfolding iter_next
  iter_next-start = rw (in_range, stored, list_next-middle done p ps apart) (start_of i ps t)

  pub iter_erase-start :
      iter_erase (on i p) t
      ≡ ok (record {
        table = remove (at_cursor i p) t;
        calls = free_item true t.erase_fn p.val;
        freed = p.addr ∷ [];
        iter = start i ps t;
      })
  unfolding iter_erase remove
  iter_erase-start = rw (in_range, stored, iter_next-start) refl

-- Removing a pair keeps the table well-formed, and the buckets behind it.
pub remove-IsHash : (a : At) (t : Hash) → IsHash t → IsHash (remove a t)
unfolding remove
remove-IsHash a t w =
    let b = bucket_at (t.tables a.cursor) in
    store-IsHash a.cursor (delete_pair a.pair.addr b) t w
      (delete_pair-IsBucket a.pair.addr a.cursor b (w a.cursor))

pub ats_behind :
    (k i j : ℕ) (b : Option Bucket) (t : Hash) → j < i → ats k i (store j b t) ≡ ats k i t
unfolding ats
ats_behind zero i j b t h = refl
ats_behind (suc k) i j b t h =
    let other : (i == j) ≡ false = ground arith in
    rw (other, ats_behind k (suc i) j b t (omega arith)) refl

pub seek_behind :
    (k i j : ℕ) (b : Option Bucket) (t : Hash) → j < i → seek k i (store j b t) ≡ seek k i t
unfolding seek
seek_behind zero i j b t h = refl
seek_behind (suc k) i j b t h =
    let t' = store j b t in
    let other : (i == j) ≡ false = ground arith in
    let same : bucket_at (t'.tables i) ≡ bucket_at (t.tables i) = rw other refl in
    elim (bucket_cases (bucket_at (t.tables i))) [
      | inl f ↦
          seek_empty k i t' (same ∙ f)
          ∙ seek_behind k (suc i) j b t (omega arith)
          ∙ sym (seek_empty k i t f)
      | inr (p, ps, f) ↦ seek_pair k i t' (same ∙ f) ∙ sym (seek_pair k i t f)
    ]

pub start_behind :
    (i : ℕ) (ps : Bucket) (b : Option Bucket) (t : Hash) → start i ps (store i b t) ≡ start i ps t
start_behind i [] b t = seek_behind (max_hash_size - suc i) (suc i) i b t (omega arith)
start_behind i (p ∷ ps) b t = refl

module _ (t : Hash) (w : IsHash t) (i : ℕ) (done : Bucket) (p : Pair) (ps : Bucket)
    (lt : i < max_hash_size) (here : bucket_at (t.tables i) ≡ done ++ (p ∷ ps)) where
  pub removed_here : bucket_at ((remove (at_cursor i p) t).tables i) ≡ done ++ ps
  unfolding remove
  removed_here =
      let self : (i == i) ≡ true = ground arith in
      rw (self, here) (delete_pair-middle done p ps (apart t w i done p ps lt here))

pub start_removed :
    (t : Hash) (i : ℕ) (p : Pair) (ps : Bucket)
    → start i ps (remove (at_cursor i p) t) ≡ start i ps t
unfolding remove
start_removed t i p ps = start_behind i ps (some (delete_pair p.addr (bucket_at (t.tables i)))) t

pub rest_removed :
    (t : Hash) (i : ℕ) (p : Pair)
    → ats (max_hash_size - suc i) (suc i) (remove (at_cursor i p) t)
      ≡ ats (max_hash_size - suc i) (suc i) t
unfolding remove
rest_removed t i p =
    ats_behind (max_hash_size - suc i) (suc i) i
      (some (delete_pair p.addr (bucket_at (t.tables i)))) t (omega arith)
