-- ===== src/Hash/Iter/Members.antt =====
-- The pairs that an iterator of util/mcl_hash.c goes over are those that a lookup finds.
use mathlib.Core.Option.{none-ne-some}
use mathlib.Core.List.{append_assoc}
use mcl.Base.{
  ℕ, zero, suc, ◌+◌, ◌<◌, ◌≤◌, ◌≡◌, refl, sym, ap, ◌∙◌, true, false, none, some, List, [], ◌∷◌,
  ◌++◌, pos, subscript, null, ◌==◌, arith, Bool-cases, inl, inr,
}
use mcl.Keys.{Key, max_hash_size, calc_hash, key_cmp}
use mcl.Keys.Compare.{key_cmp_self, eq_of_key_cmp}
use mcl.Hash.{Pair, Bucket, Hash, find_pair, bucket_at, value, find_key}
use mcl.Hash.Buckets.{IsBucket}
use mcl.Hash.Map.{IsHash, Hashes, at_index, find_key-value_in}
use mcl.Hash.Iter.{At}
use mcl.Hash.Iter.Walk.{ats_in, ats}

-- A lookup finds the pair in its bucket.
pub record Member (t : Hash) (a : At) : Type 0 where
  pub hashes : Hashes a.pair.key a.cursor
  pub found : find_pair a.pair.key (at_index t a.cursor) ≡ some a.pair
  pub filled : (a.pair.val == null) ≡ false

abbrev pub NotIn : Key → List At → Type 0
NotIn k [] = Unit
NotIn k (b ∷ bs) = (key_cmp b.pair.key k ≡ false) × NotIn k bs

-- No two of the pairs have the same key.
abbrev pub Members : Hash → List At → Type 0
Members t [] = Unit
Members t (a ∷ xs) = Member t a × NotIn a.pair.key xs × Members t xs

pub Member-find_key : (t : Hash) (a : At) → Member t a → find_key a.pair.key t ≡ a.pair.val
unfolding value
Member-find_key t a m = find_key-value_in a.pair.key a.cursor t m.hashes ∙ ap value m.found

other_key : (j k : Key) → key_cmp k j ≡ false → key_cmp j k ≡ false
other_key j k e = elim (Bool-cases (key_cmp j k)) [
  | inl s ↦
      let same : key_cmp k j ≡ true =
        ap (λ x. key_cmp k x) (eq_of_key_cmp j k s) ∙ key_cmp_self k in
      ground arith
  | inr d ↦ d
]

other_hash :
    (j k : Key) (m n : ℕ) → calc_hash j ≡ pos m → calc_hash k ≡ pos n → m < n → key_cmp k j ≡ false
other_hash j k m n hj hk lt = elim (Bool-cases (key_cmp k j)) [
  | inl s ↦
      let same : m ≡ n = ap subscript (sym hj ∙ ap calc_hash (sym (eq_of_key_cmp k j s)) ∙ hk) in
      ground arith
  | inr d ↦ d
]

find_pair-middle :
    (h : ℕ) (done : Bucket) (p : Pair) (ps : Bucket)
    → IsBucket h (done ++ (p ∷ ps))
    → find_pair p.key (done ++ (p ∷ ps)) ≡ some p
unfolding find_pair
find_pair-middle h [] p ps w = rw (key_cmp_self p.key) refl
find_pair-middle h (q ∷ done) p ps w =
    let later = find_pair-middle h done p ps w.4 in
    elim (Bool-cases (key_cmp p.key q.key)) [
      | inl s ↦
          let absent =
            ap (λ k. find_pair k (done ++ (p ∷ ps))) (eq_of_key_cmp p.key q.key s) ∙ w.2 in
          elim (none-ne-some p (sym absent ∙ later)) [ ]
      | inr d ↦ rw d later
    ]

IsBucket-middle : (h : ℕ) (done ps : Bucket) → IsBucket h (done ++ ps) → IsBucket h ps
IsBucket-middle h [] ps w = w
IsBucket-middle h (q ∷ done) ps w = IsBucket-middle h done ps w.4

NotIn-append : (k : Key) (xs bs : List At) → NotIn k xs → NotIn k bs → NotIn k (xs ++ bs)
NotIn-append k [] bs a b = b
NotIn-append k (x ∷ xs) bs a b = (a.0, NotIn-append k xs bs a.1 b)

-- A key that a bucket lacks, because it is not found in it or belongs at a smaller index.
absent-NotIn : (k : Key) (i : ℕ) (ps : Bucket) → find_pair k ps ≡ none → NotIn k (ats_in i ps)
unfolding ats_in find_pair
absent-NotIn k i [] e = tt
absent-NotIn k i (q ∷ qs) e = elim (Bool-cases (key_cmp k q.key)) [
  | inl s ↦ elim (none-ne-some q (sym e ∙ rw s refl)) [ ]
  | inr d ↦ (other_key q.key k d, absent-NotIn k i qs (rw d at e))
]

before-NotIn :
    (k : Key) (h i : ℕ) (ps : Bucket)
    → calc_hash k ≡ pos h
    → h < i
    → IsBucket i ps
    → NotIn k (ats_in i ps)
unfolding ats_in
before-NotIn k h i [] e lt w = tt
before-NotIn k h i (q ∷ qs) e lt w =
    (other_hash k q.key h i e w.0 lt, before-NotIn k h i qs e lt w.4)

ats-NotIn :
    (k : Key) (h n i : ℕ) (t : Hash) → calc_hash k ≡ pos h → h < i → IsHash t → NotIn k (ats n i t)
unfolding ats
ats-NotIn k h zero i t e lt w = tt
ats-NotIn k h (suc n) i t e lt w =
    NotIn-append k (ats_in i (bucket_at (t.tables i))) (ats n (suc i) t)
      (before-NotIn k h i (bucket_at (t.tables i)) e lt (w i))
      (ats-NotIn k h n (suc i) t e (omega arith) w)

bucket-Members :
    (n i : ℕ) (t : Hash) (done ps : Bucket)
    → i < max_hash_size
    → bucket_at (t.tables i) ≡ done ++ ps
    → IsHash t
    → Members t (ats n (suc i) t)
    → Members t (ats_in i ps ++ ats n (suc i) t)
unfolding ats_in
bucket-Members n i t done [] lt here w rest = rest
bucket-Members n i t done (p ∷ ps) lt here w rest =
    let b : IsBucket i (done ++ (p ∷ ps)) = rw here at (w i) in
    let own = IsBucket-middle i done (p ∷ ps) b in
    (
      record {
        hashes = record { hash = own.0; in_table = lt };
        found = ap (find_pair p.key) here ∙ find_pair-middle i done p ps b;
        filled = own.1;
      },
      NotIn-append p.key (ats_in i ps) (ats n (suc i) t) (absent-NotIn p.key i ps own.2)
          (ats-NotIn p.key i n (suc i) t own.0 (omega arith) w),
      bucket-Members n i t (done ++ (p ∷ [])) ps lt (here ∙ sym (append_assoc done (p ∷ []) ps)) w
          rest,
    )

pub ats-Members : (n i : ℕ) (t : Hash) → i + n ≤ max_hash_size → IsHash t → Members t (ats n i t)
unfolding ats
ats-Members zero i t lt w = tt
ats-Members (suc n) i t lt w =
    bucket-Members n i t [] (bucket_at (t.tables i)) (omega arith) refl w
      (ats-Members n (suc i) t (omega arith) w)
