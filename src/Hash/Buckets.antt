-- ===== src/Hash/Buckets.antt =====
-- Looking up and deleting pairs in a bucket of util/mcl_hash.c.
use mcl.Base.{
  ℕ, ◌≤◌, length, ◌≡◌, refl, sym, ap, ◌∙◌, Bool, true, false, ◌||◌, none, some, [], ◌∷◌, pos, Ptr,
  null, ◌==◌, ==_iff, arith, Bool-cases, inl, inr,
}
use mathlib.Core.Option.{some-injective, none-ne-some}
use mcl.Keys.Compare.{eq_of_key_cmp}
use mcl.Hash.{Pair, Bucket, find_pair, delete_pair}
use mcl.Keys.{Key, calc_hash, key_cmp}

unfoldable pub has_addr : Ptr → Bucket → Bool
has_addr a [] = false
has_addr a (p ∷ ps) = (p.addr == a) || has_addr a ps

-- The pairs belong at this index, no value is NULL, and no key and no address is there twice.
abbrev pub IsBucket : ℕ → Bucket → Type 0
IsBucket h [] = Unit
IsBucket h (p ∷ ps) =
    (calc_hash p.key ≡ pos h)
    × ((p.val == null) ≡ false)
    × (find_pair p.key ps ≡ none)
    × (has_addr p.addr ps ≡ false)
    × IsBucket h ps

-- What a successful lookup finds, at the head or behind it.
find_pair-head :
    (k : Key) (q : Pair) (qs : Bucket) {p : Pair}
    → key_cmp k q.key ≡ true
    → find_pair k (q ∷ qs) ≡ some p
    → q ≡ p
unfolding find_pair
find_pair-head k q qs {p} t e = some-injective q p (rw t at e)

find_pair-tail :
    (k : Key) (q : Pair) (qs : Bucket)
    → key_cmp k q.key ≡ false
    → find_pair k (q ∷ qs) ≡ find_pair k qs
unfolding find_pair
find_pair-tail k q qs f = rw f refl

pub find_pair-key : (k : Key) (b : Bucket) {p : Pair} → find_pair k b ≡ some p → k ≡ p.key
unfolding find_pair
find_pair-key k [] {p} e = elim (none-ne-some p e) [ ]
find_pair-key k (q ∷ qs) {p} e = elim (Bool-cases (key_cmp k q.key)) [
  | inl t ↦ eq_of_key_cmp k q.key t ∙ ap (λ x. x.key) (find_pair-head k q qs t e)
  | inr f ↦ find_pair-key k qs (sym (find_pair-tail k q qs f) ∙ e)
]

-- A pair found has a value.
pub find_pair-filled :
    (h : ℕ) (k : Key) (b : Bucket) {p : Pair}
    → IsBucket h b
    → find_pair k b ≡ some p
    → (p.val == null) ≡ false
unfolding find_pair
find_pair-filled h k [] {p} s e = elim (none-ne-some p e) [ ]
find_pair-filled h k (q ∷ qs) {p} s e = elim (Bool-cases (key_cmp k q.key)) [
  | inl t ↦ ap (λ x. x.val == null) (sym (find_pair-head k q qs t e)) ∙ s.1
  | inr f ↦ find_pair-filled h k qs s.4 (sym (find_pair-tail k q qs f) ∙ e)
]

has_addr-find_pair :
    (k : Key) (b : Bucket) {p : Pair} → find_pair k b ≡ some p → has_addr p.addr b ≡ true
unfolding has_addr find_pair
has_addr-find_pair k [] {p} e = elim (none-ne-some p e) [ ]
has_addr-find_pair k (q ∷ qs) {p} e = elim (Bool-cases (key_cmp k q.key)) [
  | inl t ↦ let m = ap (λ x. x.addr) (find_pair-head k q qs t e) in ground arith
  | inr f ↦ let m = has_addr-find_pair k qs (sym (find_pair-tail k q qs f) ∙ e) in ground arith
]

differs_addr :
    (a c : Ptr) (b : Bucket) → has_addr c b ≡ true → has_addr a b ≡ false → (a == c) ≡ false
differs_addr a c b t f = elim (Bool-cases (a == c)) [
  | inl e ↦ let same = ap (λ x. has_addr x b) ((==_iff a c).0 e) in ground arith
  | inr e ↦ e
]

-- The pair found is the one deleted: its key is gone, and all others are found as before.
module _ (h : ℕ) (k : Key) where
  pub find_pair-delete_pair :
      (b : Bucket) {p : Pair}
      → IsBucket h b
      → find_pair k b ≡ some p
      → find_pair k (delete_pair p.addr b) ≡ none
  unfolding delete_pair find_pair
  find_pair-delete_pair [] {p} s e = elim (none-ne-some p e) [ ]
  find_pair-delete_pair (q ∷ qs) {p} s e = elim (Bool-cases (key_cmp k q.key)) [
    | inl t ↦
        let same : (q.addr == p.addr) ≡ true =
          (==_iff q.addr p.addr).1 (ap (λ x. x.addr) (find_pair-head k q qs t e)) in
        rw same (ap (λ j. find_pair j qs) (eq_of_key_cmp k q.key t) ∙ s.2)
    | inr f ↦
        let e' = sym (find_pair-tail k q qs f) ∙ e in
        let differs : (q.addr == p.addr) ≡ false =
          differs_addr q.addr p.addr qs (has_addr-find_pair k qs e') s.3 in
        rw differs (find_pair-tail k q (delete_pair p.addr qs) f ∙ find_pair-delete_pair qs s.4 e')
  ]

  pub find_pair-delete_pair_other :
      (j : Key)
      → key_cmp j k ≡ false
      → (b : Bucket) {p : Pair} → IsBucket h b
      → find_pair k b ≡ some p
      → find_pair j (delete_pair p.addr b) ≡ find_pair j b
  unfolding delete_pair find_pair
  find_pair-delete_pair_other j ne [] {p} s e = elim (none-ne-some p e) [ ]
  find_pair-delete_pair_other j ne (q ∷ qs) {p} s e = elim (Bool-cases (key_cmp k q.key)) [
    | inl t ↦
        let same : (q.addr == p.addr) ≡ true =
          (==_iff q.addr p.addr).1 (ap (λ x. x.addr) (find_pair-head k q qs t e)) in
        let past : key_cmp j q.key ≡ false = ap (key_cmp j) (sym (eq_of_key_cmp k q.key t)) ∙ ne in
        rw (same, past) refl
    | inr f ↦
        let e' = sym (find_pair-tail k q qs f) ∙ e in
        let differs = differs_addr q.addr p.addr qs (has_addr-find_pair k qs e') s.3 in
        rw (differs, find_pair-delete_pair_other j ne qs s.4 e') refl
  ]

-- Deleting keeps what is not there, and the invariant.
module _ (a : Ptr) where
  find_pair-delete_pair-none :
      (k : Key) (b : Bucket) → find_pair k b ≡ none → find_pair k (delete_pair a b) ≡ none
  unfolding find_pair delete_pair
  find_pair-delete_pair-none k [] e = refl
  find_pair-delete_pair-none k (q ∷ qs) e = elim (Bool-cases (key_cmp k q.key)) [
    | inl t ↦ elim (none-ne-some q (sym e ∙ rw t refl)) [ ]
    | inr f ↦
        let later = find_pair-delete_pair-none k qs (sym (find_pair-tail k q qs f) ∙ e) in
        elim (Bool-cases (q.addr == a)) [
          | inl t ↦ rw t (sym (find_pair-tail k q qs f) ∙ e)
          | inr g ↦ rw (g, f) later
        ]
  ]

  pub has_addr-delete_pair :
      (c : Ptr) (b : Bucket) → has_addr c b ≡ false → has_addr c (delete_pair a b) ≡ false
  unfolding has_addr delete_pair
  has_addr-delete_pair c [] e = refl
  has_addr-delete_pair c (q ∷ qs) e = ground (arith, has_addr-delete_pair c qs)

  pub delete_pair-IsBucket : (h : ℕ) (b : Bucket) → IsBucket h b → IsBucket h (delete_pair a b)
  unfolding delete_pair
  delete_pair-IsBucket h [] s = tt
  delete_pair-IsBucket h (q ∷ qs) s = elim (Bool-cases (q.addr == a)) [
    | inl t ↦ rw t s.4
    | inr f ↦ rw f (
      s.0,
      s.1,
      find_pair-delete_pair-none q.key qs s.2,
      has_addr-delete_pair q.addr qs s.3,
      delete_pair-IsBucket h qs s.4,
    )
  ]

  pub length-delete_pair : (b : Bucket) → length (delete_pair a b) ≤ length b
  unfolding delete_pair
  length-delete_pair [] = omega arith
  length-delete_pair (q ∷ qs) = ground (arith, length-delete_pair qs)
