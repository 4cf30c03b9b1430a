-- ===== src/Keys/Compare.antt =====
-- Comparing the keys of util/mcl_hash.c tells which are equal.
use mcl.Base.{
  ◌≡◌, refl, ap, ◌∙◌, ℕ, Bool, true, false, ◌&&◌, List, [], ◌∷◌, ℤ, pos, negsuc, ◌==◌, ==_iff,
  arith,
}
use mcl.Keys.{Key, int, str, int_cmp, same_text, key_cmp}

int_cmp_self : (k : ℤ) → int_cmp k k ≡ true
int_cmp_self (pos n) = ground arith
int_cmp_self (negsuc n) = ground arith

eq_of_int_cmp : (j k : ℤ) → int_cmp j k ≡ true → j ≡ k
eq_of_int_cmp (pos m) (pos n) e = ap pos (ground arith)
eq_of_int_cmp (pos m) (negsuc n) e = ground arith
eq_of_int_cmp (negsuc m) (pos n) e = ground arith
eq_of_int_cmp (negsuc m) (negsuc n) e = ap negsuc (ground arith)

same_text_self : (s : List ℕ) → same_text s s ≡ true
same_text_self [] = refl
same_text_self (c ∷ cs) = rw ((==_iff c c).1 refl) (same_text_self cs)

and_left : (a b : Bool) → a && b ≡ true → a ≡ true
and_left true b e = refl
and_left false b e = e

and_right : (a b : Bool) → a && b ≡ true → b ≡ true
and_right true b e = e
and_right false b e = ground arith

eq_of_same_text : (s t : List ℕ) → same_text s t ≡ true → s ≡ t
eq_of_same_text [] [] e = refl
eq_of_same_text [] (d ∷ ds) e = ground arith
eq_of_same_text (c ∷ cs) [] e = ground arith
eq_of_same_text (c ∷ cs) (d ∷ ds) e =
    let head = (==_iff c d).0 (and_left (c == d) (same_text cs ds) e) in
    let tail = eq_of_same_text cs ds (and_right (c == d) (same_text cs ds) e) in
    ap (λ x. x ∷ cs) head ∙ ap (λ xs. d ∷ xs) tail

pub key_cmp_self : (k : Key) → key_cmp k k ≡ true
key_cmp_self (int n) = int_cmp_self n
key_cmp_self (str s) = same_text_self s

pub eq_of_key_cmp : (j k : Key) → key_cmp j k ≡ true → j ≡ k
eq_of_key_cmp (int m) (int n) e = ap int (eq_of_int_cmp m n e)
eq_of_key_cmp (int m) (str t) e = ground arith
eq_of_key_cmp (str s) (int n) e = ground arith
eq_of_key_cmp (str s) (str t) e = ap str (eq_of_same_text s t e)
