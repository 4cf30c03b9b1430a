-- ===== src/Hash/Iter/Middle.antt =====
-- A pair in the middle of a bucket of util/mcl_hash.c.
use mcl.Base.{ℕ, ◌≡◌, refl, ap, true, false, [], ◌∷◌, ◌++◌, ok, Ptr, ◌==◌, arith}
use mcl.Hash.{Pair, Bucket, delete_pair}
use mcl.Hash.Buckets.{IsBucket, has_addr}
use mcl.Hash.Iter.{list_next, first_pair}

pub addr_in_middle :
    (a : Ptr) (done : Bucket) (p : Pair) (ps : Bucket)
    → has_addr a (done ++ (p ∷ ps)) ≡ false
    → (p.addr == a) ≡ false
unfolding has_addr
addr_in_middle a [] p ps e = ground arith
addr_in_middle a (q ∷ done) p ps e = addr_in_middle a done p ps (ground arith)

-- A pair in the middle of a bucket.
pub has_addr-middle :
    (h : ℕ) (done : Bucket) (p : Pair) (ps : Bucket)
    → IsBucket h (done ++ (p ∷ ps))
    → has_addr p.addr done ≡ false
unfolding has_addr
has_addr-middle h [] p ps s = refl
has_addr-middle h (q ∷ done) p ps s =
    ground (arith, addr_in_middle q.addr done p ps s.3, has_addr-middle h done p ps s.4)

pub list_next-middle :
    (done : Bucket) (p : Pair) (ps : Bucket)
    → has_addr p.addr done ≡ false
    → list_next p.addr (done ++ (p ∷ ps)) ≡ ok (first_pair ps)
unfolding list_next has_addr
list_next-middle [] p ps e = let self : (p.addr == p.addr) ≡ true = ground arith in rw self refl
list_next-middle (q ∷ done) p ps e =
    let past : (q.addr == p.addr) ≡ false = ground arith in
    rw past (list_next-middle done p ps (ground arith))

pub delete_pair-middle :
    (done : Bucket) (p : Pair) (ps : Bucket)
    → has_addr p.addr done ≡ false
    → delete_pair p.addr (done ++ (p ∷ ps)) ≡ done ++ ps
unfolding delete_pair has_addr
delete_pair-middle [] p ps e = let self : (p.addr == p.addr) ≡ true = ground arith in rw self refl
delete_pair-middle (q ∷ done) p ps e =
    let past : (q.addr == p.addr) ≡ false = ground arith in
    rw past (ap (λ b. q ∷ b) (delete_pair-middle done p ps (ground arith)))
