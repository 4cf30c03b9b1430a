-- ===== src/Tests/Hashes.antt =====
-- Tables of util/mcl_hash.c with one pair, and a bucket in memory.
use mcl.Base.{
  ℕ, ◌+◌, ◌<◌, Bool, true, List, Call, ◌≡◌, refl, false, none, some, [], ◌∷◌, pos, negsuc, null,
  Returns, ok, ◌==◌, arith,
}
use mcl.LinkedList
use mcl.LinkedList.{LinkedList, Deleted}
use mcl.LinkedList.Iter
use mcl.Hash.{
  find_key, delete_key, hash_insert, Pair, Bucket, Hash, change, find_pair, delete_pair, store,
  insert, insert_safe, find, clean,
}
use mcl.Keys.{Key, int, max_hash_size, cal_hash_int, calc_hash, cal_hash_str}
use mcl.Keys.Elf.{cal_hash_str-index}
use mcl.Hash.Buckets.{IsBucket, has_addr}
use mcl.Hash.Map.{IsHash, index, index-Hashes, store-IsHash}
use mcl.Hash.Insert.{Rebinds, insert-Rebinds, insert_negative}
use mcl.Hash.Delete.{Removes, delete-Removes}
use mcl.Hash.Clean.{pairs, free_values, addresses, clean-find}
use mcl.Hash.InMemory.{InMemory, cmp_key, addr_or_null, find-find_pair, delete-delete_pair}
use mcl.Hash.Iter.{iter_head, sweep}
use mcl.Hash.Iter.Walk.{at_cursor, ats, ats_in}
use mcl.Hash.Iter.Sweep.{visit, sweep_snapshot}
use mcl.Tests.Lists.{ring, two, ring-IsList, nodes}

abbrev pub empty : Hash
empty = record { tables = λ i. none; erase_fn = null }

pub empty-IsHash : IsHash empty
empty-IsHash = λ i. tt

-- The key 5, with the value 500.
abbrev pub five : Pair
five = record { addr = 50; key = int (pos 5); val = 500 }

abbrev pub table : Hash
table = store (index 5) (some (five ∷ [])) empty

pub five-IsBucket : IsBucket (index 5) (five ∷ [])
unfolding calc_hash cal_hash_int find_pair has_addr
five-IsBucket = (refl, refl, refl, refl, tt)

pub table-IsHash : IsHash table
table-IsHash = store-IsHash (index 5) (five ∷ []) empty empty-IsHash five-IsBucket

find_five : find_key (int (pos 5)) table ≡ 500
unfolding find_key calc_hash cal_hash_int find_pair
find_five = refl

find_six : find_key (int (pos 6)) table ≡ null
unfolding find_key calc_hash cal_hash_int find_pair
find_six = refl

five_filled : (find_key (int (pos 5)) table == null) ≡ false
unfolding find_key calc_hash cal_hash_int find_pair
five_filled = refl

no_addr : has_addr 60 (five ∷ []) ≡ false
unfolding has_addr
no_addr = refl

insert-Rebinds_example :
    Rebinds table (int (pos 5)) (index 5) 600 7 (hash_insert 60 (int (pos 5)) 600 true 7 table)
insert-Rebinds_example =
    insert-Rebinds 60 (int (pos 5)) (index 5) 600 table (index-Hashes 5) table-IsHash refl no_addr
      (omega arith) 7

no_addr_six : has_addr 60 [] ≡ false
unfolding has_addr
no_addr_six = refl

insert_negative_example :
    (insert 60 (negsuc 0) 600 7 table ≡ change table [] (60 ∷ []) 0)
    × (insert_safe 60 (negsuc 0) 600 table ≡ change table [] (60 ∷ []) 0)
    × (find (negsuc 0) table ≡ null)
insert_negative_example = insert_negative 60 0 600 7 table refl (omega arith)

delete-Removes_example : Removes table (int (pos 5)) (index 5) 7 (delete_key (int (pos 5)) 7 table)
delete-Removes_example =
    delete-Removes (int (pos 5)) (index 5) 7 table (index-Hashes 5) table-IsHash five_filled

clean-find_example :
    ((clean 7 table).calls ≡ free_values 7 (pairs max_hash_size 0 table))
    × ((clean 7 table).freed ≡ addresses (pairs max_hash_size 0 table))
    × ((j : Key) → find_key j (clean 7 table).table ≡ null)
clean-find_example = clean-find 7 table

-- The ring of two nodes as a bucket: the pairs at 20 and 30 have the keys 20 and 30.
abbrev bucket : Bucket
bucket =
    record { addr = 20; key = int (pos 20); val = 500 }
    ∷ record { addr = 30; key = int (pos 30); val = 600 }
    ∷ []

bucket-InMemory : InMemory (λ a. int (pos a)) ring two bucket
bucket-InMemory = (nodes, ring-IsList, (refl, refl, refl, (refl, refl, refl, tt)))

find-find_pair_example :
    Iter.find 3 99 two (cmp_key (λ a. int (pos a)) (int (pos 30))) ring
    ≡ ok (some (addr_or_null (λ a. int (pos a)) (find_pair (int (pos 30)) bucket)), ring)
find-find_pair_example =
    find-find_pair (λ a. int (pos a)) 3 (int (pos 30)) 99 ring two bucket refl bucket-InMemory
      (omega arith)

delete-delete_pair_example : Returns (LinkedList.delete 3 30 two null ring) λ o.
    (l : LinkedList) × (r : Deleted) × (o.0 ≡ some (l, r))
    × InMemory (λ a. int (pos a)) o.1 l (delete_pair 30 bucket)
delete-delete_pair_example =
    delete-delete_pair (λ a. int (pos a)) 3 30 ring two bucket bucket-InMemory (omega arith)

-- A loop that erases each pair and adds up the values.
abbrev erase_all : Pair → ℕ → Bool × ℕ
erase_all p n = (true, n + p.val)

abbrev no_cleanup : List Call → Pair → ℕ → ℕ
no_cleanup cs p n = n

table_ats : ats max_hash_size 0 table ≡ at_cursor (index 5) five ∷ []
unfolding ats ats_in
table_ats = refl

sweep_snapshot_example :
    sweep erase_all no_cleanup 2 (iter_head table) table 0
    ≡ ok (some (visit erase_all no_cleanup (ats max_hash_size 0 table) table 0))
sweep_snapshot_example =
    sweep_snapshot erase_all no_cleanup 2 table 0 table-IsHash (rw table_ats (omega arith))

-- Nine characters, one of them above 127.
abbrev name : List ℕ
name = 97 ∷ 98 ∷ 99 ∷ 200 ∷ 101 ∷ 102 ∷ 103 ∷ 104 ∷ 105 ∷ []

cal_hash_str-index_example : (i : ℕ) × (i < max_hash_size) × (cal_hash_str name ≡ pos i)
cal_hash_str-index_example = cal_hash_str-index name
