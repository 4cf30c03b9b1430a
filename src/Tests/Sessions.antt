-- ===== src/Tests/Sessions.antt =====
-- A session with a table of util/mcl_hash.c.
use mcl.Base.{◌≡◌, refl, List, [], ◌∷◌, pos, negsuc, null, arith}
use mcl.LinkedList.{free_item}
use mcl.Keys.{int, calc_hash, cal_hash_int}
use mcl.Hash
use mcl.Hash.{new}
use mcl.Hash.Map.{new-find}
use mcl.Hash.Buckets.{has_addr}
use mcl.Hash.Calls.{HashCall, insert, insert_safe, delete, find, call, spec, seen, Values, Shows}
use mcl.Hash.Session.{session, spec_session, AreAllowed, hash_session-spec_session}

-- An insertion, a refused one, one that replaces, one of a key without a place, and a deletion.
abbrev calls : List HashCall
calls =
    insert 50 (int (pos 5)) 500 7
    ∷ (insert_safe 60 (int (pos 5)) 600
        ∷ (insert 61 (int (pos 5)) 601 7
            ∷ (insert 62 (int (negsuc 0)) 602 7
                ∷ (find (int (pos 5)) ∷ (delete (int (pos 5)) 7 ∷ (find (int (pos 5)) ∷ []))))))

abbrev no_values : Values
no_values k = null

new-Shows : Shows new no_values
new-Shows = record { table = new-find.0; values = new-find.1 }

calls-AreAllowed : AreAllowed calls new
unfolding call new Hash.hash_insert Hash.do_hash_insert Hash.put_pair Hash.find_pair
    Hash.delete_pair has_addr calc_hash cal_hash_int
calls-AreAllowed = (
  (refl, omega arith),
  ((refl, omega arith), ((refl, omega arith), ((refl, omega arith), (tt, (tt, (tt, tt)))))),
)

hash_session-spec_session_example : session calls new ≡ spec_session calls no_values
hash_session-spec_session_example =
    hash_session-spec_session calls new no_values new-Shows calls-AreAllowed

seen_values :
    spec_session calls no_values
    ≡ seen [] 1
      ∷ (seen [] 0
          ∷ (seen ((7, 500) ∷ []) 1
              ∷ (seen [] 0 ∷ (seen [] 601 ∷ (seen ((7, 601) ∷ []) 1 ∷ (seen [] 0 ∷ []))))))
unfolding spec_session spec free_item calc_hash cal_hash_int
seen_values = refl
