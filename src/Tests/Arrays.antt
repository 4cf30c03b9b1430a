-- ===== src/Tests/Arrays.antt =====
-- Arrays of util/mcl_array.c at concrete values.
use mcl.Base.{
  ℕ, ◌^◌, ◌≤◌, ◌<◌, ◌≡◌, refl, Bool, some, List, [], ◌∷◌, Ptr, ok, fault, ◌>>=◌, Returns, pos,
  length, get_elem?, remove_range, arith, ltb,
}
use mcl.Array.{Array, tighten}
use mcl.Array.View.{IsArray, HasRoom, Yields}
use mcl.Array.Insert
use mcl.Array.Delete
use mcl.Array.Delete.Loops.{free_calls}
use mcl.Array.Delete.Range.{delete_range_equal}
use mcl.Array.Limits.{insert_empty, delete_empty_faults}
use mcl.Array.Sizes.{append-tighten_empty}
use mcl.Array.Iter.{iter_head}
use mcl.Array.Iter.EraseLoop.{SweepsTo, sweep, sweep-reject}
use mcl.Array.Api
use mcl.Array.Api.{ArrayCall, call}
use mcl.Array.Api.Spec.{spec}
use mcl.Array.Api.Session.{AreAllowed, session, spec_session, session-spec_session}

-- An array of these elements and this capacity, with the erase function at address 7.
abbrev array_of : List Ptr → ℕ → Array
array_of xs n = record {
  all_data = record { size = n; cell = λ i. get_elem? xs i };
  cur_size = length xs;
  total_size = n;
  erase_fn = some 7;
}

array_of-IsArray : (xs : List Ptr) (n : ℕ) → length xs ≤ n → n < 2 ^ 31 → IsArray (array_of xs n) xs
array_of-IsArray xs n fits small = record {
  size = refl;
  total = refl;
  fits = fits;
  small = small;
  cells = λ i h. refl;
}

abbrev tens : List Ptr
tens = 10 ∷ 20 ∷ 30 ∷ []

-- A full array, and one with a free cell.
abbrev full : Array
full = array_of tens 3

abbrev loose : Array
loose = array_of tens 8

abbrev nothing : Array
nothing = array_of [] 4

full-IsArray : IsArray full tens
full-IsArray = array_of-IsArray tens 3 (omega arith) (omega arith)

loose-IsArray : IsArray loose tens
loose-IsArray = array_of-IsArray tens 8 (omega arith) (omega arith)

nothing-IsArray : IsArray nothing []
nothing-IsArray = array_of-IsArray [] 4 (omega arith) (omega arith)

full-HasRoom : HasRoom full
full-HasRoom = record { capacity = omega arith; below = omega arith }

abbrev calls : List ArrayCall
calls =
    Api.append 40
    ∷ Api.delete (pos 0) 7
    ∷ Api.delete_indx (pos 9) 7
    ∷ Api.preappend 5
    ∷ Api.insert 15 (pos 0)
    ∷ Api.destroy 7
    ∷ []

calls-AreAllowed : AreAllowed calls (some tens)
unfolding spec
calls-AreAllowed = (
  omega arith,
  (omega arith, (omega arith, (omega arith, ((omega arith, omega arith), (tt, tt))))),
)

session-spec_session_example : session calls (some full) ≡ ok (spec_session calls (some tens))
session-spec_session_example =
    session-spec_session calls (some full) (some tens) (full-IsArray, omega arith) calls-AreAllowed

delete_range_equal_example :
    Returns
      (Delete.delete_range (pos 1) (pos 1) 7 full)
      (Yields full (remove_range 1 2 tens) (free_calls 7 20) (pos 1))
delete_range_equal_example = delete_range_equal full-IsArray 7 1 refl

append-tighten_empty_example :
    (Insert.append 5 (tighten nothing) ≡ fault) × (Insert.preappend 5 (tighten nothing) ≡ fault)
append-tighten_empty_example = append-tighten_empty nothing-IsArray 5

insert_empty_example : Returns (Insert.insert 5 (pos 0) nothing) λ o.
    (o.ret ≡ pos 1)
    × (o.array.cur_size ≡ 1)
    × (o.array.all_data.cell 0 ≡ nothing.all_data.cell 0)
    × (o.array.all_data.cell 1 ≡ some 5)
insert_empty_example = insert_empty nothing-IsArray 5 (omega arith)

delete_empty_faults_example :
    (Delete.delete_indx (pos 0) 7 nothing ≡ fault) × (Delete.delete (pos 0) 7 nothing ≡ fault)
delete_empty_faults_example = delete_empty_faults nothing-IsArray 7

-- The elements from 20 on.
abbrev large : Ptr → Bool
large p = ltb 15 p

sweep-reject_example : SweepsTo 7 large [] tens (iter_head full >>= λ it. sweep 4 large it full)
sweep-reject_example =
    sweep-reject large tens 4 full-IsArray refl (refl, (refl, (refl, tt))) (omega arith)
