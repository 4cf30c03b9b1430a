-- ===== src/Array/Api/Spec.antt =====
-- What the calls on an array promise, over the list of its elements.
use mcl.Base.{
  CtrlCmd, regist_erase_fn, unregist_erase_fn, unknown_cmd, ℕ, suc, ◌+◌, ◌-◌, ◌^◌, ◌<◌, Option,
  none, some, List, [], ◌∷◌, ◌++◌, Ptr, null, FreeFn, Call, ℤ, pos, negsuc, minus_one, length,
  get_elem?, set, drop_last, insert_at, remove_range, ltb, ◌==◌, if◌then◌else◌,
}
use mcl.Array.Delete.Loops.{free_calls, calls_of, find_index}
use mcl.Array.Delete.Range.{slice}
use mcl.Array.Api.{
  ArrayCall, append, preappend, insert, preinsert, delete_indx, delete, delete_obj, delete_range,
  clean, tighten, at, size, ctrl, destroy, Ret, void, int, pointer,
}

-- The elements afterwards (`none` once the array is destroyed), the calls made and the result.
pub record Effect : Type 0 where
  pub elems : Option (List Ptr)
  pub calls : List Call
  pub ret : Ret

abbrev pub effect : List Ptr → List Call → Ret → Effect
effect xs cs r = record { elems = some xs; calls = cs; ret = r }

abbrev pub refuse : List Ptr → Effect
refuse xs = effect xs [] (int minus_one)

-- The element at an index.
abbrev pub elem_at : ℤ → List Ptr → Option Ptr
elem_at (pos i) xs = get_elem? xs i
elem_at (negsuc n) xs = none

abbrev pub index : ℤ → ℕ
index (pos i) = i
index (negsuc n) = 0

put_last : Option Ptr → ℕ → List Ptr → List Ptr
put_last none i xs = xs
put_last (some y) i xs = drop_last (set xs i y)

-- The list in which the last element has taken the place of the one at `i`.
fill_with_last : ℕ → List Ptr → List Ptr
unfolding put_last
fill_with_last i xs = put_last (get_elem? xs (length xs - 1)) i xs

insert_effect : Ptr → ℤ → Option Ptr → List Ptr → Effect
insert_effect p i none xs = refuse xs
insert_effect p i (some x) xs =
    effect (insert_at (suc (index i)) p xs) [] (int (pos (suc (index i))))

preinsert_effect : Ptr → ℤ → Option Ptr → List Ptr → Effect
preinsert_effect p i none xs = refuse xs
preinsert_effect p i (some x) xs = effect (insert_at (index i) p xs) [] (int (pos (index i)))

delete_indx_effect : ℤ → FreeFn → Option Ptr → List Ptr → Effect
delete_indx_effect i fn none xs = refuse xs
delete_indx_effect i fn (some x) xs =
    effect (remove_range (index i) (suc (index i)) xs) (free_calls fn x) (int (pos (index i)))

delete_effect : ℤ → FreeFn → Option Ptr → List Ptr → Effect
delete_effect i fn none xs = refuse xs
delete_effect i fn (some x) xs =
    effect (fill_with_last (index i) xs) (free_calls fn x) (int (pos (index i)))

range_effect : ℕ → ℕ → FreeFn → Option Ptr → Option Ptr → List Ptr → Effect
range_effect b e fn none y xs = refuse xs
range_effect b e fn (some x) none xs = refuse xs
range_effect b e fn (some x) (some y) xs =
    if ltb e b
    then refuse xs
    else if b == e
    then effect (remove_range b (suc b) xs) (free_calls fn x) (int (pos 1))
    else effect (remove_range b e xs) (calls_of fn (slice b e xs)) (int (pos (e - b)))

ctrl_ret : CtrlCmd → Ptr → ℤ
ctrl_ret regist_erase_fn p = if p == null then pos 0 else pos 1
ctrl_ret unregist_erase_fn p = if p == null then pos 0 else pos 1
ctrl_ret (unknown_cmd c) p = pos 0

unfoldable pub spec : ArrayCall → List Ptr → Effect
unfolding insert_effect preinsert_effect delete_indx_effect delete_effect range_effect ctrl_ret
    fill_with_last
spec (append p) xs = effect (xs ++ (p ∷ [])) [] (int (pos (length xs)))
spec (preappend p) xs = effect (p ∷ xs) [] (int (pos 0))
spec (insert p i) xs = insert_effect p i (elem_at i xs) xs
spec (preinsert p i) xs = preinsert_effect p i (elem_at i xs) xs
spec (delete_indx i fn) xs = delete_indx_effect i fn (elem_at i xs) xs
spec (delete i fn) xs = delete_effect i fn (elem_at i xs) xs
spec (delete_obj p fn) xs =
    delete_effect (pos (find_index p xs)) fn (get_elem? xs (find_index p xs)) xs
spec (delete_range b e fn) xs = range_effect (index b) (index e) fn (elem_at b xs) (elem_at e xs) xs
spec (clean fn) xs = effect [] (calls_of fn xs) void
spec tighten xs = effect xs [] void
spec (at i) xs = effect xs [] (pointer (elim (elem_at i xs) [ none ↦ null | some x ↦ x ]))
spec size xs = effect xs [] (int (pos (length xs)))
spec (ctrl cmd p) xs = effect xs [] (int (ctrl_ret cmd p))
spec (destroy fn) xs = record { elems = none; calls = calls_of fn xs; ret = void }

-- The index is not 0, or there is an element.
abbrev pub IsUsable : ℤ → List Ptr → Type 0
IsUsable (pos i) xs = 0 < i + length xs
IsUsable (negsuc n) xs = Unit

-- The calls that the specification covers: an insertion keeps the number of elements below 2^30,
-- an index is usable, and an array without elements is not tightened.
abbrev pub IsAllowed : ArrayCall → List Ptr → Type 0
IsAllowed (append p) xs = length xs < 2 ^ 30
IsAllowed (preappend p) xs = length xs < 2 ^ 30
IsAllowed (insert p i) xs = IsUsable i xs × (length xs < 2 ^ 30)
IsAllowed (preinsert p i) xs = IsUsable i xs × (length xs < 2 ^ 30)
IsAllowed (delete_indx i fn) xs = IsUsable i xs
IsAllowed (delete i fn) xs = IsUsable i xs
IsAllowed (delete_obj p fn) xs = Unit
IsAllowed (delete_range b e fn) xs = IsUsable b xs × IsUsable e xs
IsAllowed (clean fn) xs = Unit
IsAllowed tighten xs = 0 < length xs
IsAllowed (at i) xs = IsUsable i xs
IsAllowed size xs = Unit
IsAllowed (ctrl cmd p) xs = Unit
IsAllowed (destroy fn) xs = Unit
