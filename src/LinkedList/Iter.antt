-- ===== src/LinkedList/Iter.antt =====
-- The iterator of util/mcl_list.c, and `mcl_list_find`, which walks by it.
use mcl.Base.{
  ℕ, zero, suc, Bool, true, false, Option, none, some, Ptr, null, fault, ◌==◌, if◌then◌else◌,
}
use mcl.Heap.{Cmd, pure, ◌>>=◌, get_next, get_prev, get_item}
use mcl.LinkedList.{LinkedList, CmpFn, Deleted, list_del}

-- The members `_ptr`, the node, and `_data`, its entry. Both are NULL off the list.
pub record Iter : Type 0 where
  pub ptr : Ptr
  pub ent : Ptr

abbrev pub on : Ptr → Iter
on p = record { ptr = p; ent = p }

abbrev pub off : Iter
off = on null

unfoldable pub iter_head : LinkedList → Cmd Iter
iter_head l = do n ← get_next l.entries; pure (if l.entries == n then off else on n)

-- The source asks for the list's `_next` to see that it is not empty, and then goes by `_prev`.
unfoldable pub iter_tail : LinkedList → Cmd Iter
iter_tail l = do
  n ← get_next l.entries
  if l.entries == n then pure off else do p ← get_prev l.entries; pure (on p)

unfoldable pub iter_next : Iter → LinkedList → Cmd Iter
iter_next it l = do
  n ← get_next l.entries
  if l.entries == n
      then pure off
      else if it.ent == null
      then pure off
      else do n' ← get_next it.ent; pure (if n' == l.entries then off else on n')

unfoldable pub iter_prev : Iter → LinkedList → Cmd Iter
iter_prev it l = do
  n ← get_next l.entries
  if l.entries == n
      then pure off
      else if it.ent == null
      then pure off
      else do p ← get_prev it.ent; pure (if p == l.entries then off else on p)

-- A failed `assert` is a fault.
unfoldable pub iter_info : Iter → Cmd Ptr
iter_info it =
    if it.ent == null
    then pure null
    else if it.ptr == null
    then pure null
    else if it.ptr == it.ent
    then get_item it.ptr
    else λ h. fault

-- What `mcl_def_list_iter_erase` leaves: the list, what its deletion did, and the iterator.
pub record Erased : Type 0 where
  pub list : LinkedList
  pub deleted : Deleted
  pub iter : Iter

erased : Iter → Option (LinkedList × Deleted) → Option Erased
erased it none = none
erased it (some (l, d)) = some (record { list = l; deleted = d; iter = it })

-- The iterator moves on, and then the first node with the same data is deleted. `none` inside says
-- that the result is NULL, `none` outside that the fuel ran out.
unfoldable pub iter_erase : ℕ → Iter → LinkedList → Cmd (Option (Option Erased))
unfolding erased
iter_erase fuel it l =
    if it.ent == null
    then pure (some none)
    else if it.ptr == null
    then pure (some none)
    else if it.ptr == it.ent
    then (do
      d ← get_item it.ptr
      it' ← iter_next it l
      r ← list_del fuel d l (if l.erase_fn == null then false else true) none l.erase_fn
      pure (elim (erased it' r) [ none ↦ none | some e ↦ some (some e) ]))
    else λ h. fault

-- The test of `mcl_list_find`: by the function if there is one, else by address.
unfoldable pub matches : CmpFn → Ptr → Ptr → Bool
matches none d d' = d == d'
matches (some cmp) d d' = cmp d d'

unfoldable pub find_loop : ℕ → Iter → Ptr → LinkedList → CmpFn → Cmd (Option Ptr)
unfolding matches
find_loop zero it d l cmp = pure none
find_loop (suc k) it d l cmp = if it.ptr == null then pure (some null) else do
  d' ← iter_info it
  if d' == null
      then pure (some null)
      else if matches cmp d d'
      then pure (some d')
      else do it' ← iter_next it l; find_loop k it' d l cmp

-- `mcl_list_find`: NULL for data that is NULL
unfoldable pub find : ℕ → Ptr → LinkedList → CmpFn → Cmd (Option Ptr)
unfolding find_loop
find fuel d l cmp =
    if d == null then pure (some null) else do it ← iter_head l; find_loop fuel it d l cmp
