-- ===== src/LinkedList.antt =====
-- The circular doubly linked list of util/mcl_list.c, over an explicit heap. A loop takes fuel and
-- gives `none` if that runs out. The functions that test for a NULL list are modelled on one that
-- is not NULL.
pub mod Iter
pub mod Ring
pub mod Insert
pub mod Unlink
pub mod Freeing
pub mod Delete
pub mod Walk
pub mod Destroy
pub mod Find
pub mod Calls
pub mod Session
use mcl.Base.{
  CtrlCmd, regist_erase_fn, unregist_erase_fn, unknown_cmd, ℕ, zero, suc, ◌+◌, ◌-◌, ◌*◌, Bool, true,
  false, ◌&&◌, ◌||◌, not, Option, none, some, List, [], ◌∷◌, ◌++◌, Ptr, null, FreeFn, Call, leb,
  ◌==◌, if◌then◌else◌,
}
use mathlib.Core.Option
use mcl.Heap.{
  Cmd, pure, and_then, ◌>>=◌, ◌>>◌, get_next, get_prev, get_item, set_next, set_prev, set_item,
  alloc, free,
}

-- `mcl_list` without the ring's head, which stands on the heap at `entries`, and without the six
-- iterator functions, which are the same in every list.
pub record LinkedList : Type 0 where
  pub entries : Ptr
  pub list_sz : ℕ
  pub erase_fn : FreeFn

-- `MCL_LIST_MAX_SIZE`
abbrev pub max_size : ℕ
max_size = 1024 * 1024

-- `_LIST_INSERT`
unfoldable pub list_insert : (elem p n : Ptr) → Cmd (Unit {0})
list_insert elem p n = do set_prev elem p; set_next elem n; set_prev n elem; set_next p elem

-- `mcl_list_new`, with the address that `malloc` returns
unfoldable pub new : Ptr → Cmd LinkedList
new fresh = do
  alloc fresh
  set_prev fresh fresh
  set_next fresh fresh
  pure (record { entries = fresh; list_sz = 0; erase_fn = null })

-- `mcl_list_insert`: the list afterwards and whether the result is 1
unfoldable pub insert : (fresh : Ptr) → Ptr → LinkedList → Cmd (Bool × LinkedList)
unfolding list_insert
insert fresh d l = if leb max_size l.list_sz then pure (false, l) else do
  alloc fresh
  set_item fresh d
  n ← get_next l.entries
  list_insert fresh l.entries n
  pure (true, record l { list_sz = l.list_sz + 1 })

-- `mcl_list_insert_tail`
unfoldable pub insert_tail : (fresh : Ptr) → Ptr → LinkedList → Cmd (Bool × LinkedList)
unfolding list_insert
insert_tail fresh d l = if leb max_size l.list_sz then pure (false, l) else do
  alloc fresh
  set_item fresh d
  p ← get_prev l.entries
  list_insert fresh p l.entries
  pure (true, record l { list_sz = l.list_sz + 1 })

-- A comparison function, `none` for NULL. It is called on the pointers; what it reads through them
-- does not change.
abbrev pub CmpFn : Type 0
CmpFn = Option (Ptr → Ptr → Bool)

abbrev pub compares : CmpFn → Ptr → Ptr → Bool
compares none d d' = false
compares (some cmp) d d' = cmp d d'

-- `if (free_flag && node->_data && free_fn) free_fn(node->_data);`
unfoldable pub free_item : Bool → FreeFn → Ptr → List Call
free_item flag fn d = if flag && not (d == null) && not (fn == null) then (fn, d) ∷ [] else []

-- `HANDLE_ELEM`, less the count
unfoldable pub handle_elem : Ptr → Bool → FreeFn → Cmd (List Call)
unfolding free_item
handle_elem ent flag fn = do
  p ← get_prev ent
  n ← get_next ent
  set_next p n
  n' ← get_next ent
  p' ← get_prev ent
  set_prev n' p'
  d ← get_item ent
  free ent
  pure (free_item flag fn d)

-- Whether a node was found and deleted, and the calls made.
abbrev pub Deleted : Type 0
Deleted = Bool × List Call

unfoldable pub del_loop :
    ℕ → Ptr → (entries ent : Ptr) → Bool → CmpFn → FreeFn → Cmd (Option Deleted)
unfolding handle_elem
del_loop zero d entries ent flag cmp fn = pure none
del_loop (suc k) d entries ent flag cmp fn = if ent == entries then pure (some (false, [])) else do
  d' ← get_item ent
  if compares cmp d d' || (d' == d)
      then (do calls ← handle_elem ent flag fn; pure (some (true, calls)))
      else do n ← get_next ent; del_loop k d entries n flag cmp fn

abbrev pub counted : LinkedList → Option Deleted → Option (LinkedList × Deleted)
counted l none = none
counted l (some (true, calls)) = some (record l { list_sz = l.list_sz - 1 }, (true, calls))
counted l (some (false, calls)) = some (l, (false, calls))

-- `list_del`. An empty ring is the one whose head follows itself.
unfoldable pub list_del :
    ℕ → Ptr → LinkedList → Bool → CmpFn → FreeFn → Cmd (Option (LinkedList × Deleted))
unfolding del_loop
list_del fuel d l flag cmp fn = do
  n ← get_next l.entries
  if l.entries == n
      then pure (some (l, (false, [])))
      else do r ← del_loop fuel d l.entries n flag cmp fn; pure (counted l r)

-- `mcl_list_delete`
unfoldable pub delete : ℕ → Ptr → LinkedList → FreeFn → Cmd (Option (LinkedList × Deleted))
delete fuel d l fn = list_del fuel d l true none fn

-- `mcl_list_del_cmp`
unfoldable pub del_cmp : ℕ → Ptr → LinkedList → CmpFn → FreeFn → Cmd (Option (LinkedList × Deleted))
del_cmp fuel d l cmp fn = list_del fuel d l true cmp fn

unfoldable pub destroy_loop : ℕ → (entries ent : Ptr) → FreeFn → Cmd (Option (List Call))
unfolding free_item
destroy_loop zero entries ent fn = pure none
destroy_loop (suc k) entries ent fn = if ent == entries then pure (some []) else do
  d ← get_item ent
  n ← get_next ent
  free ent
  rest ← destroy_loop k entries n fn
  pure (Option.map (λ cs. free_item true fn d ++ cs) rest)

-- `mcl_list_destroy`
unfoldable pub destroy : ℕ → LinkedList → FreeFn → Cmd (Option (List Call))
unfolding destroy_loop
destroy fuel l fn = do
  n ← get_next l.entries
  calls ← (if l.entries == n then pure (some []) else destroy_loop fuel l.entries n fn)
  free l.entries
  pure calls

-- `mcl_list_size`
unfoldable pub size : LinkedList → ℕ
size l = l.list_sz

set_erase_fn : CtrlCmd → Ptr → LinkedList → LinkedList × Bool
set_erase_fn regist_erase_fn fn l = (record l { erase_fn = fn }, true)
set_erase_fn unregist_erase_fn fn l = (record l { erase_fn = null }, true)
set_erase_fn (unknown_cmd c) fn l = (l, false)

-- `mcl_list_ctrl`
unfoldable pub ctrl : CtrlCmd → Ptr → LinkedList → LinkedList × Bool
unfolding set_erase_fn
ctrl cmd fn l = if fn == null then (l, false) else set_erase_fn cmd fn l
