-- ===== src/LinkedList/Calls.antt =====
-- The operations of util/mcl_list.c as calls of a client, and their specification by the plain
-- sequence of the data.
use mathlib.Core.Option
use mcl.Base.{
  ℕ, ◌≡◌, Bool, true, false, Option, none, some, ok, fault, List, [], ◌∷◌, ◌++◌, Ptr, null, FreeFn,
  Call, length, leb, ◌==◌, if◌then◌else◌,
}
use mcl.Heap.{Heap, Cmd, pure, ◌>>=◌}
use mcl.LinkedList.Freeing.{freed_by, wants}
use mcl.LinkedList.{LinkedList, max_size, CmpFn, compares, Deleted, free_item}
use mcl.LinkedList

pub data ListCall : Type 0 where
  insert : (fresh : Ptr) → Ptr → ListCall
  insert_tail : (fresh : Ptr) → Ptr → ListCall
  delete : Ptr → FreeFn → ListCall
  del_cmp : Ptr → CmpFn → FreeFn → ListCall
  size : ListCall

-- What the client sees of a call: the data that were freed, and the result.
pub record Seen : Type 0 where
  pub calls : List Call
  pub ret : ℕ

abbrev pub seen : List Call → ℕ → Seen
seen cs r = record { calls = cs; ret = r }

abbrev pub int_of : Bool → ℕ
int_of b = if b then 1 else 0

abbrev pub inserted : Bool × LinkedList → Option (LinkedList × Seen)
inserted (b, l) = some (l, seen [] (int_of b))

abbrev pub deleted : LinkedList × Deleted → LinkedList × Seen
deleted (l, (found, calls)) = (l, seen calls (int_of found))

unfoldable pub call : ℕ → ListCall → LinkedList → Cmd (Option (LinkedList × Seen))
call fuel (insert fresh d) l = do r ← LinkedList.insert fresh d l; pure (inserted r)
call fuel (insert_tail fresh d) l = do r ← LinkedList.insert_tail fresh d l; pure (inserted r)
call fuel (delete d fn) l = do r ← LinkedList.delete fuel d l fn; pure (Option.map deleted r)
call fuel (del_cmp d cmp fn) l = do
  r ← LinkedList.del_cmp fuel d l cmp fn
  pure (Option.map deleted r)
call fuel size l = pure (some (l, seen [] (LinkedList.size l)))

-- A deletion from the sequence of the data: of the first that the test wants.
unfoldable pub remove_first : (Ptr → Bool) → List Ptr → List Ptr
remove_first want [] = []
remove_first want (d ∷ ds) = if want d then ds else d ∷ remove_first want ds

unfoldable pub removal : (Ptr → Bool) → FreeFn → List Ptr → Seen
removal want fn [] = seen [] 0
removal want fn (d ∷ ds) = if want d then seen (freed_by true fn d) 1 else removal want fn ds

unfoldable pub spec : ListCall → List Ptr → List Ptr × Seen
spec (insert fresh d) ds = if leb max_size (length ds) then (ds, seen [] 0) else (d ∷ ds, seen [] 1)
spec (insert_tail fresh d) ds =
    if leb max_size (length ds) then (ds, seen [] 0) else (ds ++ (d ∷ []), seen [] 1)
spec (delete d fn) ds = (remove_first (wants none d) ds, removal (wants none d) fn ds)
spec (del_cmp d cmp fn) ds = (remove_first (wants cmp d) ds, removal (wants cmp d) fn ds)
spec size ds = (ds, seen [] (length ds))

-- What `malloc` returns for a node is not NULL, and not in use.
abbrev pub IsNew : Ptr → Heap → Type 0
IsNew fresh h = ((fresh == null) ≡ false) × (h.live fresh ≡ false)

abbrev pub IsAllowed : ListCall → Heap → Type 0
IsAllowed (insert fresh d) h = IsNew fresh h
IsAllowed (insert_tail fresh d) h = IsNew fresh h
IsAllowed (delete d fn) h = Unit
IsAllowed (del_cmp d cmp fn) h = Unit
IsAllowed size h = Unit

-- A sequence of calls, and at its end `mcl_list_destroy`.
unfoldable pub session : ℕ → FreeFn → List ListCall → LinkedList → Cmd (Option (List Seen))
unfolding call
session fuel fn [] l = do
  r ← LinkedList.destroy fuel l fn
  pure (Option.map (λ cs. seen cs 0 ∷ []) r)
session fuel fn (c ∷ cs) l = do
  r ← call fuel c l
  elim r [
    | none ↦ pure none
    | some (l', s) ↦ (do rest ← session fuel fn cs l'; pure (Option.map (λ ss. s ∷ ss) rest))
  ]

unfoldable pub free_all : FreeFn → List Ptr → List Call
free_all fn [] = []
free_all fn (d ∷ ds) = freed_by true fn d ++ free_all fn ds

unfoldable pub spec_session : FreeFn → List ListCall → List Ptr → List Seen
unfolding spec free_all
spec_session fn [] ds = seen (free_all fn ds) 0 ∷ []
spec_session fn (c ∷ cs) ds = let r = spec c ds in r.1 ∷ spec_session fn cs r.0

-- Every call is allowed in the memory that the calls before it leave.
abbrev pub AreAllowed : ℕ → List ListCall → LinkedList → Heap → Type 0
AreAllowed fuel [] l h = Unit
AreAllowed fuel (c ∷ cs) l h = IsAllowed c h × elim (call fuel c l h) [
  | fault ↦ Unit
  | ok (none, h') ↦ Unit
  | ok (some (l', s), h') ↦ AreAllowed fuel cs l' h'
]
