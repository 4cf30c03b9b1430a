-- ===== src/Array/Api.antt =====
-- The calls of util/mcl_array.h on an array that may be NULL, as one step.
pub mod Spec
pub mod Refines
pub mod Session
use mcl.Base.{
  CtrlCmd, regist_erase_fn, unregist_erase_fn, unknown_cmd, Option, none, some, List, [], Run, ok,
  fault, ◌>>=◌, ℤ, pos, minus_one, Ptr, null, FreeFn, Call,
}
use mcl.Array
use mcl.Array.{Array, Outcome}
use mcl.Array.Insert
use mcl.Array.Delete

pub data ArrayCall : Type 0 where
  append : Ptr → ArrayCall
  preappend : Ptr → ArrayCall
  insert : Ptr → ℤ → ArrayCall
  preinsert : Ptr → ℤ → ArrayCall
  delete_indx : ℤ → FreeFn → ArrayCall
  delete : ℤ → FreeFn → ArrayCall
  delete_obj : Ptr → FreeFn → ArrayCall
  delete_range : ℤ → ℤ → FreeFn → ArrayCall
  clean : FreeFn → ArrayCall
  tighten : ArrayCall
  at : ℤ → ArrayCall
  size : ArrayCall
  ctrl : CtrlCmd → Ptr → ArrayCall
  destroy : FreeFn → ArrayCall

pub data Ret : Type 0 where
  void : Ret
  int : ℤ → Ret
  pointer : Ptr → Ret

-- No array is left behind a NULL one and behind `mcl_array_destroy`.
pub record Reply : Type 0 where
  pub array : Option Array
  pub calls : List Call
  pub ret : Ret

abbrev pub reply : Option Array → List Call → Ret → Reply
reply a cs r = record { array = a; calls = cs; ret = r }

abbrev pub replies : Outcome → Reply
replies o = reply (some o.array) o.calls (int o.ret)

-- A NULL array: three calls dereference it.
unfoldable pub call_null : ArrayCall → Run Reply
call_null (append p) = fault
call_null (preappend p) = fault
call_null (insert p i) = ok (reply none [] (int minus_one))
call_null (preinsert p i) = ok (reply none [] (int minus_one))
call_null (delete_indx i fn) = ok (reply none [] (int minus_one))
call_null (delete i fn) = ok (reply none [] (int minus_one))
call_null (delete_obj p fn) = fault
call_null (delete_range b e fn) = ok (reply none [] (int minus_one))
call_null (clean fn) = ok (reply none [] void)
call_null tighten = ok (reply none [] void)
call_null (at i) = ok (reply none [] (pointer null))
call_null size = ok (reply none [] (int minus_one))
call_null (ctrl cmd p) = ok (reply none [] (int (pos 0)))
call_null (destroy fn) = ok (reply none [] void)

unfoldable pub call_array : ArrayCall → Array → Run Reply
call_array (append p) a = do o ← Insert.append p a; ok (replies o)
call_array (preappend p) a = do o ← Insert.preappend p a; ok (replies o)
call_array (insert p i) a = do o ← Insert.insert p i a; ok (replies o)
call_array (preinsert p i) a = do o ← Insert.preinsert p i a; ok (replies o)
call_array (delete_indx i fn) a = do o ← Delete.delete_indx i fn a; ok (replies o)
call_array (delete i fn) a = do o ← Delete.delete i fn a; ok (replies o)
call_array (delete_obj p fn) a = do o ← Delete.delete_obj p fn a; ok (replies o)
call_array (delete_range b e fn) a = do o ← Delete.delete_range b e fn a; ok (replies o)
call_array (clean fn) a = do (a', cs) ← Array.clean fn a; ok (reply (some a') cs void)
call_array tighten a = ok (reply (some (Array.tighten a)) [] void)
call_array (at i) a = do p ← Array.at i a; ok (reply (some a) [] (pointer p))
call_array size a = ok (reply (some a) [] (int (pos a.cur_size)))
call_array (ctrl cmd p) a = ok (replies (Array.ctrl cmd p a))
call_array (destroy fn) a = do (a', cs) ← Array.clean fn a; ok (reply none cs void)

pub call : ArrayCall → Option Array → Run Reply
unfolding call_null call_array
call c none = call_null c
call c (some a) = call_array c a
