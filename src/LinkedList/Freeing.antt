-- ===== src/LinkedList/Freeing.antt =====
-- When util/mcl_list.c calls a free function on the data of a node, and which data a deletion wants,
-- case by case.
use mcl.Base.{
  zero, suc, ◌≡◌, refl, Bool, true, false, ◌||◌, none, some, List, [], ◌∷◌, Ptr, FreeFn, Call, ◌==◌,
  if◌then◌else◌, arith,
}
use mcl.LinkedList.{CmpFn, compares, free_item}

-- No call when none is asked for, without a function, and on NULL.
unfoldable pub freed_by : Bool → FreeFn → Ptr → List Call
freed_by false fn d = []
freed_by true zero d = []
freed_by true (suc fn) zero = []
freed_by true (suc fn) (suc d) = (suc fn, suc d) ∷ []

pub free_item-freed_by :
    (flag : Bool) (fn : FreeFn) (d : Ptr) → free_item flag fn d ≡ freed_by flag fn d
unfolding free_item freed_by
free_item-freed_by false fn d = refl
free_item-freed_by true zero zero = refl
free_item-freed_by true zero (suc d) = ground arith
free_item-freed_by true (suc fn) zero = refl
free_item-freed_by true (suc fn) (suc d) = ground arith

-- The pointer itself, and with a comparison function also what compares equal.
abbrev pub wants : CmpFn → Ptr → Ptr → Bool
wants none d d' = d' == d
wants (some cmp) d d' = if d' == d then true else cmp d d'

pub compares-wants : (cmp : CmpFn) (d d' : Ptr) → (compares cmp d d' || (d' == d)) ≡ wants cmp d d'
compares-wants none d d' = refl
compares-wants (some cmp) d d' = ground arith
