-- ===== src/Array/Api/Refines.antt =====
-- The calls on an array do what their specification says.
use mcl.Base.{
  CtrlCmd, regist_erase_fn, unregist_erase_fn, unknown_cmd, ℕ, ◌+◌, ◌-◌, ◌^◌, ◌<◌, ◌≡◌, refl, ap,
  Option, none, some, List, [], Ptr, null, FreeFn, Call, Run, ok, ◌>>=◌, Returns, ℤ, pos, negsuc,
  minus_one, length, get_elem?, get_elem?-eq-some, lt_of_get_elem?, le_of_get_elem?-none, ltb, ◌==◌,
  Option-cases, Bool-cases, inl, inr, ==_iff, arith,
}
use mcl.Array
use mcl.Array.{Array, Outcome, outcome}
use mcl.Array.View.{IsArray, Yields}
use mcl.Array.Insert.AsList.{append-Yields, preappend-Yields, insert-Yields, preinsert-Yields}
use mcl.Array.Delete.Loops.{calls_of, find_index}
use mcl.Array.Delete.AsList.{
  delete_indx-Yields, delete-Yields, delete_obj_absent, delete_obj-Yields, clean-IsArray,
  find_index-le, get_elem?-find_index,
}
use mcl.Array.Delete.Range.{delete_range-Yields, delete_range_equal, delete_range_inverted}
use mcl.Array.Limits.{IsOutside, outside_refused}
use mcl.Array.Sizes.{at-get_elem?, tighten-IsArray}
use mcl.Array.Api.{
  ArrayCall, append, preappend, insert, preinsert, delete_indx, delete, delete_obj, delete_range,
  clean, tighten, at, size, ctrl, destroy, void, int, pointer, Reply, reply, replies, call,
  call_array,
}
use mcl.Array.Api.Spec.{Effect, effect, refuse, spec, IsUsable, IsAllowed}

-- An array with capacity that stands for the list; destroyed where the list is gone.
abbrev pub Shows : Option Array → Option (List Ptr) → Type 0
Shows none none = Unit
Shows none (some xs) = ⊥
Shows (some a) none = ⊥
Shows (some a) (some xs) = IsArray a xs × (0 < a.total_size)

pub record Refines (e : Effect) (r : Reply) : Type 0 where
  pub array : Shows r.array e.elems
  pub calls : r.calls ≡ e.calls
  pub ret : r.ret ≡ e.ret

module _ {a : Array} {xs : List Ptr} (v : IsArray a xs) (pos_cap : 0 < a.total_size) where
  from_Yields :
      {r : Run Outcome} {ys : List Ptr} {cs : List Call} {z : ℤ}
      → Returns r (Yields a ys cs z)
      → Returns (r >>= λ o. ok (replies o)) (Refines (effect ys cs (int z)))
  from_Yields (o, run, y) = (
    replies o,
    rw run,
    record { array = (y.models, omega (arith, y.capacity)); calls = y.calls; ret = ap int y.ret },
  )

  from_refusal :
      {r : Run Outcome}
      → r ≡ ok (outcome a [] minus_one)
      → Returns (r >>= λ o. ok (replies o)) (Refines (refuse xs))
  from_refusal e = (
    replies (outcome a [] minus_one),
    rw e,
    record { array = (v, pos_cap); calls = refl; ret = refl },
  )

  IsOutside-of_none : (i : ℕ) → 0 < i + length xs → get_elem? xs i ≡ none → IsOutside (pos i) xs
  IsOutside-of_none i u e = omega (arith, le_of_get_elem?-none xs i e)

  module _ (p fn : Ptr) where
    insert-Refines :
        (i : ℤ)
        → IsUsable i xs
        → length xs < 2 ^ 30
        → Returns (call_array (insert p i) a) (Refines (spec (insert p i) xs))
    unfolding call_array spec
    insert-Refines (negsuc n) u h = from_refusal (outside_refused (negsuc n) (pos 0) p fn v tt).0
    insert-Refines (pos i) u h = elim (Option-cases (get_elem? xs i)) [
      | inl e ↦
          rw e (from_refusal (outside_refused (pos i) (pos 0) p fn v (IsOutside-of_none i u e)).0)
      | inr (x, e) ↦
          rw e (from_Yields (insert-Yields v (omega (arith, v.size)) i p (lt_of_get_elem? xs i e)))
    ]

    preinsert-Refines :
        (i : ℤ)
        → IsUsable i xs
        → length xs < 2 ^ 30
        → Returns (call_array (preinsert p i) a) (Refines (spec (preinsert p i) xs))
    unfolding call_array spec
    preinsert-Refines (negsuc n) u h = from_refusal (outside_refused (negsuc n) (pos 0) p fn v tt).1
    preinsert-Refines (pos i) u h = elim (Option-cases (get_elem? xs i)) [
      | inl e ↦
          rw e (from_refusal (outside_refused (pos i) (pos 0) p fn v (IsOutside-of_none i u e)).1)
      | inr (x, e) ↦
          rw e
            (from_Yields (preinsert-Yields v (omega (arith, v.size)) i p (lt_of_get_elem? xs i e)))
    ]

    delete_indx-Refines :
        (i : ℤ)
        → IsUsable i xs
        → Returns (call_array (delete_indx i fn) a) (Refines (spec (delete_indx i fn) xs))
    unfolding call_array spec
    delete_indx-Refines (negsuc n) u = from_refusal (outside_refused (negsuc n) (pos 0) p fn v tt).2
    delete_indx-Refines (pos i) u = elim (Option-cases (get_elem? xs i)) [
      | inl e ↦
          rw e (from_refusal (outside_refused (pos i) (pos 0) p fn v (IsOutside-of_none i u e)).2)
      | inr (x, e) ↦ rw e (from_Yields (delete_indx-Yields v fn i e))
    ]

    delete-Refines :
        (i : ℤ)
        → IsUsable i xs
        → Returns (call_array (delete i fn) a) (Refines (spec (delete i fn) xs))
    unfolding call_array spec
    delete-Refines (negsuc n) u = from_refusal (outside_refused (negsuc n) (pos 0) p fn v tt).3
    delete-Refines (pos i) u = elim (Option-cases (get_elem? xs i)) [
      | inl e ↦
          rw e (from_refusal (outside_refused (pos i) (pos 0) p fn v (IsOutside-of_none i u e)).3)
      | inr (x, e) ↦
          let h = lt_of_get_elem? xs i e in
          let (y, f) = get_elem?-eq-some xs (length xs - 1) (omega arith) in
          rw (e, f) (from_Yields (delete-Yields v fn i e f))
    ]

    at-Refines : (i : ℤ) → IsUsable i xs → Returns (call_array (at i) a) (Refines (spec (at i) xs))
    unfolding call_array spec
    at-Refines (negsuc n) u = (
      reply (some a) [] (pointer null),
      rw (outside_refused (negsuc n) (pos 0) p fn v tt).6,
      record { array = (v, pos_cap); calls = refl; ret = refl },
    )
    at-Refines (pos i) u = elim (Option-cases (get_elem? xs i)) [
      | inl e ↦ rw e (
        reply (some a) [] (pointer null),
        rw (outside_refused (pos i) (pos 0) p fn v (IsOutside-of_none i u e)).6,
        record { array = (v, pos_cap); calls = refl; ret = refl },
      )
      | inr (x, e) ↦ rw e (
        reply (some a) [] (pointer x),
        rw (at-get_elem? v i e),
        record { array = (v, pos_cap); calls = refl; ret = refl },
      )
    ]

    delete_range-Refines_inside :
        (b e : ℕ) {x y : Ptr}
        → get_elem? xs b ≡ some x
        → get_elem? xs e ≡ some y
        → Returns
            (call_array (delete_range (pos b) (pos e) fn) a)
            (Refines (spec (delete_range (pos b) (pos e) fn) xs))
    unfolding call_array spec
    delete_range-Refines_inside b e {x} {y} f g =
        let h = lt_of_get_elem? xs b f in
        let k = lt_of_get_elem? xs e g in
        rw (f, g)
          (elim (Bool-cases (ltb e b)) [
            | inl back ↦ rw back (from_refusal (delete_range_inverted v fn b e (ground arith) h))
            | inr forth ↦ rw forth (elim (Bool-cases (b == e)) [
              | inl same ↦
                  rw (same, ← (==_iff b e).0 same) (from_Yields (delete_range_equal v fn b f))
              | inr apart ↦ rw apart (from_Yields (delete_range-Yields v fn b e (ground arith) k))
            ])
          ])

    delete_range-Refines :
        (b e : ℤ)
        → IsUsable b xs
        → IsUsable e xs
        → Returns (call_array (delete_range b e fn) a) (Refines (spec (delete_range b e fn) xs))
    unfolding call_array spec
    delete_range-Refines (negsuc n) e u w = from_refusal (outside_refused (negsuc n) e p fn v tt).4
    delete_range-Refines (pos b) (negsuc n) u w = elim (Option-cases (get_elem? xs b)) [
      | inl f ↦ rw f (from_refusal (outside_refused (negsuc n) (pos b) p fn v tt).5)
      | inr (x, f) ↦ rw f (from_refusal (outside_refused (negsuc n) (pos b) p fn v tt).5)
    ]
    delete_range-Refines (pos b) (pos e) u w = elim (Option-cases (get_elem? xs b)) [
      | inl f ↦
          rw f (from_refusal (outside_refused (pos b) (pos e) p fn v (IsOutside-of_none b u f)).4)
      | inr (x, f) ↦ elim (Option-cases (get_elem? xs e)) [
        | inl g ↦
            rw (f, g)
              (from_refusal (outside_refused (pos e) (pos b) p fn v (IsOutside-of_none e w g)).5)
        | inr (y, g) ↦ delete_range-Refines_inside b e f g
      ]
    ]

    delete_obj-Refines :
        Returns (call_array (delete_obj p fn) a) (Refines (spec (delete_obj p fn) xs))
    unfolding call_array spec
    delete_obj-Refines = elim (Option-cases (get_elem? xs (find_index p xs))) [
      | inl e ↦
          let h = le_of_get_elem?-none xs (find_index p xs) e in
          rw e (from_refusal (delete_obj_absent v fn p (omega (arith, find_index-le p xs))))
      | inr (x, e) ↦
          let h = lt_of_get_elem? xs (find_index p xs) e in
          let (y, f) = get_elem?-eq-some xs (length xs - 1) (omega arith) in
          rw (get_elem?-find_index p xs h, f) (from_Yields (delete_obj-Yields v fn p h f))
    ]

  IsArray-erase_fn : (f : Option FreeFn) → IsArray (record a { erase_fn = f }) xs
  IsArray-erase_fn f = record {
    size = v.size;
    total = v.total;
    fits = v.fits;
    small = v.small;
    cells = v.cells;
  }

  ctrl-Refines :
      (cmd : CtrlCmd) (p : Ptr) → Refines (spec (ctrl cmd p) xs) (replies (Array.ctrl cmd p a))
  unfolding spec Array.ctrl
  ctrl-Refines (unknown_cmd c) p = elim (Bool-cases (p == null)) [
    | inl e ↦ rw e (record { array = (v, pos_cap); calls = refl; ret = refl })
    | inr e ↦ rw e (record { array = (v, pos_cap); calls = refl; ret = refl })
  ]
  ctrl-Refines regist_erase_fn p = elim (Bool-cases (p == null)) [
    | inl e ↦ rw e (record { array = (v, pos_cap); calls = refl; ret = refl })
    | inr e ↦
        rw e (record { array = (IsArray-erase_fn (some p), pos_cap); calls = refl; ret = refl })
  ]
  ctrl-Refines unregist_erase_fn p = elim (Bool-cases (p == null)) [
    | inl e ↦ rw e (record { array = (v, pos_cap); calls = refl; ret = refl })
    | inr e ↦
        rw e (record { array = (IsArray-erase_fn (some null), pos_cap); calls = refl; ret = refl })
  ]

  -- An allowed call on an array with capacity runs without a fault, the array afterwards stands
  -- for the specified elements, and the calls of the free function and the result are the
  -- specified ones.
  pub call-Refines :
      (c : ArrayCall) → IsAllowed c xs → Returns (call c (some a)) (Refines (spec c xs))
  unfolding call call_array spec
  call-Refines (append p) h = from_Yields (append-Yields v (omega (arith, v.size)) p)
  call-Refines (preappend p) h = from_Yields (preappend-Yields v (omega (arith, v.size)) p)
  call-Refines (insert p i) (u, h) = insert-Refines p 0 i u h
  call-Refines (preinsert p i) (u, h) = preinsert-Refines p 0 i u h
  call-Refines (delete_indx i fn) u = delete_indx-Refines 0 fn i u
  call-Refines (delete i fn) u = delete-Refines 0 fn i u
  call-Refines (delete_obj p fn) u = delete_obj-Refines p fn
  call-Refines (delete_range b e fn) (u, w) = delete_range-Refines 0 fn b e u w
  call-Refines (clean fn) u =
      let (a', run, m, cap, kept) = clean-IsArray v fn in
      (
        reply (some a') (calls_of fn xs) void,
        rw run,
        record { array = (m, rw cap pos_cap); calls = refl; ret = refl },
      )
  call-Refines tighten h =
      let (m, cap) = tighten-IsArray v in
      (
        reply (some (Array.tighten a)) [] void,
        refl,
        record { array = (m, ground arith); calls = refl; ret = refl },
      )
  call-Refines (at i) u = at-Refines 0 0 i u
  call-Refines size u = (
    reply (some a) [] (int (pos a.cur_size)),
    refl,
    record { array = (v, pos_cap); calls = refl; ret = rw v.size },
  )
  call-Refines (ctrl cmd p) u = (replies (Array.ctrl cmd p a), refl, ctrl-Refines cmd p)
  call-Refines (destroy fn) u =
      let (a', run, m, cap, kept) = clean-IsArray v fn in
      (reply none (calls_of fn xs) void, rw run, record { array = tt; calls = refl; ret = refl })
