-- ===== src/Heap.antt =====
-- The heap on which util/mcl_list.c keeps its nodes, and the commands that read and write it. An
-- address stands for an `mcl_list_node` or for the `mcl_list` whose `_entries` is the ring's head;
-- `_entry` and `_entries` are first members, so a node and its entry have one address.
pub mod Chain
use mcl.Base.{
  Bool, true, false, Option, none, some, Run, ok, fault, ◌≡◌, refl, Ptr, null, ◌==◌, if◌then◌else◌,
  arith, ◌++◌,
}

-- `next`, `prev` and `item` are `none` where the member is indeterminate or, for `item` at an
-- `mcl_list`, where there is no such member.
pub record Heap : Type 0 where
  pub live : Ptr → Bool
  pub next : Ptr → Option Ptr
  pub prev : Ptr → Option Ptr
  pub item : Ptr → Option Ptr

abbrev pub Cmd : Type 0 → Type 0
Cmd A = Heap → Run (A × Heap)

abbrev pub pure : {A : Type 0} → A → Cmd A
pure a h = ok (a, h)

abbrev pub and_then : {A B : Type 0} → Run (A × Heap) → (A → Cmd B) → Run (B × Heap)
and_then (ok (a, h)) k = k a h
and_then fault k = fault

infixl 5 ◌>>=◌ ◌>>◌
abbrev pub ◌>>=◌ : {A B : Type 0} → Cmd A → (A → Cmd B) → Cmd B
m >>= k = λ h. and_then (m h) k

abbrev pub ◌>>◌ : {B : Type 0} → Cmd (Unit {0}) → Cmd B → Cmd B
m >> k = m >>= λ _. k

abbrev pub update {ℓ} : {A : Type ℓ} → (Ptr → A) → Ptr → A → Ptr → A
update f p v q = if q == p then v else f q

-- A member of the object at `p`: a fault if there is no object or the member is indeterminate.
fetch : Bool → Option Ptr → Heap → Run (Ptr × Heap)
fetch true (some v) h = ok (v, h)
fetch true none h = fault
fetch false v h = fault

unfoldable pub get_next : Ptr → Cmd Ptr
unfolding fetch
get_next p h = fetch (h.live p) (h.next p) h

unfoldable pub get_prev : Ptr → Cmd Ptr
unfolding fetch
get_prev p h = fetch (h.live p) (h.prev p) h

unfoldable pub get_item : Ptr → Cmd Ptr
unfolding fetch
get_item p h = fetch (h.live p) (h.item p) h

unfoldable pub set_next : Ptr → Ptr → Cmd (Unit {0})
set_next p v h = if h.live p then ok (tt, record h { next = update h.next p (some v) }) else fault

unfoldable pub set_prev : Ptr → Ptr → Cmd (Unit {0})
set_prev p v h = if h.live p then ok (tt, record h { prev = update h.prev p (some v) }) else fault

unfoldable pub set_item : Ptr → Ptr → Cmd (Unit {0})
set_item p v h = if h.live p then ok (tt, record h { item = update h.item p (some v) }) else fault

-- `p` is what `malloc` returned. The source does not test it, and writes through it.
unfoldable pub alloc : Ptr → Cmd (Unit {0})
alloc p h =
    if p == null
    then fault
    else ok (
      tt,
      record h {
        live = update h.live p true;
        next = update h.next p none;
        prev = update h.prev p none;
        item = update h.item p none;
      },
    )

-- Freeing what is not allocated is a fault.
unfoldable pub free : Ptr → Cmd (Unit {0})
free p h =
    if h.live p
    then ok (
      tt,
      record h {
        live = update h.live p false;
        next = update h.next p none;
        prev = update h.prev p none;
        item = update h.item p none;
      },
    )
    else fault
