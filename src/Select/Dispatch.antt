-- ===== src/Select/Dispatch.antt =====
-- The event loop of net/mcl_select.c.
use mcl.Base.{
  ℕ, zero, suc, Bool, true, false, not, ◌||◌, ◌&&◌, Option, none, some, List, [], ◌∷◌, ◌++◌, Run,
  ok, fault, ◌>>=◌, ℤ, pos, negsuc, subscript, null, Call, ◌==◌, if◌then◌else◌,
}
use mcl.Keys.{Key, int, str}
use mcl.Hash.{Hash, Pair}
use mcl.Hash.Iter.{iter_head, sweep}
use mcl.Event.{Event, EventCall, call_back, ev_read, ev_write, ev_exp, has_persist}
use mcl.Select.{Memory, deref, EvSet, SelectDb, fd_clr, zero_fds, run_frees}
use mcl.Select.Update.{fd_set}

-- `*(int *)` of a key, which must be one of an `int`
abbrev pub int_at : Key → Run ℤ
int_at (int n) = ok n
int_at (str s) = fault

-- What a loop over a set works on: the bits, the memory, the calls made so far.
pub record Handling : Type 0 where
  pub fds : ℕ → Bool
  pub memory : Memory
  pub calls : List EventCall

-- One round of the loop of `handle_events`, up to the test for erasing, and the calls that it makes.
module _ (ty : ℕ) where
  -- The calls made for a pair whose bit is set.
  abbrev pub notify : ℤ → Event → List EventCall
  notify fd e = if ty == ev_exp then call_back e.error_cb fd ty e else call_back e.callback fd ty e

  -- `!(MCL_EV_TYPE(ev) & MCL_EV_PERSIST) || err`
  abbrev pub is_over : Event → Bool
  is_over e = not (has_persist e.ev_type) || (ty == ev_exp && not (e.error_cb == null))

  unfoldable pub handle_ready : ℤ → Pair → Handling → Run (Bool × Handling)
  handle_ready fd p s = do
    ev ← deref s.memory.nodes p.val
    e ← deref s.memory.events ev
    ok (is_over e, record s { calls = s.calls ++ notify fd e })

  unfoldable pub handle_pair : Pair → Handling → Run (Bool × Handling)
  unfolding handle_ready
  handle_pair p s = do
    fd ← int_at p.key
    if s.fds (subscript fd) then handle_ready fd p s else ok (false, s)

  abbrev pub body : Pair → Run Handling → Bool × Run Handling
  body p fault = (false, fault)
  body p (ok s) = elim (handle_pair p s) [ fault ↦ (false, fault) | ok (gone, s') ↦ (gone, ok s') ]

  -- The erasing has called `event_ht_free`; `FD_CLR` follows it.
  abbrev pub erased : List Call → Pair → Run Handling → Run Handling
  erased cs p fault = fault
  erased cs p (ok s) = do
    fd ← int_at p.key
    (m, es) ← run_frees cs s.memory
    ok (record { fds = fd_clr fd s.fds; memory = m; calls = s.calls ++ es })

-- What handling a set leaves.
pub record Handled : Type 0 where
  pub evset : EvSet
  pub memory : Memory
  pub calls : List EventCall

unfoldable pub finish : Option (Hash × Run Handling) → Run (Option Handled)
finish none = ok none
finish (some (ht, r)) = do
  s ← r
  ok (some (record { evset = record { ht = ht; fds = s.fds }; memory = s.memory; calls = s.calls }))

-- `handle_events`
unfoldable pub handle_events : ℕ → EvSet → (ty : ℕ) → Memory → Run (Option Handled)
unfolding handle_pair finish
handle_events fuel evset ty m = do
  let s : Run Handling = ok (record { fds = evset.fds; memory = m; calls = [] })
  r ← sweep (body ty) (erased ty) fuel (iter_head evset.ht) evset.ht s
  finish r

-- `init_fds`: a loop that erases nothing
abbrev pub set_key : ℕ → Pair → Run (ℕ → Bool) → Bool × Run (ℕ → Bool)
set_key fd_setsize p f = (false, do fd ← int_at p.key; fds ← f; fd_set fd_setsize fd fds)

unfoldable pub with_fds : Hash → Option (Hash × Run (ℕ → Bool)) → Run (Option EvSet)
with_fds ht none = ok none
with_fds ht (some (t, r)) = do f ← r; ok (some (record { ht = ht; fds = f }))

unfoldable pub init_fds : (fd_setsize fuel : ℕ) → EvSet → Run (Option EvSet)
unfolding with_fds
init_fds fd_setsize fuel evset = do
  r ← sweep (set_key fd_setsize) (λ cs p f. f) fuel (iter_head evset.ht) evset.ht (ok zero_fds)
  with_fds evset.ht r

-- The bits of the three sets.
pub record Bits : Type 0 where
  pub reads : ℕ → Bool
  pub writes : ℕ → Bool
  pub exceptions : ℕ → Bool

abbrev pub bits_of : SelectDb → Bits
bits_of db = record { reads = db.in_evs.fds; writes = db.out_evs.fds; exceptions = db.exp_evs.fds }

abbrev pub with_bits : Bits → SelectDb → SelectDb
with_bits b db = record db {
  in_evs = record db.in_evs { fds = b.reads };
  out_evs = record db.out_evs { fds = b.writes };
  exp_evs = record db.exp_evs { fds = b.exceptions };
}

-- The state between two rounds of `select_dispatch`, with all calls made so far.
pub record Loop (S : Type 0) : Type 0 where
  pub db : SelectDb
  pub memory : Memory
  pub calls : List EventCall
  pub term_flag : Bool
  pub os : S

-- How the loop ends: what `select_dispatch` returns, and the state.
abbrev pub Ended : Type 0 → Type 0
Ended S = Run (Option (ℕ × Loop S))

abbrev pub any : (EventCall → Bool) → List EventCall → Bool
any f [] = false
any f (c ∷ cs) = f c || any f cs

infixl 5 ◌>>?◌
-- The next step, unless the fuel has run out.
abbrev pub ◌>>?◌ : {A B : Type 0} → Run (Option A) → (A → Run (Option B)) → Run (Option B)
m >>? k = do r ← m; elim r [ none ↦ ok none | some a ↦ k a ]

-- `select` is select(2) without its timeout: from the number of descriptors and the bits, what it
-- returns and the bits afterwards. `exits` says which calls of a callback call
-- `mcl_event_loopexit`.
module _ {S : Type 0} (fd_setsize : ℕ) (select : ℕ → Bits → S → (ℤ × Bits) × S)
    (exits : EventCall → Bool) where
  -- The three `handle_events` of a round.
  unfoldable pub handle_all : ℕ → Loop S → Run (Option (Loop S))
  unfolding handle_events
  handle_all fuel l = handle_events fuel l.db.in_evs ev_read l.memory >>? λ i.
      handle_events fuel l.db.out_evs ev_write i.memory >>? λ o.
      handle_events fuel l.db.exp_evs ev_exp o.memory >>? λ x.
      (let calls = i.calls ++ (o.calls ++ x.calls) in
        ok (
          some (record l {
            db = record l.db { in_evs = i.evset; out_evs = o.evset; exp_evs = x.evset };
            memory = x.memory;
            calls = l.calls ++ calls;
            term_flag = l.term_flag || any exits calls;
          })))

  -- The three `init_fds` of a round.
  unfoldable pub init_all : ℕ → SelectDb → Run (Option SelectDb)
  unfolding init_fds
  init_all fuel db = init_fds fd_setsize fuel db.in_evs >>? λ i.
      init_fds fd_setsize fuel db.out_evs >>? λ o. init_fds fd_setsize fuel db.exp_evs >>? λ x.
      ok (some (record db { in_evs = i; out_evs = o; exp_evs = x }))

  -- `select_dispatch`, with `k` rounds at most
  unfoldable pub select_dispatch : (k fuel : ℕ) → Loop S → Ended S
  unfolding init_all handle_all
  select_dispatch zero fuel l = ok none
  select_dispatch (suc k) fuel l = elim l.term_flag [
    | true ↦ ok (some (1, l))
    | false ↦ init_all fuel l.db >>? λ db.
        (let ((r, bits), os') = select (suc db.n_maxfdn) (bits_of db) l.os in
          let l' : Loop S = record l { db = with_bits bits db; os = os' } in
          elim r [
            | negsuc n ↦ ok (some (0, l'))
            | pos n ↦ elim n [
              | zero ↦ select_dispatch k fuel l'
              | suc j ↦ handle_all fuel l' >>? λ l''. select_dispatch k fuel l''
            ]
          ])
  ]
