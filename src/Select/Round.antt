-- ===== src/Select/Round.antt =====
-- A round of the event loop `select_dispatch` of net/mcl_select.c.
use mcl.Base.{
  ℕ, zero, suc, ◌<◌, ◌≡◌, refl, ap, ◌∙◌, Bool, true, false, some, List, [], ◌∷◌, ◌++◌, map, ok,
  ◌>>=◌, ℤ, pos, negsuc, length, length-map, Bool-cases, inl, inr,
}
use mathlib.Core.List.{append-nil}
use mcl.Keys.{max_hash_size}
use mcl.Hash.Map.{IsHash}
use mcl.Hash.Iter.Walk.{ats}
use mcl.Event.{EventCall, ev_read, ev_write, ev_exp}
use mcl.Select.{Memory, EvSet, SelectDb, event_ht_free_fn}
use mcl.Select.Deleting.{without}
use mcl.Select.Bits.{has_key, InSize, init_fds-keys}
use mcl.Select.Entries.{
  Entry, OwnFds, Apart, Owned, all_calls, table_after, memory_after, bits_after, ends,
  Owned-without,
}
use mcl.Select.Handling.{handle_events-handled}
use mcl.Select.Dispatch.{
  Bits, with_bits, Loop, any, Ended, ◌>>?◌, init_fds, init_all, handle_all, select_dispatch,
  Handled, handle_events,
}

-- A set whose entries are `xs`, in the table's order.
pub record Holds (size fuel : ℕ) (s : EvSet) (xs : List Entry) : Type 0 where
  pub table : IsHash s.ht
  pub frees : s.ht.erase_fn ≡ event_ht_free_fn
  pub entries : ats max_hash_size 0 s.ht ≡ map (λ x. x.at) xs
  pub own_fds : OwnFds xs
  pub in_size : InSize size (map (λ x. x.at) xs)
  pub enough : length xs < fuel

Apart-append_left : (x : Entry) (xs ys : List Entry) → Apart x (xs ++ ys) → Apart x xs
Apart-append_left x [] ys a = tt
Apart-append_left x (z ∷ xs) ys (d, a) = (d, Apart-append_left x xs ys a)

pub Owned-append_left : (xs ys : List Entry) (m : Memory) → Owned m (xs ++ ys) → Owned m xs
Owned-append_left [] ys m o = tt
Owned-append_left (x ∷ xs) ys m (key, nz, node, ev, apart, o) =
    (key, nz, node, ev, Apart-append_left x xs ys apart, Owned-append_left xs ys m o)

-- What handling some of the entries leaves of the others.
pub Owned-memory_after :
    (ty : ℕ) (ready : ℕ → Bool) (xs ys : List Entry) (m : Memory)
    → Owned m (xs ++ ys)
    → Owned (memory_after ty ready xs m) ys
Owned-memory_after ty ready [] ys m o = o
Owned-memory_after ty ready (x ∷ xs) ys m (key, nz, node, ev, apart, o) =
    elim (Bool-cases (ends ty ready x)) [
      | inl e ↦ rw e (
          Owned-memory_after ty ready xs ys (without x.at.pair.val x.ev m)
            (Owned-without x (xs ++ ys) m apart o))
      | inr e ↦ rw e (Owned-memory_after ty ready xs ys m o)
    ]

module _ (size fuel : ℕ) (s : EvSet) (xs : List Entry) (h : Holds size fuel s xs) where
  -- The bits are set for its keys.
  abbrev pub marked : EvSet
  marked = record { ht = s.ht; fds = λ n. has_key n (map (λ x. x.at) xs) }

  init_fds-marked : init_fds size fuel s ≡ ok (some marked)
  init_fds-marked =
      init_fds-keys size fuel s h.table (rw h.entries h.in_size)
        (rw (h.entries, length-map (λ x. x.at) xs) h.enough)
      ∙ ap (λ todo. ok (some (record { ht = s.ht; fds = λ n. has_key n todo }))) h.entries

  -- What is left of it once the ready ones are handled.
  abbrev pub served : ℕ → (ℕ → Bool) → Memory → Handled
  served ty ready m = record {
    evset = record { ht = table_after ty ready xs s.ht; fds = bits_after ty ready xs ready };
    memory = memory_after ty ready xs m;
    calls = all_calls ty ready xs;
  }

  handle_events-served :
      (ty : ℕ) (ready : ℕ → Bool) (m : Memory)
      → Owned m xs
      → handle_events fuel (record { ht = s.ht; fds = ready }) ty m ≡ ok (some (served ty ready m))
  handle_events-served ty ready m o =
      handle_events-handled fuel (record { ht = s.ht; fds = ready }) ty m xs h.table h.frees
        h.entries o h.own_fds h.enough

-- A loop whose sets have entries for reading and for writing, and none for exceptions.
module _ {S : Type 0} (size : ℕ) (select : ℕ → Bits → S → (ℤ × Bits) × S) (exits : EventCall → Bool)
    (fuel : ℕ) (l : Loop S) (xs ys : List Entry) (ins : Holds size fuel l.db.in_evs xs)
    (outs : Holds size fuel l.db.out_evs ys) (exps : Holds size fuel l.db.exp_evs []) where
  -- What `select` is given.
  abbrev pub marks : Bits
  marks = record {
    reads = (marked size fuel l.db.in_evs xs ins).fds;
    writes = (marked size fuel l.db.out_evs ys outs).fds;
    exceptions = (marked size fuel l.db.exp_evs [] exps).fds;
  }

  abbrev pub marked_db : SelectDb
  marked_db = record l.db {
    in_evs = marked size fuel l.db.in_evs xs ins;
    out_evs = marked size fuel l.db.out_evs ys outs;
    exp_evs = marked size fuel l.db.exp_evs [] exps;
  }

  init_all-marked : init_all size select exits fuel l.db ≡ ok (some marked_db)
  unfolding init_all
  init_all-marked =
      rw
        (
          init_all,
          ◌>>?◌,
          ◌>>=◌,
          init_fds-marked size fuel l.db.in_evs xs ins,
          init_fds-marked size fuel l.db.out_evs ys outs,
          init_fds-marked size fuel l.db.exp_evs [] exps,
        )
        refl

  -- The calls of a round in which `select` gives the bits `b`: those for reading first.
  abbrev pub calls_of : Bits → List EventCall
  calls_of b = all_calls ev_read b.reads xs ++ all_calls ev_write b.writes ys

  -- The loop behind that round.
  abbrev pub after : Bits → S → Loop S
  after b os' =
      let i = served size fuel l.db.in_evs xs ins ev_read b.reads l.memory in
      let o = served size fuel l.db.out_evs ys outs ev_write b.writes i.memory in
      record {
        db = record l.db {
          in_evs = i.evset;
          out_evs = o.evset;
          exp_evs = record l.db.exp_evs { fds = b.exceptions };
        };
        memory = o.memory;
        calls = l.calls ++ calls_of b;
        term_flag = any exits (calls_of b);
        os = os';
      }

  pub handle_all-after :
      (b : Bits) (os' : S)
      → Owned l.memory (xs ++ ys)
      → handle_all size select exits fuel
          (record l { db = with_bits b marked_db; term_flag = false; os = os' })
        ≡ ok (some (after b os'))
  unfolding handle_all
  handle_all-after b os' o =
      let m = l.memory in
      let o1 = Owned-append_left xs ys m o in
      let o2 = Owned-memory_after ev_read b.reads xs ys m o in
      let m1 = memory_after ev_read b.reads xs m in
      let m2 = memory_after ev_write b.writes ys m1 in
      rw
        (
          handle_all,
          ◌>>?◌,
          ◌>>=◌,
          handle_events-served size fuel l.db.in_evs xs ins ev_read b.reads m o1,
          handle_events-served size fuel l.db.out_evs ys outs ev_write b.writes m1 o2,
          handle_events-served size fuel l.db.exp_evs [] exps ev_exp b.exceptions m2 tt,
          append-nil (all_calls ev_write b.writes ys),
        )
        refl

  abbrev pub waited : Bits → S → Loop S
  waited b os' = record l { db = with_bits b marked_db; term_flag = false; os = os' }

  -- What the loop does with the result of `select`.
  abbrev pub respond : ℕ → (ℤ × Bits) × S → Ended S
  respond k r = elim r.0.0 [
    | negsuc n ↦ ok (some (0, waited r.0.1 r.1))
    | pos n ↦ elim n [
      | zero ↦ select_dispatch size select exits k fuel (waited r.0.1 r.1)
      | suc j ↦ handle_all size select exits fuel (waited r.0.1 r.1) >>? λ l'.
          select_dispatch size select exits k fuel l'
    ]
  ]

  pub select_dispatch-respond :
      (k : ℕ)
      → l.term_flag ≡ false
      → select_dispatch size select exits (suc k) fuel l
        ≡ respond k (select (suc l.db.n_maxfdn) marks l.os)
  unfolding select_dispatch
  select_dispatch-respond k t = rw (t, init_all-marked) refl

  select_dispatch-after :
      (b : Bits) (os' : S) (j k : ℕ)
      → l.term_flag ≡ false
      → Owned l.memory (xs ++ ys)
      → select (suc l.db.n_maxfdn) marks l.os ≡ ((pos (suc j), b), os')
      → select_dispatch size select exits (suc k) fuel l
        ≡ select_dispatch size select exits k fuel (after b os')
  select_dispatch-after b os' j k t o e =
      select_dispatch-respond k t
      ∙ ap (respond k) e
      ∙ ap (λ r. r >>? λ l'. select_dispatch size select exits k fuel l') (handle_all-after b os' o)

  -- In a loop that is not to end yet, whose two sets for reading and writing are well-formed, have
  -- descriptors below `FD_SETSIZE` and own their nodes and events, and whose set for exceptions is
  -- empty, with more fuel than each has pairs and at least two rounds: when `select` reports ready
  -- descriptors and a callback that is called for them asks for the end of the loop,
  -- `select_dispatch` ends without a fault and returns 1, having served the ready descriptors for
  -- reading in the table's order and then those for writing.
  pub select_dispatch-exits :
      (b : Bits) (os' : S) (j k : ℕ)
      → l.term_flag ≡ false
      → Owned l.memory (xs ++ ys)
      → select (suc l.db.n_maxfdn) marks l.os ≡ ((pos (suc j), b), os')
      → any exits (calls_of b) ≡ true
      → select_dispatch size select exits (suc (suc k)) fuel l ≡ ok (some (1, after b os'))
  unfolding select_dispatch
  select_dispatch-exits b os' j k t o e x = select_dispatch-after b os' j (suc k) t o e ∙ rw x refl

  pub select_dispatch_fails :
      (b : Bits) (os' : S) (n k : ℕ)
      → l.term_flag ≡ false
      → select (suc l.db.n_maxfdn) marks l.os ≡ ((negsuc n, b), os')
      → select_dispatch size select exits (suc k) fuel l ≡ ok (some (0, waited b os'))
  select_dispatch_fails b os' n k t e = select_dispatch-respond k t ∙ ap (respond k) e
