-- ===== src/Select/Waiting.antt =====
-- The event loop of net/mcl_select.c through the rounds in which select(2) times out.
use mcl.Base.{
  ℕ, zero, suc, ◌<◌, ◌≡◌, refl, ap, ◌∙◌, Bool, true, false, some, List, [], ◌++◌, ok, ℤ, pos, arith,
}
use mcl.Event.{EventCall}
use mcl.Select.Dispatch.{Bits, Loop, select_dispatch}
use mcl.Select.Entries.{Entry, Owned}
use mcl.Select.Round.{
  Holds, marks, calls_of, after, waited, respond, select_dispatch-respond, select_dispatch-exits,
}
use mcl.Select.{EvSet}
use mcl.Select.Dispatch.{any}

-- The system lets `j` calls of `select` time out.
abbrev pub Idles : {S : Type 0} → (S → (ℤ × Bits) × S) → ℕ → S → S → Type 0
Idles wait zero s s' = s ≡ s'
Idles {S} wait (suc j) s s' =
    (b : Bits) × (s1 : S) × (wait s ≡ ((pos 0, b), s1)) × Idles wait j s1 s'

Holds-bits :
    (size fuel : ℕ) (s : EvSet) (f : ℕ → Bool) (xs : List Entry)
    → Holds size fuel s xs
    → Holds size fuel (record s { fds = f }) xs
Holds-bits size fuel s f xs h = record {
  table = h.table;
  frees = h.frees;
  entries = h.entries;
  own_fds = h.own_fds;
  in_size = h.in_size;
  enough = h.enough;
}

module _ {S : Type 0} (size : ℕ) (select : ℕ → Bits → S → (ℤ × Bits) × S) (exits : EventCall → Bool)
    (fuel : ℕ) (xs ys : List Entry) where
  -- In a loop that is not to end yet, whose two sets for reading and writing are well-formed, have
  -- descriptors below `FD_SETSIZE` and own their nodes and events, and whose set for exceptions is
  -- empty, with more fuel than each has pairs: when `select` times out `j` times, then reports
  -- ready descriptors, and a callback that is called for them asks for the end of the loop,
  -- `select_dispatch` with more than `j + 1` rounds ends without a fault and returns 1, having
  -- served the ready descriptors for reading in the table's order and then those for writing, and
  -- nothing before.
  pub select_dispatch-waits :
      (l : Loop S) (ins : Holds size fuel l.db.in_evs xs) (outs : Holds size fuel l.db.out_evs ys)
      (exps : Holds size fuel l.db.exp_evs []) (b : Bits) (os1 os' : S) (i j n : ℕ)
      → suc j < n
      → l.term_flag ≡ false
      → Owned l.memory (xs ++ ys)
      → Idles
          (select (suc l.db.n_maxfdn) (marks size select exits fuel l xs ys ins outs exps))
          j
          l.os
          os1
      → select (suc l.db.n_maxfdn) (marks size select exits fuel l xs ys ins outs exps) os1
        ≡ ((pos (suc i), b), os')
      → any exits (calls_of size select exits fuel l xs ys ins outs exps b) ≡ true
      → select_dispatch size select exits n fuel l
        ≡ ok (some (1, after size select exits fuel l xs ys ins outs exps b os'))
  select_dispatch-waits l ins outs exps b os1 os' i zero zero lt t o idle ready x = ground arith
  select_dispatch-waits l ins outs exps b os1 os' i zero (suc zero) lt t o idle ready x =
      ground arith
  select_dispatch-waits l ins outs exps b os1 os' i zero (suc (suc k)) lt t o idle ready x =
      select_dispatch-exits size select exits fuel l xs ys ins outs exps b os' i k t o
        (ap (select (suc l.db.n_maxfdn) (marks size select exits fuel l xs ys ins outs exps)) idle
          ∙ ready)
        x
  select_dispatch-waits l ins outs exps b os1 os' i (suc j) zero lt t o idle ready x = ground arith
  select_dispatch-waits l ins outs exps b os1 os' i (suc j) (suc n) lt t o (b0, s1, timeout, idle)
        ready x =
      let l' = waited size select exits fuel l xs ys ins outs exps b0 s1 in
      select_dispatch-respond size select exits fuel l xs ys ins outs exps n t
      ∙ ap (respond size select exits fuel l xs ys ins outs exps n) timeout
      ∙ select_dispatch-waits l' (Holds-bits size fuel l.db.in_evs b0.reads xs ins)
          (Holds-bits size fuel l.db.out_evs b0.writes ys outs)
          (Holds-bits size fuel l.db.exp_evs b0.exceptions [] exps) b os1 os' i j n (omega arith)
          refl o idle ready x
