-- ===== src/Select/Reach.antt =====
-- The states that the backend of net/mcl_select.c comes to.
use mathlib.Core.Option.{some-injective, none-ne-some}
use mcl.Base.{
  ℕ, ◌<◌, ◌≡◌, sym, ap, ◌∙◌, Bool, true, false, none, some, Run, ok, fault, ℤ, pos, Ptr, null,
  length, ◌==◌, ==_iff, Bool-cases, inl, inr,
}
use mcl.Keys.{int}
use mcl.LinkedList.{max_size}
use mcl.Hash.{Hash, find_key}
use mcl.Hash.Buckets.{has_addr}
use mcl.Hash.Map.{at_index, index}
use mcl.Event.{Event, EventCall}
use mcl.Select.{Memory, set_at, SelectDb, Which, in_evs, out_evs, evset_of, get_evset, select_init}
use mcl.Select.Update.{Fresh, Outcome, select_add, select_del}
use mcl.Select.Dispatch.{Bits, Loop, Ended, select_dispatch}
use mcl.Select.Registry.{IsRegistry, IsBackend}
use mcl.Select.Safety.{IsEnough, IsSteady, Safe, running, ended, select_dispatch-Safe}
use mcl.Select.Lifetime.{select_init-IsBackend, select_add-IsBackend, select_del-IsBackend}

-- The client's memory: an event is made at an address that is not in use.
abbrev pub with_event : Ptr → Event → Memory → Memory
with_event ev e m = record m { events = set_at m.events ev (some e) }

-- What an addition needs: an event in memory for reading or writing, whose descriptor is below
-- `FD_SETSIZE`, a node that is new, and, for a new descriptor, a new pair and room in the bucket.
pub record CanAdd (size : ℕ) (fresh : Fresh) (ev : Ptr) (db : SelectDb) (m : Memory) : Type 0 where
  pub n : ℕ
  pub w : Which
  pub e : Event
  pub here : m.events ev ≡ some e
  pub fd : e.sockfd ≡ pos n
  pub set : get_evset e ≡ some w
  pub in_size : n < size
  pub node : (fresh.node == null) ≡ false
  pub unused : m.nodes fresh.node ≡ none
  pub space :
      find_key (int (pos n)) (evset_of w db).ht ≡ null
      → (has_addr fresh.pair (at_index (evset_of w db).ht (index n)) ≡ false)
        × (length (at_index (evset_of w db).ht (index n)) < max_size)

-- What a deletion needs: the descriptor of the event has its bit and another event.
pub record CanDelete (ev : Ptr) (db : SelectDb) (m : Memory) : Type 0 where
  pub n : ℕ
  pub w : Which
  pub e : Event
  pub here : m.events ev ≡ some e
  pub fd : e.sockfd ≡ pos n
  pub set : get_evset e ≡ some w
  pub bit : (evset_of w db).fds n ≡ true
  pub found : (find_key (int (pos n)) (evset_of w db).ht == null) ≡ false
  pub apart :
      (reg : Ptr)
      → m.nodes (find_key (int (pos n)) (evset_of w db).ht) ≡ some reg
      → (ev == reg) ≡ false

module _ {S : Type 0} (size : ℕ) (select : ℕ → Bits → S → (ℤ × Bits) × S)
    (exits : EventCall → Bool) where
  -- From an empty backend on, by events made, added and deleted, and by loops.
  pub data Reachable : SelectDb → Memory → Type 0 where
    opened : (m : Memory) → Reachable select_init m
    made :
        (ev : Ptr) (e : Event) (db : SelectDb) (m : Memory)
        → Reachable db m
        → m.events ev ≡ none
        → Reachable db (with_event ev e m)
    added :
        (fresh : Fresh) (ev : Ptr) (db : SelectDb) (m : Memory) (r : Outcome)
        → Reachable db m
        → CanAdd size fresh ev db m
        → select_add size fresh ev db m ≡ ok r
        → Reachable r.db r.memory
    deleted :
        (ev : Ptr) (db : SelectDb) (m : Memory) (r : Outcome)
        → Reachable db m
        → CanDelete ev db m
        → select_del ev db m ≡ ok r
        → Reachable r.db r.memory
    looped :
        (k fuel ret : ℕ) (l l' : Loop S)
        → Reachable l.db l.memory
        → IsEnough fuel l.db
        → select_dispatch size select exits k fuel l ≡ ok (some (ret, l'))
        → Reachable l'.db l'.memory

  of_ok : {A : Type 0} → A → Run A → A
  of_ok a fault = a
  of_ok a (ok b) = b

  ok-injective : {A : Type 0} (a b : A) → ok a ≡ ok b → a ≡ b
  unfolding of_ok
  ok-injective a b e = ap (of_ok a) e

  same_outcome :
      (r s : Outcome) (run : Run Outcome)
      → run ≡ ok r
      → run ≡ ok s
      → IsBackend size s.db s.memory
      → IsBackend size r.db r.memory
  same_outcome r s run e f b = rw (ok-injective r s (sym e ∙ f)) b

  ended-IsSteady :
      (fuel ret : ℕ) (l : Loop S) (r : Ended S)
      → Safe size select exits fuel r
      → r ≡ ok (some (ret, l))
      → IsSteady size select exits fuel l
  ended-IsSteady fuel ret l _ running e =
      elim (none-ne-some (ret, l) (ok-injective none (some (ret, l)) e)) [ ]
  ended-IsSteady fuel ret l _ (ended ret' l' lt s) e =
      let same =
        some-injective (ret', l') (ret, l) (ok-injective (some (ret', l')) (some (ret, l)) e) in
      rw⁻¹ (ap (λ p. p.1) same) s

  with_event-IsRegistry :
      (w : Which) (t : Hash) (m : Memory) (ev : Ptr) (e : Event)
      → m.events ev ≡ none
      → IsRegistry size w t m
      → IsRegistry size w t (with_event ev e m)
  with_event-IsRegistry w t m ev e free r = record {
    table = r.table;
    frees = r.frees;
    leads = λ k nz.
        let l = r.leads k nz in
        record {
          fd = l.fd;
          ev = l.ev;
          event = l.event;
          key = l.key;
          in_size = l.in_size;
          to_event = l.to_event;
          stored = elim (Bool-cases (l.ev == ev)) [
            | inl s ↦
                let gone = sym free ∙ ap m.events (sym ((==_iff l.ev ev).0 s)) ∙ l.stored in
                elim (none-ne-some l.event gone) [ ]
            | inr d ↦ rw d l.stored
          ];
          sockfd = l.sockfd;
          set = l.set;
        };
  }

  -- In each state that the backend comes to from `select_init` on, when the client makes events at
  -- unused addresses, adds events for reading or writing with descriptors below `FD_SETSIZE` by
  -- `select_add`, with new nodes and, for a new descriptor, a new pair and room in the bucket,
  -- deletes by `select_del` events whose descriptor has its bit and an event at another address,
  -- and runs `select_dispatch`, with enough fuel, until it returns, each value of the table for
  -- reading, or writing, is a node that leads to an event in memory of that type and with that
  -- descriptor, and no event is registered for exceptions.
  pub Reachable-IsBackend : (db : SelectDb) (m : Memory) → Reachable db m → IsBackend size db m
  Reachable-IsBackend _ _ (opened m) = select_init-IsBackend size m
  Reachable-IsBackend _ _ (made ev e db m' h free) =
      let b = Reachable-IsBackend db m' h in
      record {
        ins = with_event-IsRegistry in_evs db.in_evs.ht m' ev e free b.ins;
        outs = with_event-IsRegistry out_evs db.out_evs.ht m' ev e free b.outs;
        exceptions = b.exceptions;
      }
  Reachable-IsBackend _ _ (added fresh ev db' m' r h c run) =
      let b = Reachable-IsBackend db' m' h in
      let (s, run', b') =
        select_add-IsBackend size c.n ev c.w db' m' c.e c.here c.fd c.set b fresh c.unused c.node
          c.in_size c.space in
      same_outcome r s (select_add size fresh ev db' m') run run' b'
  Reachable-IsBackend _ _ (deleted ev db' m' r h c run) =
      let b = Reachable-IsBackend db' m' h in
      let (s, run', ret, b') =
        select_del-IsBackend size c.n ev c.w db' m' c.e c.here c.fd c.set b c.bit c.found c.apart in
      same_outcome r s (select_del ev db' m') run run' b'
  Reachable-IsBackend _ _ (looped k fuel ret l l' h enough run) =
      let b = Reachable-IsBackend l.db l.memory h in
      let safe =
        select_dispatch-Safe size select exits fuel k l (record { backend = b; enough = enough }) in
      (ended-IsSteady fuel ret l' (select_dispatch size select exits k fuel l) safe run).backend
