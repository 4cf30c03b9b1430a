-- ===== src/Select/Lifetime.antt =====
-- The events of the backend of net/mcl_select.c stay registered as they are meant to, from
-- `select_init` on.
use mcl.Base.{
  ℕ, zero, suc, ◌<◌, ◌≡◌, refl, sym, ap, ◌∙◌, true, false, none, some, [], ok, pos, Ptr, null,
  length, ◌==◌, ==_iff, arith, Bool-cases, inl, inr,
}
use mcl.Keys.{Key, int, key_cmp, max_hash_size}
use mcl.Keys.Compare.{eq_of_key_cmp}
use mcl.LinkedList.{max_size}
use mcl.Hash
use mcl.Hash.{Hash, find_key}
use mcl.Hash.Buckets.{has_addr}
use mcl.Hash.Map.{at_index, index, new-find}
use mcl.Hash.Iter.Walk.{ats, ats_in}
use mcl.Event.{Event}
use mcl.Select.{
  Memory, SelectDb, Which, in_evs, out_evs, evset_of, get_evset, select_init, malloc_evset,
}
use mcl.Select.Update.{Fresh, Outcome, select_add, select_del}
use mcl.Select.Adding.{other_than, Adds, Keeps, select_add-Adds, select_add-Keeps}
use mcl.Select.Deleting.{Unregisters, without, select_del-Unregisters}
use mcl.Select.Listing.{is_in}
use mcl.Select.Registry.{
  IsRegistry, IsUnused, IsBackend, IsRegistry-added, IsRegistry-new_node, IsRegistry-without,
}

malloc_evset-ats : (n i : ℕ) → ats n i malloc_evset.ht ≡ []
unfolding ats ats_in malloc_evset Hash.ctrl Hash.set_erase_fn Hash.new
malloc_evset-ats zero i = refl
malloc_evset-ats (suc n) i = malloc_evset-ats n (suc i)

malloc_evset-find : (k : Key) → find_key k malloc_evset.ht ≡ null
unfolding malloc_evset Hash.ctrl Hash.set_erase_fn Hash.new find_key Hash.hash_find
malloc_evset-find k = new-find.1 k

malloc_evset-IsRegistry : (size : ℕ) (w : Which) (m : Memory) → IsRegistry size w malloc_evset.ht m
unfolding malloc_evset Hash.ctrl Hash.set_erase_fn Hash.new
malloc_evset-IsRegistry size w m = record {
  table = λ i. tt;
  frees = refl;
  leads = λ k nz. let absent = malloc_evset-find k in ground arith;
}

-- `select_init` starts with no event registered.
pub select_init-IsBackend : (size : ℕ) (m : Memory) → IsBackend size select_init m
unfolding select_init
select_init-IsBackend size m = record {
  ins = malloc_evset-IsRegistry size in_evs m;
  outs = malloc_evset-IsRegistry size out_evs m;
  exceptions =
      let r = malloc_evset-IsRegistry size in_evs m in
      record { none = malloc_evset-ats max_hash_size 0; table = r.table; frees = r.frees };
}

module _ (size : ℕ) (m : Memory) where
  set-IsRegistry :
      (w : Which) (db : SelectDb) → IsBackend size db m → IsRegistry size w (evset_of w db).ht m
  set-IsRegistry in_evs db b = b.ins
  set-IsRegistry out_evs db b = b.outs

  of_sets-IsBackend :
      (w : Which) (db : SelectDb)
      → IsRegistry size w (evset_of w db).ht m
      → IsRegistry size (other_than w) (evset_of (other_than w) db).ht m
      → IsUnused db.exp_evs
      → IsBackend size db m
  of_sets-IsBackend in_evs db r o u = record { ins = r; outs = o; exceptions = u }
  of_sets-IsBackend out_evs db r o u = record { ins = o; outs = r; exceptions = u }

other_differs : (w : Which) → other_than w ≡ w → false ≡ true
other_differs in_evs e = ap is_in e
other_differs out_evs e = sym (ap is_in e)

-- An event in memory, for reading or writing.
module _ (size n : ℕ) (ev : Ptr) (w : Which) (db : SelectDb) (m : Memory) (e : Event)
    (here : m.events ev ≡ some e) (fd : e.sockfd ≡ pos n) (set : get_evset e ≡ some w)
    (b : IsBackend size db m) where
  abbrev own : IsRegistry size w (evset_of w db).ht m
  own = set-IsRegistry size m w db b

  abbrev elsewhere : IsRegistry size (other_than w) (evset_of (other_than w) db).ht m
  elsewhere = set-IsRegistry size m (other_than w) db b

  module _ (fresh : Fresh) (unused : m.nodes fresh.node ≡ none) where
    Adds-IsBackend :
        (r : Outcome) → n < size → Adds n fresh ev w db m r → IsBackend size r.db r.memory
    Adds-IsBackend r lt a =
        let reg = a.registers in
        let kept =
          IsRegistry-new_node size (other_than w) (evset_of (other_than w) db).ht m r.memory
            fresh.node ev elsewhere unused reg.nodes reg.events in
        of_sets-IsBackend size r.memory w r.db
          (IsRegistry-added size n w (evset_of w db).ht (evset_of w r.db).ht m r.memory fresh.node
            ev e own reg.binds reg.frees lt here fd set unused reg.nodes reg.events)
          (rw a.other kept) (rw a.exceptions b.exceptions)

    Keeps-IsBackend : (r : Outcome) → Keeps w db m r → IsBackend size r.db r.memory
    Keeps-IsBackend r k = rw k.memory (
        of_sets-IsBackend size m w r.db
          (record {
            table = k.table;
            frees = k.frees ∙ own.frees;
            leads =
                λ j nz. let same = k.map j in let old = own.leads j (rw same at nz) in rw same old;
          })
          (rw k.other elsewhere) (rw k.exceptions b.exceptions))

    -- `select_add` of an event whose descriptor is below `FD_SETSIZE`, whether it is registered or
    -- refused, keeps the events registered as they are meant to be.
    pub select_add-IsBackend :
        (fresh.node == null) ≡ false
        → n < size
        → (find_key (int (pos n)) (evset_of w db).ht ≡ null
            → (has_addr fresh.pair (at_index (evset_of w db).ht (index n)) ≡ false)
              × (length (at_index (evset_of w db).ht (index n)) < max_size))
        → (r : Outcome) × (select_add size fresh ev db m ≡ ok r) × IsBackend size r.db r.memory
    select_add-IsBackend nz lt space =
        elim (Bool-cases (find_key (int (pos n)) (evset_of w db).ht == null)) [
          | inl absent ↦
              let gone = (==_iff (find_key (int (pos n)) (evset_of w db).ht) null).0 absent in
              let (free, room) = space gone in
              let (r, run, adds) =
                select_add-Adds size n fresh ev w db m e here fd set own.table nz lt gone free
                  room in
              (r, run, Adds-IsBackend r lt adds)
          | inr taken ↦
              let (r, run, keeps) =
                select_add-Keeps size n fresh ev w db m e here fd set own.table nz taken in
              (r, run, Keeps-IsBackend r keeps)
        ]

  -- What a deletion leaves of a value is that of before.
  lost_or_same :
      {node reg : Ptr} {f : Event} {r : Outcome}
      → Unregisters n node reg f w db m r
      → (j : Key) → (find_key j (evset_of w r.db).ht == null) ≡ false
      → find_key j (evset_of w r.db).ht ≡ find_key j (evset_of w db).ht
  lost_or_same {r = r} u j nz = elim (Bool-cases (key_cmp j (int (pos n)))) [
    | inl s ↦
        let lost =
          ap (λ x. find_key x (evset_of w r.db).ht) (eq_of_key_cmp j (int (pos n)) s) ∙ u.gone in
        ground arith
    | inr d ↦ u.others j d
  ]

  -- `select_del` of an event whose descriptor has its bit, and another event registered, keeps the
  -- others registered as they are meant to be.
  pub select_del-IsBackend :
      (evset_of w db).fds n ≡ true
      → (find_key (int (pos n)) (evset_of w db).ht == null) ≡ false
      → ((reg : Ptr)
          → m.nodes (find_key (int (pos n)) (evset_of w db).ht) ≡ some reg
          → (ev == reg) ≡ false)
      → (r : Outcome) × (select_del ev db m ≡ ok r) × (r.ret ≡ 1) × IsBackend size r.db r.memory
  select_del-IsBackend bit taken apart =
      let t = (evset_of w db).ht in
      let k = int (pos n) in
      let node = find_key k t in
      let l = own.leads k taken in
      let differs : (ev == l.ev) ≡ false = apart l.ev l.to_event in
      let (r, run, u) =
        select_del-Unregisters n ev node l.ev w db m e l.event here fd set own.table bit refl taken
          l.to_event l.stored differs in
      let mine =
        IsRegistry-without size w w t (evset_of w r.db).ht m k node l own u.table u.frees
          (lost_or_same u) (λ s. u.gone) in
      let o = other_than w in
      let other =
        IsRegistry-without size o w (evset_of o db).ht (evset_of o db).ht m k node l elsewhere
          elsewhere.table refl (λ j nz. refl) (λ s. let x = other_differs w s in ground arith) in
      (
        r,
        run,
        u.ret,
        rw u.memory (
            of_sets-IsBackend size (without node l.ev m) w r.db mine (rw u.other other)
              (rw u.exceptions b.exceptions)),
      )
