-- ===== src/Select/Registry.antt =====
-- What is registered in a set of net/mcl_select.c: each value of its table is a node that leads to
-- an event in memory, under the event's own descriptor and in the set for its type.
use mathlib.Core.Option.{some-injective, none-ne-some}
use mcl.Base.{
  ℕ, ◌<◌, ◌≡◌, refl, sym, ap, ◌∙◌, true, false, none, some, [], pos, Ptr, null, ◌==◌, ==_iff,
  if◌then◌else◌, arith, Bool-cases, inl, inr,
}
use mcl.Keys.{Key, int, key_cmp, max_hash_size}
use mcl.Keys.Compare.{eq_of_key_cmp}
use mcl.Hash.{Hash, find_key}
use mcl.Hash.Map.{IsHash, Binds}
use mcl.Hash.Iter.Walk.{ats}
use mcl.Event.{Event}
use mcl.Select.{Memory, EvSet, SelectDb, in_evs, out_evs, Which, get_evset, event_ht_free_fn}
use mcl.Select.Deleting.{without}

-- A node leads to the event of a key, which is a descriptor that an `fd_set` has a bit for.
pub record Leads (size : ℕ) (which : Which) (m : Memory) (k : Key) (node : Ptr) : Type 0 where
  pub fd : ℕ
  pub ev : Ptr
  pub event : Event
  pub key : k ≡ int (pos fd)
  pub in_size : fd < size
  pub to_event : m.nodes node ≡ some ev
  pub stored : m.events ev ≡ some event
  pub sockfd : event.sockfd ≡ pos fd
  pub set : get_evset event ≡ some which

pub record IsRegistry (size : ℕ) (which : Which) (t : Hash) (m : Memory) : Type 0 where
  pub table : IsHash t
  pub frees : t.erase_fn ≡ event_ht_free_fn
  pub leads : (k : Key) → (find_key k t == null) ≡ false → Leads size which m k (find_key k t)

-- A node is registered once, and so is an event.
module _ (size : ℕ) (v w : Which) (m : Memory) (j k : Key) where
  pub Leads-same_event :
      (p q : Ptr) (a : Leads size v m j p) (b : Leads size w m k q)
      → a.ev ≡ b.ev
      → (v ≡ w) × (j ≡ k)
  Leads-same_event p q a b e =
      let same : a.event ≡ b.event =
        some-injective a.event b.event (sym a.stored ∙ ap (λ x. m.events x) e ∙ b.stored) in
      let fds : pos a.fd ≡ pos b.fd = sym a.sockfd ∙ ap (λ x. x.sockfd) same ∙ b.sockfd in
      (
        some-injective v w (sym a.set ∙ ap (λ x. get_evset x) same ∙ b.set),
        a.key ∙ ap int fds ∙ sym b.key,
      )

  pub Leads-same_node :
      (p q : Ptr) (a : Leads size v m j p) (b : Leads size w m k q) → p ≡ q → (v ≡ w) × (j ≡ k)
  Leads-same_node p q a b e =
      Leads-same_event p q a b
        (some-injective a.ev b.ev (sym a.to_event ∙ ap (λ x. m.nodes x) e ∙ b.to_event))

-- What a new node, and what a node freed with its event, leaves of the others.
module _ (size : ℕ) (v : Which) (m : Memory) (j : Key) (p : Ptr) (a : Leads size v m j p) where
  pub Leads-new_node :
      (m' : Memory) (node ev : Ptr)
      → m.nodes node ≡ none
      → ((q : Ptr) → m'.nodes q ≡ (if q == node then some ev else m.nodes q))
      → m'.events ≡ m.events
      → Leads size v m' j p
  Leads-new_node m' node ev free nodes events = record {
    fd = a.fd;
    ev = a.ev;
    event = a.event;
    key = a.key;
    in_size = a.in_size;
    to_event = elim (Bool-cases (p == node)) [
      | inl e ↦
          let none' = sym free ∙ ap (λ x. m.nodes x) (sym ((==_iff p node).0 e)) ∙ a.to_event in
          elim (none-ne-some a.ev none') [ ]
      | inr e ↦ nodes p ∙ rw e a.to_event
    ];
    stored = ap (λ f. f a.ev) events ∙ a.stored;
    sockfd = a.sockfd;
    set = a.set;
  }

  pub Leads-without :
      (w : Which) (k : Key) (q : Ptr) (b : Leads size w m k q)
      → (v ≡ w → (j ≡ k) → false ≡ true)
      → Leads size v (without q b.ev m) j p
  Leads-without w k q b differ = record {
    fd = a.fd;
    ev = a.ev;
    event = a.event;
    key = a.key;
    in_size = a.in_size;
    to_event = elim (Bool-cases (p == q)) [
      | inl e ↦
          let (s, t) = Leads-same_node size v w m j k p q a b ((==_iff p q).0 e) in
          let no = differ s t in ground arith
      | inr e ↦ rw e a.to_event
    ];
    stored = elim (Bool-cases (a.ev == b.ev)) [
      | inl e ↦
          let (s, t) = Leads-same_event size v w m j k p q a b ((==_iff a.ev b.ev).0 e) in
          let no = differ s t in ground arith
      | inr e ↦ rw e a.stored
    ];
    sockfd = a.sockfd;
    set = a.set;
  }

-- Registering an event in its set.
pub IsRegistry-added :
    (size n : ℕ) (which : Which) (t t' : Hash) (m m' : Memory) (node ev : Ptr) (e : Event)
    → IsRegistry size which t m
    → Binds t (int (pos n)) node t'
    → t'.erase_fn ≡ t.erase_fn
    → n < size
    → m.events ev ≡ some e
    → e.sockfd ≡ pos n
    → get_evset e ≡ some which
    → m.nodes node ≡ none
    → ((q : Ptr) → m'.nodes q ≡ (if q == node then some ev else m.nodes q))
    → m'.events ≡ m.events
    → IsRegistry size which t' m'
IsRegistry-added size n which t t' m m' node ev e r b f lt here fd set free nodes events = record {
  table = b.table;
  frees = f ∙ r.frees;
  leads = λ j nz. elim (Bool-cases (key_cmp j (int (pos n)))) [
    | inl s ↦
        let key = eq_of_key_cmp j (int (pos n)) s in
        let at = ap (λ x. find_key x t') key ∙ b.bound in
        let self : (node == node) ≡ true = ground arith in
        record {
          fd = n;
          ev = ev;
          event = e;
          key = key;
          in_size = lt;
          to_event = ap (λ x. m'.nodes x) at ∙ nodes node ∙ rw self refl;
          stored = ap (λ g. g ev) events ∙ here;
          sockfd = fd;
          set = set;
        }
    | inr d ↦
        let same = b.others j d in
        let old = r.leads j (rw same at nz) in
        rw same (Leads-new_node size which m j (find_key j t) old m' node ev free nodes events)
  ];
}

-- Registering an event elsewhere.
pub IsRegistry-new_node :
    (size : ℕ) (which : Which) (t : Hash) (m m' : Memory) (node ev : Ptr)
    → IsRegistry size which t m
    → m.nodes node ≡ none
    → ((q : Ptr) → m'.nodes q ≡ (if q == node then some ev else m.nodes q))
    → m'.events ≡ m.events
    → IsRegistry size which t m'
IsRegistry-new_node size which t m m' node ev r free nodes events = record {
  table = r.table;
  frees = r.frees;
  leads = λ j nz.
      Leads-new_node size which m j (find_key j t) (r.leads j nz) m' node ev free nodes events;
}

-- Freeing a registered node with its event: the table has lost its key, if it is its set's.
pub IsRegistry-without :
    (size : ℕ) (v w : Which) (t t' : Hash) (m : Memory) (k : Key) (node : Ptr)
    (b : Leads size w m k node)
    → IsRegistry size v t m
    → IsHash t'
    → t'.erase_fn ≡ t.erase_fn
    → ((j : Key) → (find_key j t' == null) ≡ false → find_key j t' ≡ find_key j t)
    → (v ≡ w → find_key k t' ≡ null)
    → IsRegistry size v t' (without node b.ev m)
IsRegistry-without size v w t t' m k node b r table f shrinks gone = record {
  table = table;
  frees = f ∙ r.frees;
  leads = λ j nz.
      let same = shrinks j nz in
      let old = r.leads j (rw same at nz) in
      rw same (
        Leads-without size v m j (find_key j t) old w k node b (λ s jk.
          let lost : find_key j t' ≡ null = ap (λ x. find_key x t') jk ∙ gone s in
          sym nz ∙ rw lost refl));
}

-- A set without an event.
pub record IsUnused (s : EvSet) : Type 0 where
  pub none : ats max_hash_size 0 s.ht ≡ []
  pub table : IsHash s.ht
  pub frees : s.ht.erase_fn ≡ event_ht_free_fn

-- The backend with its events in memory: those for reading and for writing are registered in their
-- sets, and there is none for exceptions.
pub record IsBackend (size : ℕ) (db : SelectDb) (m : Memory) : Type 0 where
  pub ins : IsRegistry size in_evs db.in_evs.ht m
  pub outs : IsRegistry size out_evs db.out_evs.ht m
  pub exceptions : IsUnused db.exp_evs
