-- ===== src/Select/Serving.antt =====
-- Handling a set of net/mcl_select.c keeps what is registered in it and elsewhere.
use mcl.Base.{
  ℕ, ◌<◌, ◌≤◌, ◌≡◌, refl, ap, ◌∙◌, Bool, true, false, some, List, [], ◌∷◌, map, pos, length, arith,
  Bool-cases, inl, inr,
}
use mcl.Keys.{int, key_cmp, max_hash_size}
use mcl.Keys.Compare.{eq_of_key_cmp}
use mcl.Hash.{Hash, find_key}
use mcl.Hash.Iter.{At}
use mcl.Hash.Iter.Walk.{ats, remove, remove-IsHash}
use mcl.Hash.Iter.Members.{Member, Members}
use mcl.Hash.Iter.Removed.{
  remove-gone, remove-others, remove-Members, remove-erase_fn, remove-length,
}
use mcl.Select.{Memory, Which, get_evset}
use mcl.Select.Deleting.{without}
use mcl.Select.Entries.{Entry, Owned, Owned-without, ends, table_after, memory_after}
use mcl.Select.Registry.{Leads, IsRegistry, IsRegistry-without}
use mcl.Select.Listing.{Leading, entries}

-- An entry is under its event's descriptor, in the set for its type.
pub record Fits (size : ℕ) (w : Which) (x : Entry) : Type 0 where
  pub n : ℕ
  pub key : x.at.pair.key ≡ int (pos n)
  pub in_size : n < size
  pub sockfd : x.event.sockfd ≡ pos n
  pub set : get_evset x.event ≡ some w

abbrev pub AllFit : (size : ℕ) → Which → List Entry → Type 0
AllFit size w [] = Unit
AllFit size w (x ∷ xs) = Fits size w x × AllFit size w xs

pub entries-AllFit :
    (size : ℕ) (m : Memory) (w : Which) (xs : List At) (ls : Leading size m w xs)
    → AllFit size w (entries size m w xs ls)
entries-AllFit size m w [] ls = tt
entries-AllFit size m w (a ∷ xs) ls =
    let l = ls.0 in
    (
      record { n = l.fd; key = l.key; in_size = l.in_size; sockfd = l.sockfd; set = l.set },
      entries-AllFit size m w xs ls.1,
    )

module _ (size : ℕ) (w : Which) where
  abbrev leads_of :
      (x : Entry) (m : Memory)
      → Fits size w x
      → m.nodes x.at.pair.val ≡ some x.ev
      → m.events x.ev ≡ some x.event
      → Leads size w m x.at.pair.key x.at.pair.val
  leads_of x m f to_event stored = record {
    fd = f.n;
    ev = x.ev;
    event = x.event;
    key = f.key;
    in_size = f.in_size;
    to_event = to_event;
    stored = stored;
    sockfd = f.sockfd;
    set = f.set;
  }

  -- Erasing an entry with its node and its event.
  module _ (x : Entry) (t : Hash) (m : Memory) (fit : Fits size w x)
      (to_event : m.nodes x.at.pair.val ≡ some x.ev) (stored : m.events x.ev ≡ some x.event) where
    erased-own :
        Member t x.at
        → IsRegistry size w t m
        → IsRegistry size w (remove x.at t) (without x.at.pair.val x.ev m)
    erased-own i r =
        let gone = remove-gone t r.table x.at i in
        IsRegistry-without size w w t (remove x.at t) m x.at.pair.key x.at.pair.val
          (leads_of x m fit to_event stored) r (remove-IsHash x.at t r.table)
          (remove-erase_fn t r.table x.at i)
          (λ j nz. elim (Bool-cases (key_cmp j x.at.pair.key)) [
            | inl s ↦
                let lost =
                  ap (λ k. find_key k (remove x.at t)) (eq_of_key_cmp j x.at.pair.key s) ∙ gone in
                ground arith
            | inr d ↦ remove-others t r.table x.at i j d
          ])
          (λ s. gone)

    erased-other :
        (v : Which) (u : Hash)
        → (v ≡ w → false ≡ true)
        → IsRegistry size v u m
        → IsRegistry size v u (without x.at.pair.val x.ev m)
    erased-other v u diff r =
        IsRegistry-without size v w u u m x.at.pair.key x.at.pair.val
          (leads_of x m fit to_event stored) r r.table refl (λ j nz. refl)
          (λ s. let n = diff s in ground arith)

  -- What handling leaves of its own set and of another one.
  pub record Served (v : Which) (t t' u : Hash) (m' : Memory) : Type 0 where
    pub own : IsRegistry size w t' m'
    pub other : IsRegistry size v u m'
    pub fewer : length (ats max_hash_size 0 t') ≤ length (ats max_hash_size 0 t)

  pub handled-Served :
      (ty : ℕ) (ready : ℕ → Bool) (v : Which) (xs : List Entry) (t u : Hash) (m : Memory)
      → (v ≡ w → false ≡ true)
      → AllFit size w xs
      → Owned m xs
      → Members t (map (λ x. x.at) xs)
      → IsRegistry size w t m
      → IsRegistry size v u m
      → Served v t (table_after ty ready xs t) u (memory_after ty ready xs m)
  handled-Served ty ready v [] t u m diff fit own ms r q = record {
    own = r;
    other = q;
    fewer = omega arith;
  }
  handled-Served ty ready v (x ∷ xs) t u m diff (f, fit) (key, nz, node, ev, apart, o) (i, d, ms) r
        q =
      elim (Bool-cases (ends ty ready x)) [
        | inl e ↦
            let rest =
              handled-Served ty ready v xs (remove x.at t) u (without x.at.pair.val x.ev m) diff fit
                (Owned-without x xs m apart o)
                (remove-Members t r.table x.at i (map (λ y. y.at) xs) d ms)
                (erased-own x t m f node ev i r) (erased-other x t m f node ev v u diff q) in
            let less = remove-length max_hash_size 0 x.at t in
            let less' = rest.fewer in
            rw e (record { own = rest.own; other = rest.other; fewer = omega arith })
        | inr e ↦ rw e (handled-Served ty ready v xs t u m diff fit o ms r q)
      ]
