-- ===== src/Select/Listing.antt =====
-- The registered events of a set of net/mcl_select.c as the list of its entries, in the table's
-- order.
use mcl.Base.{
  ℕ, suc, ◌<◌, ◌≡◌, refl, sym, ap, ◌∙◌, Bool, true, false, List, [], ◌∷◌, ◌++◌, map, pos, length,
  ◌==◌, ==_iff, arith, Bool-cases, inl, inr,
}
use mcl.Keys.{Key, int, key_cmp, max_hash_size}
use mcl.Keys.Compare.{key_cmp_self}
use mcl.Hash.{Hash}
use mcl.Hash.Iter.{At}
use mcl.Hash.Iter.Walk.{ats}
use mcl.Hash.Iter.Members.{Members, NotIn, Member-find_key, ats-Members}
use mcl.Select.{Memory, Which, in_evs, out_evs, EvSet}
use mcl.Select.Bits.{InSize}
use mcl.Select.Entries.{Entry, Apart, HasNot, OwnFds, Owned}
use mcl.Select.Round.{Holds}
use mcl.Select.Registry.{Leads, IsRegistry, Leads-same_node, Leads-same_event}

-- Another set, or another key.
abbrev pub Unlike : (v w : Which) → (j k : Key) → Type 0
Unlike v w j k = v ≡ w → j ≡ k → false ≡ true

abbrev pub is_in : Which → Bool
is_in in_evs = true
is_in out_evs = false

abbrev pub AreUnlike : (v w : Which) → Key → List At → Type 0
AreUnlike v w k [] = Unit
AreUnlike v w k (b ∷ bs) = Unlike v w k b.pair.key × AreUnlike v w k bs

NotIn-AreUnlike : (v : Which) (k : Key) (bs : List At) → NotIn k bs → AreUnlike v v k bs
NotIn-AreUnlike v k [] d = tt
NotIn-AreUnlike v k (b ∷ bs) (d, ds) =
    (λ s e. sym d ∙ ap (λ j. key_cmp j k) (sym e) ∙ key_cmp_self k, NotIn-AreUnlike v k bs ds)

sets-AreUnlike : (k : Key) (bs : List At) → AreUnlike in_evs out_evs k bs
sets-AreUnlike k [] = tt
sets-AreUnlike k (b ∷ bs) = (λ s e. sym (ap is_in s), sets-AreUnlike k bs)

module _ (size : ℕ) (m : Memory) where
  -- Each of the pairs leads to an event.
  abbrev pub Leading : Which → List At → Type 0
  Leading w [] = Unit
  Leading w (a ∷ xs) = Leads size w m a.pair.key a.pair.val × Leading w xs

  abbrev pub entry_of : (w : Which) (a : At) → Leads size w m a.pair.key a.pair.val → Entry
  entry_of w a l = record { at = a; fd = pos l.fd; ev = l.ev; event = l.event }

  abbrev pub entries : (w : Which) (xs : List At) → Leading w xs → List Entry
  entries w [] ls = []
  entries w (a ∷ xs) ls = entry_of w a ls.0 ∷ entries w xs ls.1

  pub entries-ats :
      (w : Which) (xs : List At) (ls : Leading w xs) → xs ≡ map (λ x. x.at) (entries w xs ls)
  entries-ats w [] ls = refl
  entries-ats w (a ∷ xs) ls = ap (λ r. a ∷ r) (entries-ats w xs ls.1)

  entries-length :
      (w : Which) (xs : List At) (ls : Leading w xs) → length (entries w xs ls) ≡ length xs
  entries-length w [] ls = refl
  entries-length w (a ∷ xs) ls = ap suc (entries-length w xs ls.1)

  entries-InSize : (w : Which) (xs : List At) → Leading w xs → InSize size xs
  entries-InSize w [] ls = tt
  entries-InSize w (a ∷ xs) ls = let l = ls.0 in (l.fd, l.key, l.in_size, entries-InSize w xs ls.1)

  entries-HasNot :
      (w : Which) (a : At) (l : Leads size w m a.pair.key a.pair.val) (xs : List At)
      (ls : Leading w xs)
      → NotIn a.pair.key xs
      → HasNot (entry_of w a l) (entries w xs ls)
  entries-HasNot w a l [] ls d = tt
  entries-HasNot w a l (b ∷ xs) ls d =
      let k = ls.0 in
      let keys = ap (λ x. key_cmp x (int (pos l.fd))) k.key in
      let keys' = ap (λ x. key_cmp b.pair.key x) l.key in
      (sym keys ∙ sym keys' ∙ d.0, entries-HasNot w a l xs ls.1 d.1)

  pub entries-OwnFds :
      (t : Hash) (w : Which) (xs : List At) (ls : Leading w xs)
      → Members t xs
      → OwnFds (entries w xs ls)
  entries-OwnFds t w [] ls ms = tt
  entries-OwnFds t w (a ∷ xs) ls ms =
      (entries-HasNot w a ls.0 xs ls.1 ms.1, entries-OwnFds t w xs ls.1 ms.2)

  entries-Apart :
      (v w : Which) (a : At) (l : Leads size v m a.pair.key a.pair.val) (xs : List At)
      (ls : Leading w xs)
      → AreUnlike v w a.pair.key xs
      → Apart (entry_of v a l) (entries w xs ls)
  entries-Apart v w a l [] ls d = tt
  entries-Apart v w a l (b ∷ xs) ls d =
      let k = ls.0 in
      (
        record {
          node = elim (Bool-cases (b.pair.val == a.pair.val)) [
            | inl e ↦
                let (s, t) =
                  Leads-same_node size v w m a.pair.key b.pair.key a.pair.val b.pair.val l k
                    (sym ((==_iff b.pair.val a.pair.val).0 e)) in
                let same = d.0 s t in ground arith
            | inr e ↦ e
          ];
          ev = elim (Bool-cases (k.ev == l.ev)) [
            | inl e ↦
                let (s, t) =
                  Leads-same_event size v w m a.pair.key b.pair.key a.pair.val b.pair.val l k
                    (sym ((==_iff k.ev l.ev).0 e)) in
                let same = d.0 s t in ground arith
            | inr e ↦ e
          ];
        },
        entries-Apart v w a l xs ls.1 d.1,
      )

  Apart-append : (x : Entry) (ys zs : List Entry) → Apart x ys → Apart x zs → Apart x (ys ++ zs)
  Apart-append x [] zs a b = b
  Apart-append x (y ∷ ys) zs a b = (a.0, Apart-append x ys zs a.1 b)

  pub entries-Owned :
      (t : Hash) (xs ys : List At) (ls : Leading in_evs xs) (ks : Leading out_evs ys)
      → Members t xs
      → Owned m (entries out_evs ys ks)
      → Owned m (entries in_evs xs ls ++ entries out_evs ys ks)
  entries-Owned t [] ys ls ks ms o = o
  entries-Owned t (a ∷ xs) ys ls ks ms o =
      let l = ls.0 in
      let apart =
        entries-Apart in_evs in_evs a l xs ls.1 (NotIn-AreUnlike in_evs a.pair.key xs ms.1) in
      let elsewhere = entries-Apart in_evs out_evs a l ys ks (sets-AreUnlike a.pair.key ys) in
      (
        l.key,
        ms.0.filled,
        l.to_event,
        l.stored,
        Apart-append (entry_of in_evs a l) (entries in_evs xs ls.1) (entries out_evs ys ks) apart
            elsewhere,
        entries-Owned t xs ys ls.1 ks ms.2 o,
      )

  pub out_entries-Owned :
      (t : Hash) (ys : List At) (ks : Leading out_evs ys)
      → Members t ys
      → Owned m (entries out_evs ys ks)
  out_entries-Owned t [] ks ms = tt
  out_entries-Owned t (a ∷ ys) ks ms =
      let l = ks.0 in
      (
        l.key,
        ms.0.filled,
        l.to_event,
        l.stored,
        entries-Apart out_evs out_evs a l ys ks.1 (NotIn-AreUnlike out_evs a.pair.key ys ms.1),
        out_entries-Owned t ys ks.1 ms.2,
      )

  pub registry-Leading :
      (w : Which) (t : Hash) (xs : List At) → IsRegistry size w t m → Members t xs → Leading w xs
  registry-Leading w t [] r ms = tt
  registry-Leading w t (a ∷ xs) r ms =
      let same = Member-find_key t a ms.0 in
      (rw same at (r.leads a.pair.key (rw same ms.0.filled)), registry-Leading w t xs r ms.2)

  pub entries-Holds :
      (fuel : ℕ) (w : Which) (s : EvSet) (r : IsRegistry size w s.ht m)
      (ls : Leading w (ats max_hash_size 0 s.ht))
      → length (ats max_hash_size 0 s.ht) < fuel
      → Holds size fuel s (entries w (ats max_hash_size 0 s.ht) ls)
  entries-Holds fuel w s r ls enough =
      let todo = ats max_hash_size 0 s.ht in
      record {
        table = r.table;
        frees = r.frees;
        entries = entries-ats w todo ls;
        own_fds =
            entries-OwnFds s.ht w todo ls (ats-Members max_hash_size 0 s.ht (omega arith) r.table);
        in_size = rw (sym (entries-ats w todo ls)) (entries-InSize w todo ls);
        enough = rw (entries-length w todo ls) enough;
      }
