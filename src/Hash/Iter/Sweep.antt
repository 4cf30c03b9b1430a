-- ===== src/Hash/Iter/Sweep.antt =====
-- A loop over a hash table visits the pairs that were there at its start, each once, also when it
-- erases.
use mcl.Base.{
  ℕ, zero, suc, ◌-◌, ◌<◌, ◌≡◌, refl, sym, ◌∙◌, Bool, true, false, none, some, List, [], ◌∷◌, ◌++◌,
  ok, ◌>>=◌, Call, length, arith, Bool-cases, inl, inr,
}
use mathlib.Core.List.{append_assoc}
use mcl.LinkedList.{free_item}
use mcl.Hash.{Pair, Hash}
use mcl.Keys.{max_hash_size}
use mcl.Hash.Map.{IsHash}
use mcl.Hash.Iter.{At, HashIter, seek, iter_head, iter_next, iter_erase, sweep}
use mcl.Hash.Iter.Walk.{
  at_cursor, ats_in, ats, remove, start, Pos, mid, end, seek-Pos, start-Pos, iter_next-start,
  iter_erase-start, remove-IsHash, removed_here, start_removed, rest_removed,
}

-- The loop over the pairs as they were at its start.
module _ {S : Type 0} (body : Pair → S → Bool × S) (cleanup : List Call → Pair → S → S) where
  unfoldable pub visit : List At → Hash → S → Hash × S
  visit [] t s = (t, s)
  visit (a ∷ todo) t s =
      let (gone, s') = body a.pair s in
      elim gone [
        | true ↦ visit todo (remove a t) (cleanup (free_item true t.erase_fn a.pair.val) a.pair s')
        | false ↦ visit todo t s'
      ]

  module _ (a : At) (t : Hash) (s : S) where
    sweep_erases :
        (k : ℕ)
        → (body a.pair s).0 ≡ true
        → sweep body cleanup (suc k) (some a) t s ≡ (
            iter_erase (some a) t >>= λ r.
            sweep body cleanup k r.iter r.table (cleanup r.calls a.pair (body a.pair s).1))
    unfolding sweep
    sweep_erases k e = rw (sweep, e) refl

    sweep_keeps :
        (k : ℕ)
        → (body a.pair s).0 ≡ false
        → sweep body cleanup (suc k) (some a) t s
          ≡ (iter_next (some a) t >>= λ it. sweep body cleanup k it t (body a.pair s).1)
    unfolding sweep
    sweep_keeps k e = rw (sweep, e) refl

    pub visit_erases :
        (todo : List At)
        → (body a.pair s).0 ≡ true
        → visit (a ∷ todo) t s
          ≡ visit todo
              (remove a t)
              (cleanup (free_item true t.erase_fn a.pair.val) a.pair (body a.pair s).1)
    unfolding visit
    visit_erases todo e = rw (visit, e) refl

    pub visit_keeps :
        (todo : List At)
        → (body a.pair s).0 ≡ false
        → visit (a ∷ todo) t s ≡ visit todo t (body a.pair s).1
    unfolding visit
    visit_keeps todo e = rw (visit, e) refl

  sweep-visit :
      (fuel : ℕ) (t : Hash) (it : HashIter) (todo : List At) (s : S)
      → IsHash t
      → Pos t it todo
      → length todo < fuel
      → sweep body cleanup fuel it t s ≡ ok (some (visit todo t s))
  unfolding sweep visit
  sweep-visit zero t it todo s w pos h = elim h [ ]
  sweep-visit (suc k) t none [] s w end h = refl
  sweep-visit (suc k) t none (a ∷ todo) s w pos h = elim pos [ ]
  sweep-visit (suc k) t (some a) [] s w pos h = elim pos [ ]
  sweep-visit (suc k) t (some a) (b ∷ todo) s w (mid i done p ps lt e) h =
      let a' = at_cursor i p in
      let rest = ats_in i ps ++ ats (max_hash_size - suc i) (suc i) t in
      elim (Bool-cases (body p s).0) [
        | inl gone ↦
            let t' = remove a' t in
            let s' = cleanup (free_item true t.erase_fn p.val) p (body p s).1 in
            let pos =
              rw (start_removed t i p ps, rest_removed t i p) at
                (start-Pos i done ps t' lt (removed_here t w i done p ps lt e)) in
            rw
              (
                sweep_erases a' t s k gone,
                visit_erases a' t s rest gone,
                iter_erase-start t w i done p ps lt e,
              )
              (sweep-visit k t' (start i ps t) rest s' (remove-IsHash a' t w) pos (omega arith))
        | inr kept ↦
            rw
              (
                sweep_keeps a' t s k kept,
                visit_keeps a' t s rest kept,
                iter_next-start t w i done p ps lt e,
              )
              (sweep-visit k t (start i ps t) rest (body p s).1 w
                (start-Pos i (done ++ (p ∷ [])) ps t lt (e ∙ sym (append_assoc done (p ∷ []) ps)))
                (omega arith))
      ]

  -- On a well-formed table, a loop by the iterator with more fuel than there are pairs ends
  -- without a fault, also when it erases pairs. It does what going through the list of the pairs
  -- that were there at its start does, each of which it visits once.
  pub sweep_snapshot :
      (fuel : ℕ) (t : Hash) (s : S)
      → IsHash t
      → length (ats max_hash_size 0 t) < fuel
      → sweep body cleanup fuel (iter_head t) t s ≡ ok (some (visit (ats max_hash_size 0 t) t s))
  unfolding iter_head
  sweep_snapshot fuel t s w h =
      sweep-visit fuel t (seek max_hash_size 0 t) (ats max_hash_size 0 t) s w
        (seek-Pos max_hash_size 0 t (omega arith)) h
