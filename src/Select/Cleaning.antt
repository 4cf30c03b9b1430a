-- ===== src/Select/Cleaning.antt =====
-- The end of the backend of net/mcl_select.c: `select_cleanup`.
use mathlib.Core.List.{append-nil, map-append}
use mcl.Base.{ℕ, zero, suc, ◌≡◌, refl, sym, ap, ◌∙◌, List, [], ◌∷◌, ◌++◌, map, ok, ◌>>=◌}
use mcl.LinkedList.{free_item}
use mcl.Keys.{max_hash_size}
use mcl.Hash
use mcl.Hash.{Hash, Pair, Bucket, bucket_at}
use mcl.Hash.Clean.{pairs, free_values, clean-find}
use mcl.Hash.Iter.{At}
use mcl.Hash.Iter.Walk.{ats_in, ats}
use mcl.Event.{EventCall, call_back, ev_del}
use mcl.Select.{Memory, EvSet, SelectDb, event_ht_free_fn, run_frees, free_evset, select_cleanup}
use mcl.Select.Deleting.{without, event_ht_free_ok}
use mcl.Select.Entries.{Entry, Owned, Owned-without}
use mcl.Select.Round.{Owned-append_left}

abbrev pair_of : At → Pair
pair_of a = a.pair

pairs_in : (i : ℕ) (b : Bucket) → map pair_of (ats_in i b) ≡ b
unfolding ats_in
pairs_in i [] = refl
pairs_in i (p ∷ ps) = ap (λ r. p ∷ r) (pairs_in i ps)

pairs-ats : (n i : ℕ) (t : Hash) → pairs n i t ≡ map pair_of (ats n i t)
unfolding pairs ats
pairs-ats zero i t = refl
pairs-ats (suc n) i t =
    let b = bucket_at (t.tables i) in
    ap (λ r. b ++ r) (pairs-ats n (suc i) t)
    ∙ sym (
        map-append pair_of (ats_in i b) (ats n (suc i) t)
        ∙ ap (λ r. r ++ map pair_of (ats n (suc i) t)) (pairs_in i b))

-- Freeing all entries, with their cleanups.
abbrev pub freed : List Entry → Memory → Memory
freed [] m = m
freed (x ∷ xs) m = freed xs (without x.at.pair.val x.ev m)

abbrev pub cleanups : List Entry → List EventCall
cleanups [] = []
cleanups (x ∷ xs) = call_back x.event.cleanup_cb x.event.sockfd ev_del x.event ++ cleanups xs

run_frees-freed :
    (xs : List Entry) (m : Memory)
    → Owned m xs
    → run_frees (free_values event_ht_free_fn (map pair_of (map (λ x. x.at) xs))) m
      ≡ ok (freed xs m, cleanups xs)
unfolding run_frees free_values free_item
run_frees-freed [] m o = refl
run_frees-freed (x ∷ xs) m (key, nz, node, ev, apart, o) =
    let step = event_ht_free_ok x.at.pair.val x.ev x.event m node ev in
    let rest = run_frees-freed xs (without x.at.pair.val x.ev m) (Owned-without x xs m apart o) in
    rw (nz, run_frees, step, ◌>>=◌, rest) refl

free_evset-freed :
    (s : EvSet) (xs : List Entry) (m : Memory)
    → ats max_hash_size 0 s.ht ≡ map (λ x. x.at) xs
    → Owned m xs
    → free_evset s m ≡ ok (freed xs m, cleanups xs)
unfolding free_evset Hash.destroy
free_evset-freed s xs m here o =
    ap (λ cs. run_frees cs m)
      ((clean-find event_ht_free_fn s.ht).0
        ∙ ap (free_values event_ht_free_fn)
            (pairs-ats max_hash_size 0 s.ht ∙ ap (map pair_of) here))
    ∙ run_frees-freed xs m o

Owned-freed : (xs ys : List Entry) (m : Memory) → Owned m (xs ++ ys) → Owned (freed xs m) ys
Owned-freed [] ys m o = o
Owned-freed (x ∷ xs) ys m (key, nz, node, ev, apart, o) =
    Owned-freed xs ys (without x.at.pair.val x.ev m) (Owned-without x (xs ++ ys) m apart o)

-- `select_cleanup` of a backend whose sets for reading and writing own their nodes and events, and
-- whose set for exceptions is empty, ends without a fault. It calls the cleanup of each registered
-- event once and frees its node and the event, first for reading, then for writing, each in the
-- table's order.
pub select_cleanup-frees :
    (db : SelectDb) (xs ys : List Entry) (m : Memory)
    → ats max_hash_size 0 db.in_evs.ht ≡ map (λ x. x.at) xs
    → ats max_hash_size 0 db.out_evs.ht ≡ map (λ x. x.at) ys
    → ats max_hash_size 0 db.exp_evs.ht ≡ []
    → Owned m (xs ++ ys)
    → select_cleanup db m ≡ ok (freed ys (freed xs m), cleanups xs ++ cleanups ys)
unfolding select_cleanup
select_cleanup-frees db xs ys m ins outs exps o =
    rw
      (
        select_cleanup,
        ◌>>=◌,
        free_evset-freed db.in_evs xs m ins (Owned-append_left xs ys m o),
        free_evset-freed db.out_evs ys (freed xs m) outs (Owned-freed xs ys m o),
        free_evset-freed db.exp_evs [] (freed ys (freed xs m)) exps tt,
        append-nil (cleanups ys),
      )
      refl
