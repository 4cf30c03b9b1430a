-- ===== src/Select/Bits.antt =====
-- The bits that `init_fds` of net/mcl_select.c sets.
use mathlib.Core.Path.{fun_ext}
use mcl.Base.{
  ◌>>=◌, ℕ, ◌<◌, ◌≡◌, refl, sym, ap, ◌∙◌, Bool, true, false, some, List, [], ◌∷◌, Run, ok, pos,
  Call, length, ltb, ◌==◌, if◌then◌else◌, arith, ◌||◌,
}
use mcl.Hash.{Hash, Pair}
use mcl.Keys.{int, key_cmp, max_hash_size}
use mcl.Hash.Map.{IsHash}
use mcl.Hash.Iter.{At}
use mcl.Hash.Iter.Walk.{ats}
use mcl.Hash.Iter.Sweep.{visit, visit_keeps, sweep_snapshot}
use mcl.Select.{EvSet, zero_fds}
use mcl.Select.Update.{fd_set}
use mcl.Select.Dispatch.{int_at, set_key, with_fds, init_fds}

-- One of the pairs has the descriptor `n` as its key.
abbrev pub has_key : ℕ → List At → Bool
has_key n [] = false
has_key n (a ∷ todo) = key_cmp (int (pos n)) a.pair.key || has_key n todo

-- All keys are descriptors that an `fd_set` has a bit for.
abbrev pub InSize : ℕ → List At → Type 0
InSize size [] = Unit
InSize size (a ∷ todo) = (n : ℕ) × (a.pair.key ≡ int (pos n)) × (n < size) × InSize size todo

abbrev or_keys : List At → (ℕ → Bool) → ℕ → Bool
or_keys todo f n = has_key n todo || f n

or_bit : (b c d : Bool) → c || (if b then true else d) ≡ (b || c) || d
or_bit true true d = refl
or_bit true false d = refl
or_bit false c d = refl

or_false : (b : Bool) → b || false ≡ b
or_false true = refl
or_false false = refl

abbrev skip : List Call → Pair → Run (ℕ → Bool) → Run (ℕ → Bool)
skip cs p f = f

module _ (size : ℕ) where
  visit-keys :
      (todo : List At) (t : Hash) (f : ℕ → Bool)
      → InSize size todo
      → visit (set_key size) skip todo t (ok f) ≡ (t, ok (or_keys todo f))
  unfolding visit fd_set
  visit-keys [] t f h = refl
  visit-keys (a ∷ todo) t f (n, e, lt, h) =
      let in_size : ltb n size ≡ true = ground arith in
      let f' : ℕ → Bool = λ j. if j == n then true else f j in
      let step : (set_key size a.pair (ok f)).1 ≡ ok f' =
        rw (set_key, int_at, e, ◌>>=◌, fd_set, in_size) refl in
      visit_keeps (set_key size) skip a t (ok f) todo refl
      ∙ ap (λ r. visit (set_key size) skip todo t r) step
      ∙ visit-keys todo t f' h
      ∙ ap (λ g. (t, ok g))
          (fun_ext (λ j.
            or_bit (j == n) (has_key j todo) (f j)
            ∙ ap (λ k. (key_cmp (int (pos j)) k || has_key j todo) || f j) (sym e)))

-- `init_fds` on a well-formed set whose keys are descriptors below `FD_SETSIZE`, with more fuel
-- than there are pairs, ends without a fault; the bits set are then those of the keys.
pub init_fds-keys :
    (size fuel : ℕ) (s : EvSet)
    → IsHash s.ht
    → InSize size (ats max_hash_size 0 s.ht)
    → length (ats max_hash_size 0 s.ht) < fuel
    → init_fds size fuel s
      ≡ ok (some (record { ht = s.ht; fds = λ n. has_key n (ats max_hash_size 0 s.ht) }))
unfolding init_fds with_fds
init_fds-keys size fuel s w h enough =
    rw
      (
        sweep_snapshot (set_key size) skip fuel s.ht (ok zero_fds) w enough,
        visit-keys size (ats max_hash_size 0 s.ht) s.ht zero_fds h,
      )
      (ap (λ f. ok (some (record { ht = s.ht; fds = f })))
        (fun_ext (λ n. or_false (has_key n (ats max_hash_size 0 s.ht)))))
