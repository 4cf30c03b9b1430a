-- ===== src/Hash/Session.antt =====
-- A client of the table of util/mcl_hash.c: a sequence of insertions, deletions and lookups.
use mcl.Base.{
  ◌≡◌, refl, sym, ap, ◌∙◌, Bool, true, false, List, [], ◌∷◌, ℤ, pos, negsuc, subscript, Ptr, null,
  FreeFn, ◌==◌, ==_iff, arith, Bool-cases, inl, inr,
}
use mcl.LinkedList.{free_item}
use mcl.Keys.{Key, calc_hash, available_hash_value, key_cmp}
use mcl.Keys.Compare.{eq_of_key_cmp}
use mcl.Hash.{Hash, change, do_hash_insert, hash_insert, hash_delete, delete_key, find_key}
use mcl.Hash.Map.{Hashes, Binds, hash_find-value_in}
use mcl.Hash.Insert.{insert-Rebinds, insert_safe-Rebinds, insert_safe-Refuses}
use mcl.Hash.Delete.{delete-Removes, delete_absent}
use mcl.Hash.Calls.{
  HashCall, insert, insert_safe, delete, find, Seen, seen, call, Values, bind, has_place, spec,
  HasRoom, IsAllowed, Shows, Refines,
}

place : (k : Key) (h : ℤ) → calc_hash k ≡ h → available_hash_value h ≡ true → Hashes k (subscript h)
place k (pos n) e a = record { hash = e; in_table = ground arith }
place k (negsuc n) e a = ground arith

module _ (t : Hash) (f : Values) (s : Shows t f) (k : Key) where
  -- Without a place a key is refused.
  module _ (out : has_place k ≡ false) where
    insert_without_place :
        (fresh : Ptr) (d : Ptr) (b : Bool) (fn : FreeFn)
        → ((hash_insert fresh k d b fn t).table ≡ t)
          × ((hash_insert fresh k d b fn t).calls ≡ [])
          × ((hash_insert fresh k d b fn t).ret ≡ 0)
    unfolding hash_insert do_hash_insert
    insert_without_place fresh d b fn = elim (Bool-cases (d == null)) [
      | inl e ↦ rw e (refl, refl, refl)
      | inr e ↦ rw (e, out) (refl, refl, refl)
    ]

    delete_without_place : (fn : FreeFn) → delete_key k fn t ≡ change t [] [] 0
    unfolding delete_key hash_delete
    delete_without_place fn = rw out refl

    find_without_place : f k ≡ null
    unfolding find_key
    find_without_place = sym (s.values k) ∙ hash_find-value_in (calc_hash k) k t ∙ rw out refl

  Binds-Shows : (d : Ptr) (t' : Hash) → Binds t k d t' → Shows t' (bind k d f)
  Binds-Shows d t' b = record {
    table = b.table;
    values = λ j. elim (Bool-cases (key_cmp j k)) [
      | inl e ↦ ap (λ x. find_key x t') (eq_of_key_cmp j k e) ∙ b.bound ∙ rw e refl
      | inr e ↦ b.others j e ∙ s.values j ∙ rw e refl
    ];
  }

  insert_null :
      (fresh : Ptr) (d : Ptr) (b : Bool) (fn : FreeFn)
      → (d == null) ≡ true
      → hash_insert fresh k d b fn t ≡ change t [] [] 0
  unfolding hash_insert
  insert_null fresh d b fn e = rw e refl

  insert-Refines :
      (fresh : Ptr) (d : Ptr) (fn : FreeFn)
      → HasRoom fresh k t
      → Refines (call (insert fresh k d fn) t) (spec (insert fresh k d fn) f)
  unfolding call spec
  insert-Refines fresh d fn (free, room) = elim (Bool-cases (d == null)) [
    | inl e ↦ rw (insert_null fresh d true fn e, e) (record { shows = s; same = refl })
    | inr nz ↦ elim (Bool-cases (has_place k)) [
      | inl p ↦
          let h = place k (calc_hash k) refl p in
          let r = insert-Rebinds fresh k (subscript (calc_hash k)) d t h s.table nz free room fn in
          rw (nz, p)
            (record {
              shows = Binds-Shows d (hash_insert fresh k d true fn t).table r.binds;
              same = rw (r.calls, r.ret, s.values k) refl;
            })
      | inr out ↦
          let (same, calls, ret) = insert_without_place out fresh d true fn in
          rw (nz, out) (record { shows = rw same s; same = rw (calls, ret) refl })
    ]
  ]

  insert_safe-Refines :
      (fresh : Ptr) (d : Ptr)
      → HasRoom fresh k t
      → Refines (call (insert_safe fresh k d) t) (spec (insert_safe fresh k d) f)
  unfolding call spec free_item
  insert_safe-Refines fresh d (free, room) = elim (Bool-cases (d == null)) [
    | inl e ↦ rw (insert_null fresh d false null e, e) (record { shows = s; same = refl })
    | inr nz ↦ elim (Bool-cases (has_place k)) [
      | inl p ↦
          let i = subscript (calc_hash k) in
          let h = place k (calc_hash k) refl p in
          elim (Bool-cases (f k == null)) [
            | inl u ↦
                let absent = s.values k ∙ (==_iff (f k) null).0 u in
                let r = insert_safe-Rebinds fresh k i d t h s.table nz free room absent in
                rw (nz, p, u)
                  (record {
                    shows = Binds-Shows d (hash_insert fresh k d false null t).table r.binds;
                    same = rw (r.calls, r.ret, absent) refl;
                  })
            | inr u ↦
                let r = insert_safe-Refuses fresh k i d t h s.table nz (rw (s.values k) u) in
                rw (nz, p, u)
                  (record {
                    shows = record { table = r.table; values = λ j. r.find j ∙ s.values j };
                    same = rw (r.calls, r.ret) refl;
                  })
          ]
      | inr out ↦
          let (same, calls, ret) = insert_without_place out fresh d false null in
          rw (nz, out) (record { shows = rw same s; same = rw (calls, ret) refl })
    ]
  ]

  delete-Refines : (fn : FreeFn) → Refines (call (delete k fn) t) (spec (delete k fn) f)
  unfolding call spec
  delete-Refines fn = elim (Bool-cases (has_place k)) [
    | inl p ↦
        let i = subscript (calc_hash k) in
        let h = place k (calc_hash k) refl p in
        elim (Bool-cases (f k == null)) [
          | inl u ↦
              let absent = s.values k ∙ (==_iff (f k) null).0 u in
              rw (u, delete_absent k i fn t h s.table absent) (record { shows = s; same = refl })
          | inr u ↦
              let r = delete-Removes k i fn t h s.table (rw (s.values k) u) in
              rw u (record {
                shows =
                    Binds-Shows null (delete_key k fn t).table
                      (record { bound = r.gone; others = r.others; table = r.table });
                same = rw (r.calls, r.ret, s.values k) refl;
              })
        ]
    | inr out ↦
        let absent = find_without_place out in
        rw (absent, delete_without_place out fn) (record { shows = s; same = refl })
  ]

call-Refines :
    (c : HashCall) (t : Hash) (f : Values)
    → Shows t f
    → IsAllowed c t
    → Refines (call c t) (spec c f)
unfolding call spec
call-Refines (insert fresh k d fn) t f s a = insert-Refines t f s k fresh d fn a
call-Refines (insert_safe fresh k d) t f s a = insert_safe-Refines t f s k fresh d a
call-Refines (delete k fn) t f s a = delete-Refines t f s k fn
call-Refines (find k) t f s a = record { shows = s; same = ap (seen []) (s.values k) }

unfoldable pub session : List HashCall → Hash → List Seen
unfolding call
session [] t = []
session (c ∷ cs) t = let r = call c t in r.1 ∷ session cs r.0

unfoldable pub spec_session : List HashCall → Values → List Seen
unfolding spec
spec_session [] f = []
spec_session (c ∷ cs) f = let r = spec c f in r.1 ∷ spec_session cs r.0

abbrev pub AreAllowed : List HashCall → Hash → Type 0
AreAllowed [] t = Unit
AreAllowed (c ∷ cs) t = IsAllowed c t × AreAllowed cs (call c t).0

-- A client's sequence of insertions that replace or do not, deletions and lookups, with keys of
-- either type, on a well-formed table that shows the values `f`, where each new pair has an
-- address of its own in its bucket and room there, has as its results and as its calls of free
-- functions those of the specification, which keeps one value for each key: an insertion binds the
-- key unless the value is NULL or the key has no place in the table, or, if it does not replace,
-- the key has a value; a deletion unbinds the key and frees its value; a lookup gives the value,
-- NULL for none.
pub hash_session-spec_session :
    (cs : List HashCall) (t : Hash) (f : Values)
    → Shows t f
    → AreAllowed cs t
    → session cs t ≡ spec_session cs f
unfolding session spec_session
hash_session-spec_session [] t f s a = refl
hash_session-spec_session (c ∷ cs) t f s (now, later) =
    let r = call-Refines c t f s now in
    rw (r.same, hash_session-spec_session cs (call c t).0 (spec c f).0 r.shows later) refl
