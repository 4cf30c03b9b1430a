-- ===== src/Array/Api/Session.antt =====
-- A client of an array: a sequence of calls on one array, up to its destruction, and what the
-- client sees of them.
use mcl.Base.{◌≡◌, refl, Option, none, some, List, [], ◌∷◌, Run, ok, ◌>>=◌, Ptr, Call}
use mcl.Array.{Array}
use mcl.Array.Api.{ArrayCall, Ret, call}
use mcl.Array.Api.Spec.{spec, IsAllowed}
use mcl.Array.Api.Refines.{Shows, call-Refines}

-- The calls of `free_fn` that the client's call makes, and its result.
pub record Seen : Type 0 where
  pub calls : List Call
  pub ret : Ret

abbrev seen : List Call → Ret → Seen
seen cs r = record { calls = cs; ret = r }

unfoldable pub session : List ArrayCall → Option Array → Run (List Seen)
session cs none = ok []
session [] (some a) = ok []
session (c ∷ cs) (some a) = do
  r ← call c (some a)
  rest ← session cs r.array
  ok (seen r.calls r.ret ∷ rest)

unfoldable pub spec_session : List ArrayCall → Option (List Ptr) → List Seen
spec_session cs none = []
spec_session [] (some xs) = []
spec_session (c ∷ cs) (some xs) = let e = spec c xs in seen e.calls e.ret ∷ spec_session cs e.elems

-- Every call is allowed on the elements that the calls before it leave.
abbrev pub AreAllowed : List ArrayCall → Option (List Ptr) → Type 0
AreAllowed cs none = Unit
AreAllowed [] (some xs) = Unit
AreAllowed (c ∷ cs) (some xs) = IsAllowed c xs × AreAllowed cs (spec c xs).elems

-- A client's sequence of calls on one array, each allowed on the elements that the calls before it
-- leave, up to the array's destruction, runs without a fault, and its calls of free functions and
-- its results are those of the specification over a plain list.
pub session-spec_session :
    (cs : List ArrayCall) (a : Option Array) (xs : Option (List Ptr))
    → Shows a xs
    → AreAllowed cs xs
    → session cs a ≡ ok (spec_session cs xs)
unfolding session spec_session
session-spec_session [] none none s h = refl
session-spec_session (c ∷ cs) none none s h = refl
session-spec_session cs none (some xs) s h = elim s [ ]
session-spec_session cs (some a) none s h = elim s [ ]
session-spec_session [] (some a) (some xs) s h = refl
session-spec_session (c ∷ cs) (some a) (some xs) (v, cap) (now, later) =
    let (r, run, f) = call-Refines v cap c now in
    rw (run, session-spec_session cs r.array (spec c xs).elems f.array later, f.calls, f.ret)
