-- ===== src/Event/Calls.antt =====
-- When the backends call a callback of net/mcl_event.h and when an event is to stay, case by case.
use mcl.Base.{ℕ, zero, suc, ◌%◌, ◌≡◌, refl, Bool, List, [], ◌∷◌, ℤ, Ptr, leb, arith}
use mcl.Event.{Event, EventCb, EventCall, call_back, has_persist}

-- A callback that is NULL is not called.
unfoldable pub call_of : EventCb → ℤ → (ty : ℕ) → (udata : Ptr) → List EventCall
call_of zero fd ty udata = []
call_of (suc fn) fd ty udata = record { fn = suc fn; sockfd = fd; ev_type = ty; udata = udata } ∷ []

pub call_back-call_of :
    (cb : EventCb) (fd : ℤ) (ty : ℕ) (e : Event) → call_back cb fd ty e ≡ call_of cb fd ty e.uargs
unfolding call_of
call_back-call_of zero fd ty e = refl
call_back-call_of (suc fn) fd ty e = ground arith

-- The bit of the value 4 is set.
abbrev pub stays : ℕ → Bool
stays ty = leb 4 (ty % 8)

pub has_persist-stays : (ty : ℕ) → has_persist ty ≡ stays ty
has_persist-stays ty = ground arith
