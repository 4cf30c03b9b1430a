-- ===== src/Event.antt =====
-- The events of net/mcl_event.h and the core of net/mcl_event.c, which hands the work to a backend.
pub mod Calls
use mcl.Base.{
  ℕ, ◌/◌, ◌%◌, Bool, true, false, not, Option, none, some, List, [], ◌∷◌, Run, ok, fault, ◌>>=◌, ℤ,
  Ptr, null, ◌==◌, if◌then◌else◌,
}

-- `MCL_EVENT_TYPE`. The values are numbers in a row, which the code combines and tests as bits.
abbrev pub ev_read : ℕ
ev_read = 1

abbrev pub ev_write : ℕ
ev_write = 2

abbrev pub ev_exp : ℕ
ev_exp = 3

abbrev pub ev_persist : ℕ
ev_persist = 4

abbrev pub ev_del : ℕ
ev_del = 6

-- `ty & MCL_EV_READ`, `ty & MCL_EV_WRITE`, `ty & MCL_EV_EXP` and `ty & MCL_EV_PERSIST` as tests
abbrev pub has_read : ℕ → Bool
has_read ty = not (ty % 2 == 0)

abbrev pub has_write : ℕ → Bool
has_write ty = not (ty / 2 % 2 == 0)

abbrev pub has_exp : ℕ → Bool
has_exp ty = not (ty % 4 == 0)

abbrev pub has_persist : ℕ → Bool
has_persist ty = not (ty / 4 % 2 == 0)

-- A `mcl_event_cb`, 0 being NULL
abbrev pub EventCb : Type 0
EventCb = ℕ

-- `mcl_event`
pub record Event : Type 0 where
  pub sockfd : ℤ
  pub ev_type : ℕ
  pub callback : EventCb
  pub cleanup_cb : EventCb
  pub error_cb : EventCb
  pub uargs : Ptr

-- A call of a callback.
pub record EventCall : Type 0 where
  pub fn : EventCb
  pub sockfd : ℤ
  pub ev_type : ℕ
  pub udata : Ptr

-- `if (cb) cb(sockfd, type, MCL_EV_UDATA(ev));`
abbrev pub call_back : EventCb → ℤ → ℕ → Event → List EventCall
call_back cb fd ty e =
    if cb == null then [] else record { fn = cb; sockfd = fd; ev_type = ty; udata = e.uargs } ∷ []

-- A `struct timeval`, in seconds and microseconds
abbrev pub TimeVal : Type 0
TimeVal = ℕ × ℕ

-- `mcl_evbase` over a backend's data, without the timeout. `nevents` is set to 0 and not used.
pub record EvBase (D : Type 0) : Type 0 where
  pub evdb : D
  pub nevents : ℕ
  pub term_flag : Bool

-- `mcl_evops`, over the world `W` of memory and system. An address is that of an event; `init`
-- gives `none` for NULL, and `dispatch` if it runs on.
pub record EvOps (D W : Type 0) : Type 0 where
  pub evop_name : List ℕ
  pub init : W → Run (Option D × W)
  pub add : Ptr → EvBase D → W → Run ((ℕ × EvBase D) × W)
  pub del : Ptr → EvBase D → W → Run ((ℕ × EvBase D) × W)
  pub dispatch : Option TimeVal → EvBase D → W → Run (Option ((ℕ × EvBase D) × W))
  pub cleanup : EvBase D → W → Run W

-- The search for the last backend. Without any, `ops[i - 1]` is in front of the array.
unfoldable pub last_backend {ℓ} : {A : Type ℓ} → List A → Run A
last_backend [] = fault
last_backend (x ∷ xs) = let rest = last_backend xs in elim xs [ [] ↦ ok x | y ∷ ys ↦ rest ]

-- A base and its backend.
abbrev pub Opened : Type 0 → Type 0 → Type 0
Opened D W = EvBase D × EvOps D W

module _ {D W : Type 0} where
  abbrev base_with : EvOps D W → Option D → Option (Opened D W)
  base_with op none = none
  base_with op (some db) = some (record { evdb = db; nevents = 0; term_flag = false }, op)

  -- `mcl_evbase_new`
  unfoldable pub evbase_new : List (EvOps D W) → W → Run (Option (Opened D W) × W)
  unfolding last_backend
  evbase_new ops w = do op ← last_backend ops; (db, w') ← op.init w; ok (base_with op db, w')

  -- `mcl_evbase_destroy`
  unfoldable pub evbase_destroy : Option (Opened D W) → W → Run W
  evbase_destroy none w = ok w
  evbase_destroy (some (base, op)) w = op.cleanup base w

  -- What `mcl_event_loop` leaves, without what `dispatch` returns.
  abbrev pub left_by : Option ((ℕ × EvBase D) × W) → Option (Option (EvBase D) × W)
  left_by none = none
  left_by (some ((r, base'), w')) = some (some base', w')

  -- `mcl_event_loop`, and the base afterwards; `none` if it runs on
  unfoldable pub event_loop :
      Option TimeVal → Option (Opened D W) → W → Run (Option (Option (EvBase D) × W))
  event_loop tval none w = ok (some (none, w))
  event_loop tval (some (base, op)) w = do r ← op.dispatch tval base w; ok (left_by r)

  -- `mcl_event_add` and `mcl_event_del`
  unfoldable pub event_add : Ptr → Option (Opened D W) → W → Run ((ℕ × Option (EvBase D)) × W)
  event_add ev none w = ok ((0, none), w)
  event_add ev (some (base, op)) w =
      if ev == null
      then ok ((0, some base), w)
      else do ((r, base'), w') ← op.add ev base w; ok ((r, some base'), w')

  unfoldable pub event_del : Ptr → Option (Opened D W) → W → Run ((ℕ × Option (EvBase D)) × W)
  event_del ev none w = ok ((0, none), w)
  event_del ev (some (base, op)) w =
      if ev == null
      then ok ((0, some base), w)
      else do ((r, base'), w') ← op.del ev base w; ok ((r, some base'), w')

  -- `mcl_evbase_name`
  unfoldable pub evbase_name : Opened D W → List ℕ
  evbase_name (base, op) = op.evop_name

-- `mcl_event_loopexit`
unfoldable pub event_loopexit : {D : Type 0} → EvBase D → EvBase D
event_loopexit base = record base { term_flag = true }

-- `mcl_event_set` on an event that is not NULL, where the base is not: what the event is then.
unfoldable pub event_set : ℤ → ℕ → (callback cleanup_cb error_cb : EventCb) → Ptr → Event → Event
event_set fd ty cb cleanup error uargs e = record {
  sockfd = fd;
  ev_type = ty;
  callback = cb;
  cleanup_cb = cleanup;
  error_cb = error;
  uargs = uargs;
}
