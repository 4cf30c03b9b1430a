-- ===== src/Select/Entries.antt =====
-- The registered events of a set of net/mcl_select.c, and what `handle_events` is to do for them.
use mcl.Base.{
  ℤ, ℕ, zero, suc, ◌≡◌, Bool, true, false, some, List, [], ◌∷◌, ◌++◌, subscript, Ptr, null, ◌==◌,
  if◌then◌else◌,
}
use mcl.Keys.{int}
use mcl.Hash.{Hash}
use mcl.Hash.Iter.{At}
use mcl.Hash.Iter.Walk.{remove}
use mcl.Event.{Event, EventCb, EventCall}
use mcl.Event.Calls.{call_of, stays}
use mcl.Select.{Memory}
use mcl.Select.Deleting.{without}

-- A pair of a set, its descriptor, and the event that its node points to.
pub record Entry : Type 0 where
  pub at : At
  pub fd : ℤ
  pub ev : Ptr
  pub event : Event

abbrev pub fd_of : Entry → ℕ
fd_of x = subscript x.fd

-- Another entry has another node and another event.
pub record Differs (x y : Entry) : Type 0 where
  pub node : (y.at.pair.val == x.at.pair.val) ≡ false
  pub ev : (y.ev == x.ev) ≡ false

abbrev pub Apart : Entry → List Entry → Type 0
Apart x [] = Unit
Apart x (y ∷ ys) = Differs x y × Apart x ys

-- No two entries have the same descriptor.
abbrev pub HasNot : Entry → List Entry → Type 0
HasNot x [] = Unit
HasNot x (y ∷ ys) = ((fd_of y == fd_of x) ≡ false) × HasNot x ys

abbrev pub OwnFds : List Entry → Type 0
OwnFds [] = Unit
OwnFds (x ∷ xs) = HasNot x xs × OwnFds xs

-- The nodes and the events of the entries are in memory, each once.
abbrev pub Owned : Memory → List Entry → Type 0
Owned m [] = Unit
Owned m (x ∷ xs) =
    (x.at.pair.key ≡ int x.fd)
    × ((x.at.pair.val == null) ≡ false)
    × (m.nodes x.at.pair.val ≡ some x.ev)
    × (m.events x.ev ≡ some x.event)
    × Apart x xs
    × Owned m xs

-- The error callback for the sets' type of exceptions, 3, and else the callback.
abbrev pub answer : (ty : ℕ) → ℤ → Event → List EventCall
answer ty fd e =
    if ty == 3 then call_of e.error_cb fd 3 e.uargs else call_of e.callback fd ty e.uargs

abbrev pub is_set : EventCb → Bool
is_set zero = false
is_set (suc cb) = true

-- Whether an event ends when it is answered: one that does not stay, and one whose error callback
-- is called.
abbrev pub ends_by : (ty : ℕ) → Event → Bool
ends_by ty e = if stays e.ev_type then (if ty == 3 then is_set e.error_cb else false) else true

-- What is to be done for the entries, in their order, when `ready` are the bits.
module _ (ty : ℕ) (ready : ℕ → Bool) where
  -- The callback of an entry whose bit is set, and its cleanup when it is not persistent.
  abbrev pub calls_for : Entry → List EventCall
  calls_for x =
      if ready (fd_of x)
      then answer ty x.fd x.event
        ++ (if ends_by ty x.event
            then call_of x.event.cleanup_cb x.event.sockfd 6 x.event.uargs
            else [])
      else []

  abbrev pub ends : Entry → Bool
  ends x = if ready (fd_of x) then ends_by ty x.event else false

  abbrev pub all_calls : List Entry → List EventCall
  all_calls [] = []
  all_calls (x ∷ xs) = calls_for x ++ all_calls xs

  -- The set without the entries that end.
  abbrev pub table_after : List Entry → Hash → Hash
  table_after [] t = t
  table_after (x ∷ xs) t = table_after xs (if ends x then remove x.at t else t)

  abbrev pub memory_after : List Entry → Memory → Memory
  memory_after [] m = m
  memory_after (x ∷ xs) m = memory_after xs (if ends x then without x.at.pair.val x.ev m else m)

  abbrev pub bits_after : List Entry → (ℕ → Bool) → ℕ → Bool
  bits_after [] f = f
  bits_after (x ∷ xs) f =
      bits_after xs (if ends x then (λ n. if n == fd_of x then false else f n) else f)

-- Freeing one entry leaves the others.
pub Owned-without :
    (x : Entry) (xs : List Entry) (m : Memory)
    → Apart x xs
    → Owned m xs
    → Owned (without x.at.pair.val x.ev m) xs
Owned-without x [] m a o = tt
Owned-without x (y ∷ ys) m (d, a) (key, nz, node, ev, apart, o) =
    (key, nz, rw d.node node, rw d.ev ev, apart, Owned-without x ys m a o)
