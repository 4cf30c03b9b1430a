-- ===== src/Tests/Queues.antt =====
-- An event registered with the kqueue backend, and the theorems on the backend applied to it.
use mcl.Base.{
  ℕ, ◌+◌, ◌≡◌, refl, Bool, true, false, none, some, List, [], ◌∷◌, ◌++◌, ok, pos, negsuc, ◌==◌,
  if◌then◌else◌,
}
use mcl.Keys.{int, cal_hash_int, calc_hash}
use mcl.Hash
use mcl.Hash.{find_key, Hash, store}
use mcl.Event.{Event, EventCall}
use mcl.Kqueue.{Events, Kevent, System, State, which, table_of, kq_del, kq_dispatch}
use mcl.Kqueue.Deleting.{Deletes, kq_del-Deletes}
use mcl.Event.Calls.{call_of}
use mcl.Kqueue.Round.{answer, Returned, all_calls, kq_dispatch-exits}
use mcl.Tests.Hashes.{empty, table, table-IsHash}

-- The type has the bits of `MCL_EV_READ` and `MCL_EV_PERSIST`.
abbrev reader : Event
reader = record {
  sockfd = pos 5;
  ev_type = 5;
  callback = 11;
  cleanup_cb = 12;
  error_cb = 13;
  uargs = 14;
}

abbrev memory : Events
memory q = if q == 500 then some reader else none

abbrev readable : Kevent
readable = record { ident = pos 5; filter = negsuc 0; flags = 0; udata = 500 }

abbrev os : System ℕ
os = record {
  kqueue = λ s. (pos 3, s);
  change = λ kq c s. (pos 0, s + 1);
  wait = λ kq s. (some (readable ∷ []), s + 1);
  evfilt_read = negsuc 0;
  evfilt_write = negsuc 1;
  has_read_filter = λ f. true;
  has_write_filter = λ f. true;
  has_error = λ f. false;
}

-- The table of the descriptor 5 has the event as its value.
abbrev state : State ℕ
state = record {
  db = record { kq = pos 3; ht_rdevset = empty; ht_wrevset = table };
  memory = memory;
  calls = [];
  os = 0;
}

found : find_key (int (pos 5)) (table_of (which reader) state.db) ≡ 500
unfolding find_key calc_hash cal_hash_int Hash.hash_find Hash.find_pair
found = refl

kq_del-Deletes_example :
    (s' : State ℕ) × (kq_del os 500 state ≡ ok (1, s')) × Deletes 5 500 reader reader state s'
kq_del-Deletes_example =
    kq_del-Deletes os 5 500 500 state reader reader refl refl table-IsHash found refl refl

abbrev exits : EventCall → Bool
exits c = c.fn == 11

abbrev returned : List Returned
returned = record { kevent = readable; event = reader } ∷ []

kq_dispatch-exits_example :
    kq_dispatch os exits 2 false state
    ≡ ok (some (1, record state { calls = [] ++ all_calls os returned; os = 1 }))
unfolding answer call_of
kq_dispatch-exits_example =
    kq_dispatch-exits os exits state returned 1 refl (refl, refl, refl, tt) 0 refl
