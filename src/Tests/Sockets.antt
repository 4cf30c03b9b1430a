-- ===== src/Tests/Sockets.antt =====
-- A system at which attempts fail, and the theorems on the sockets applied to it.
use mcl.Base.{ℕ, ℤ, ◌+◌, ◌≡◌, refl, some, List, [], ◌∷◌, pos, negsuc, ◌==◌, if◌then◌else◌, arith}
use mcl.Sockets
use mcl.Sockets.{System, is_negative}
use mcl.Sockets.Connect.{rounds, retry, connect-retry}
use mcl.Sockets.Send.{IsInt, starts, send-starts}

-- Its state counts the calls. The third attempt to connect succeeds; two sends take 2 and 1 bytes.
abbrev os : System ℕ ℕ
os = record {
  socket = λ d k p s. (pos 3, s);
  shutdown = λ fd how s. (pos 0, s);
  bind = λ fd a s. (pos 0, s);
  connect = λ fd a s. (if s == 2 then pos 0 else negsuc 0, s + 1);
  usleep = λ n s. s;
  listen = λ fd n s. (pos 0, s);
  accept = λ fd s. ((pos 4, 0), s);
  send = λ fd b f s. (if s == 0 then pos 2 else if s == 1 then pos 1 else negsuc 0, s + 1);
  recv = λ fd n f s. ((pos 0, []), s);
  setsockopt = λ fd l o v s. (pos 0, s);
  get_flags = λ fd s. (pos 0, s);
  set_flags = λ fd f s. (pos 0, s);
  shut_rd = 0;
  shut_wr = 1;
  shut_rdwr = 2;
  or_nonblock = λ f. f + 4;
}

connect-retry_example : Sockets.connect os 4 (pos 3) 7 (pos 25000) 0 ≡ (
    let (r, s') = os.connect (pos 3) 7 0 in
    if is_negative r then some (retry os (pos 3) 7 (rounds (pos 25000)) s') else some (1, s'))
connect-retry_example = connect-retry os (pos 3) 7 4 (pos 25000) 0 (omega arith)

abbrev buffer : List ℕ
buffer = 10 ∷ 11 ∷ 12 ∷ []

send-starts_example :
    (r : ℤ) × (Sockets.send os 3 (pos 3) buffer 0 0
      ≡ some ((r, starts os (pos 3) buffer 0 (2 ∷ 1 ∷ [])), 2))
    × IsInt 3 r
send-starts_example =
    send-starts os (pos 3) buffer 0 3 (2 ∷ 1 ∷ []) 0 2
      (omega arith, refl, (omega arith, refl, refl)) refl (omega arith) (omega arith)

abbrev longer : List ℕ
longer = 10 ∷ 11 ∷ 12 ∷ 13 ∷ []
