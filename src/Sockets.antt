-- ===== src/Sockets.antt =====
-- The wrappers of net/mcl_net_raw.c around the system's socket calls. The system is a parameter: a
-- state, and for each call what it returns and the state afterwards.
pub mod Connect
pub mod Send
pub mod Addresses
use mcl.Base.{
  ℕ, zero, suc, ◌+◌, ◌-◌, ◌%◌, ◌^◌, Bool, true, false, Option, none, some, List, [], ◌∷◌, ◌++◌, ℤ,
  pos, negsuc, take, length, ltb, ◌==◌, if◌then◌else◌,
}

-- `MCL_SOCKET`, an `int`
abbrev pub Socket : Type 0
Socket = ℤ

-- What the wrappers ask of the system. `Addr` is `mcl_sockaddr`. A send takes the bytes of the
-- buffer, and says how many of them it took; a receipt gives the bytes that it wrote.
pub record System (S Addr : Type 0) : Type 0 where
  pub socket : (domain kind protocol : ℕ) → S → ℤ × S
  pub shutdown : Socket → (how : ℕ) → S → ℤ × S
  pub bind : Socket → Addr → S → ℤ × S
  pub connect : Socket → Addr → S → ℤ × S
  pub usleep : ℕ → S → S
  pub listen : Socket → ℤ → S → ℤ × S
  pub accept : Socket → S → (ℤ × Addr) × S
  pub send : Socket → List ℕ → (flags : ℕ) → S → ℤ × S
  pub recv : Socket → (bufflen flags : ℕ) → S → (ℤ × List ℕ) × S
  pub setsockopt : Socket → (level option : ℕ) → List ℕ → S → ℤ × S
  pub get_flags : Socket → S → ℤ × S
  pub set_flags : Socket → ℕ → S → ℤ × S
  -- `SHUT_RD`, `SHUT_WR` and `SHUT_RDWR` of the system's headers, and the function that sets the
  -- bit `O_NONBLOCK`
  pub shut_rd : ℕ
  pub shut_wr : ℕ
  pub shut_rdwr : ℕ
  pub or_nonblock : ℕ → ℕ

abbrev pub is_negative : ℤ → Bool
is_negative (pos n) = false
is_negative (negsuc n) = true

abbrev pub is_positive : ℤ → Bool
is_positive (pos n) = ltb 0 n
is_positive (negsuc n) = false

abbrev pub is_zero : ℤ → Bool
is_zero (pos n) = n == 0
is_zero (negsuc n) = false

-- 1 for a result that is not negative, else 0
abbrev pub success : {S : Type 0} → ℤ × S → ℕ × S
success (r, s) = (if is_negative r then 0 else 1, s)

-- `LISTEN_BACKLOG` and `CONNECT_RETRY_US`
abbrev pub listen_backlog : ℕ
listen_backlog = 50

abbrev pub connect_retry_us : ℕ
connect_retry_us = 10000

-- `timeout -= CONNECT_RETRY_US`
abbrev pub less_retry : ℤ → ℤ
less_retry (pos n) =
    if ltb n connect_retry_us then negsuc (connect_retry_us - n - 1) else pos (n - connect_retry_us)
less_retry (negsuc n) = negsuc (n + connect_retry_us)

-- The bytes that a send took from the buffer.
abbrev pub took : ℤ → List ℕ → List ℕ
took (pos n) buff = take n buff
took (negsuc n) buff = []

-- `to_sent -= sent` on `size_t`
abbrev pub less_sent : ℕ → ℤ → ℕ
less_sent t (pos n) = (t + 2 ^ 64 - n) % 2 ^ 64
less_sent t (negsuc n) = (t + suc n) % 2 ^ 64

-- The conversion of a `size_t` to the `int` that `mcl_send` returns
abbrev pub int_of : ℕ → ℤ
int_of n = if ltb (n % 2 ^ 32) (2 ^ 31) then pos (n % 2 ^ 32) else negsuc (2 ^ 32 - n % 2 ^ 32 - 1)

module _ {S Addr : Type 0} (os : System S Addr) where
  -- `mcl_socket`: 0 where the system fails
  unfoldable pub socket : (domain kind protocol : ℕ) → S → ℤ × S
  socket d k p s = let (r, s') = os.socket d k p s in (if is_negative r then pos 0 else r, s')

  unfoldable pub shutdown_socket : Socket → ℕ → S → ℕ × S
  shutdown_socket fd how s = success (os.shutdown fd how s)

  unfoldable pub shutdown_rd : Socket → S → ℕ × S
  shutdown_rd fd s = shutdown_socket fd os.shut_rd s

  unfoldable pub shutdown_wr : Socket → S → ℕ × S
  shutdown_wr fd s = shutdown_socket fd os.shut_wr s

  unfoldable pub shutdown_rw : Socket → S → ℕ × S
  shutdown_rw fd s = shutdown_socket fd os.shut_rdwr s

  unfoldable pub bind : Socket → Addr → S → ℕ × S
  bind fd addr s = success (os.bind fd addr s)

  -- The loop of `mcl_connect`, `none` if the fuel runs out
  unfoldable pub connect_loop : ℕ → Socket → Addr → ℤ → S → Option (ℕ × S)
  connect_loop zero fd addr timeout s = none
  connect_loop (suc k) fd addr timeout s =
      let (r, s') = os.connect fd addr (os.usleep connect_retry_us s) in
      let rest = connect_loop k fd addr (less_retry timeout) s' in
      if is_positive timeout then (if is_zero r then some (1, s') else rest) else some (0, s)

  -- `mcl_connect`
  unfoldable pub connect : ℕ → Socket → Addr → ℤ → S → Option (ℕ × S)
  unfolding connect_loop
  connect fuel fd addr timeout s =
      let (r, s') = os.connect fd addr s in
      if is_negative r then connect_loop fuel fd addr timeout s' else some (1, s')

  -- `mcl_listen`
  unfoldable pub listen : Socket → ℤ → S → ℕ × S
  listen fd backlog s =
      success (os.listen fd (if is_positive backlog then backlog else pos listen_backlog) s)

  -- `mcl_accept` into an address that is not NULL: the address is `none` where it is not written.
  unfoldable pub accept : Socket → S → (ℤ × Option Addr) × S
  accept fd s =
      let ((r, addr), s') = os.accept fd s in
      if is_positive r then ((r, some addr), s') else ((pos 0, none), s')

  -- The loop of `mcl_send` with `to_sent` bytes left, and all bytes that were taken: each round
  -- sends from the start of the buffer.
  unfoldable pub send_loop :
      ℕ → Socket → List ℕ → (flags to_sent : ℕ) → S → Option ((ℤ × List ℕ) × S)
  send_loop zero fd buff flags to_sent s = none
  send_loop (suc k) fd buff flags to_sent s =
      let (r, s') = os.send fd buff flags s in
      let rest = send_loop k fd buff flags (less_sent to_sent r) s' in
      if to_sent == 0
      then some ((int_of (length buff), []), s)
      else if is_negative r
      then some ((pos 0, []), s')
      else elim rest [
        | none ↦ none
        | some ((n, bytes), s'') ↦ some ((n, took r buff ++ bytes), s'')
      ]

  -- `mcl_send` of a whole buffer
  unfoldable pub send : ℕ → Socket → List ℕ → ℕ → S → Option ((ℤ × List ℕ) × S)
  unfolding send_loop
  send fuel fd buff flags s = send_loop fuel fd buff flags (length buff) s

  -- `mcl_recv`: its result and the bytes in the buffer
  unfoldable pub recv : Socket → (bufflen flags : ℕ) → S → (ℤ × List ℕ) × S
  recv fd bufflen flags s = os.recv fd bufflen flags s

  -- `mcl_setsocketopt`
  unfoldable pub setsocketopt : Socket → (level option : ℕ) → List ℕ → S → ℕ × S
  setsocketopt fd level option val s = success (os.setsockopt fd level option val s)

  -- `mcl_sock_nonblock`
  unfoldable pub sock_nonblock : Socket → S → ℕ × S
  sock_nonblock fd s =
      let (flags, s') = os.get_flags fd s in
      elim flags [ negsuc n ↦ (0, s') | pos f ↦ success (os.set_flags fd (os.or_nonblock f) s') ]
