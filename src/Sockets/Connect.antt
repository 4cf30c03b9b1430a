-- ===== src/Sockets/Connect.antt =====
-- `mcl_connect` of net/mcl_net_raw.c tries again until its timeout has run out.
use mcl.Base.{
  ℕ, zero, suc, ◌+◌, ◌/◌, ◌<◌, ◌≡◌, refl, some, ℤ, pos, negsuc, ltb, if◌then◌else◌, arith,
  Bool-cases, inl, inr,
}
use mcl.Sockets.{
  System, Socket, connect_loop, connect, connect_retry_us, is_zero, is_negative, less_retry,
}

-- How often a timeout lets the loop try: once per 10 ms begun.
abbrev pub rounds : ℤ → ℕ
rounds (pos n) = (n + 9999) / 10000
rounds (negsuc n) = 0

rounds-less_retry : (n : ℕ) → 0 < n → rounds (pos n) ≡ suc (rounds (less_retry (pos n)))
rounds-less_retry n h = ground arith

module _ {S Addr : Type 0} (os : System S Addr) (fd : Socket) (addr : Addr) where
  -- Sleep and try, up to `n` times, until a try gives 0.
  unfoldable pub retry : ℕ → S → ℕ × S
  retry zero s = (0, s)
  retry (suc n) s =
      let (r, s') = os.connect fd addr (os.usleep connect_retry_us s) in
      let rest = retry n s' in if is_zero r then (1, s') else rest

  connect_loop-retry :
      (fuel : ℕ) (timeout : ℤ) (s : S)
      → rounds timeout < fuel
      → connect_loop os fuel fd addr timeout s ≡ some (retry (rounds timeout) s)
  unfolding connect_loop retry
  connect_loop-retry zero t s h = elim h [ ]
  connect_loop-retry (suc k) (negsuc n) s h = refl
  connect_loop-retry (suc k) (pos n) s h = elim (Bool-cases (ltb 0 n)) [
    | inl t ↦
        let (r, s') = os.connect fd addr (os.usleep connect_retry_us s) in
        let e = rounds-less_retry n (ground arith) in
        rw (t, e)
          (elim (Bool-cases (is_zero r)) [
            | inl z ↦ rw z refl
            | inr f ↦ rw f (connect_loop-retry k (less_retry (pos n)) s' (ground arith))
          ])
    | inr f ↦ let e : (n + 9999) / 10000 ≡ 0 = ground arith in rw (f, e) refl
  ]

  -- `mcl_connect` with fuel for the rounds ends. It returns 1 if the first attempt does not fail,
  -- and else what as many attempts as the timeout has begun periods of 10 ms, each after a sleep,
  -- give: 1 at the first that returns 0, and 0 if there is none.
  pub connect-retry :
      (fuel : ℕ) (timeout : ℤ) (s : S)
      → rounds timeout < fuel
      → connect os fuel fd addr timeout s ≡ (
          let (r, s') = os.connect fd addr s in
          if is_negative r then some (retry (rounds timeout) s') else some (1, s'))
  unfolding connect
  connect-retry fuel timeout s h =
      rw (connect_loop-retry fuel timeout (os.connect fd addr s).1 h) refl
