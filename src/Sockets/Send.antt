-- ===== src/Sockets/Send.antt =====
-- `mcl_send` of net/mcl_net_raw.c.
use mcl.Base.{
  ℕ, zero, suc, ℤ, negsuc, ◌+◌, ◌-◌, ◌*◌, ◌/◌, ◌%◌, ◌≤◌, ltb, Bool-cases, inl, inr, ◌^◌, ◌<◌, ◌≡◌,
  refl, sym, ap, ◌∙◌, true, false, some, List, [], ◌∷◌, ◌++◌, pos, take, length, ◌==◌, arith,
}
use mcl.Sockets.{System, Socket, send_loop, send, is_negative, int_of}

-- The `int` of 32 bits that a length becomes: the number in the range of `int` that differs from it
-- by a multiple of 2^32.
pub data IsInt : ℕ → ℤ → Type 0 where
  positive : (n q m : ℕ) → n ≡ q * 2 ^ 32 + m → m < 2 ^ 31 → IsInt n (pos m)
  negative : (n q m : ℕ) → n + suc m ≡ q * 2 ^ 32 → m < 2 ^ 31 → IsInt n (negsuc m)

int_of-IsInt : (n : ℕ) → IsInt n (int_of n)
int_of-IsInt n =
    let q = n / 2 ^ 32 in
    let m = n % 2 ^ 32 in
    elim (Bool-cases (ltb m (2 ^ 31))) [
      | inl e ↦ rw e (positive n q m (omega arith) (ground arith))
      | inr e ↦
          let big : 2 ^ 31 ≤ m = ground arith in
          rw e (negative n (suc q) (2 ^ 32 - m - 1) (omega arith) (omega arith))
    ]

-- The counts that the system returns, one after the other from the state `s`; none of them is 0.
module _ {S Addr : Type 0} (os : System S Addr) (fd : Socket) (buff : List ℕ) (flags : ℕ) where
  abbrev pub Takes : List ℕ → S → S → Type 0
  Takes [] s t = s ≡ t
  Takes (n ∷ ns) s t =
      (0 < n) × ((os.send fd buff flags s).0 ≡ pos n) × Takes ns (os.send fd buff flags s).1 t

  abbrev pub sum : List ℕ → ℕ
  sum [] = 0
  sum (n ∷ ns) = n + sum ns

  -- The starts of the buffer of these lengths, one after the other.
  unfoldable pub starts : List ℕ → List ℕ
  starts [] = []
  starts (n ∷ ns) = take n buff ++ starts ns

  send_loop-starts :
      (fuel : ℕ) (ns : List ℕ) (s t : S)
      → Takes ns s t
      → sum ns < 2 ^ 64
      → length ns < fuel
      → send_loop os fuel fd buff flags (sum ns) s ≡ some ((int_of (length buff), starts ns), t)
  unfolding send_loop starts
  send_loop-starts zero ns s t k b h = elim h [ ]
  send_loop-starts (suc fuel) [] s t k b h = rw k refl
  send_loop-starts (suc fuel) (n ∷ ns) s t (p, e, k) b h =
      let more : (n + sum ns == 0) ≡ false = ground arith in
      let left : (n + sum ns + 2 ^ 64 - n) % 2 ^ 64 ≡ sum ns = omega arith in
      rw
        (
          more,
          e,
          left,
          send_loop-starts fuel ns (os.send fd buff flags s).1 t k (omega arith) (omega arith),
        )
        (rw e refl)

  send_loop-fails :
      (fuel left : ℕ) (ns : List ℕ) (s t : S)
      → Takes ns s t
      → is_negative (os.send fd buff flags t).0 ≡ true
      → 0 < left
      → sum ns + left < 2 ^ 64
      → length ns < fuel
      → send_loop os fuel fd buff flags (sum ns + left) s
        ≡ some ((pos 0, starts ns), (os.send fd buff flags t).1)
  unfolding send_loop starts
  send_loop-fails zero left ns s t k f m b h = elim h [ ]
  send_loop-fails (suc fuel) left [] s t k f m b h =
      let more : (0 + left == 0) ≡ false = ground arith in rw (k, more, f) refl
  send_loop-fails (suc fuel) left (n ∷ ns) s t (p, e, k) f m b h =
      let more : (n + sum ns + left == 0) ≡ false = ground arith in
      let rest : (n + sum ns + left + 2 ^ 64 - n) % 2 ^ 64 ≡ sum ns + left = omega arith in
      let ih =
        send_loop-fails fuel left ns (os.send fd buff flags s).1 t k f m (omega arith)
          (omega arith) in
      rw (more, e, rest, ih) (rw e refl)

  -- `mcl_send` of a buffer shorter than 2^64, when the system takes some pieces, none of them
  -- empty and together fewer bytes than the buffer has, and then fails, with more fuel than
  -- pieces, ends and returns 0.
  pub send_fails :
      (fuel : ℕ) (ns : List ℕ) (s t : S)
      → Takes ns s t
      → is_negative (os.send fd buff flags t).0 ≡ true
      → sum ns < length buff
      → length buff < 2 ^ 64
      → length ns < fuel
      → send os fuel fd buff flags s ≡ some ((pos 0, starts ns), (os.send fd buff flags t).1)
  unfolding send
  send_fails fuel ns s t k f m b h =
      ap (λ n. send_loop os fuel fd buff flags n s) {x = length buff}
        {y = sum ns + (length buff - sum ns)} (omega arith)
      ∙ send_loop-fails fuel (length buff - sum ns) ns s t k f (omega arith) (omega arith) h

  -- `mcl_send` of a buffer shorter than 2^64, when the system takes it in pieces that add up to
  -- its length and none of which is empty, with more fuel than pieces, ends and returns the `int`
  -- that the length becomes, which is the length itself below 2^31, and else the number of the
  -- range of `int` that differs from it by a multiple of 2^32. Each piece starts at the start of
  -- the buffer.
  pub send-starts :
      (fuel : ℕ) (ns : List ℕ) (s t : S)
      → Takes ns s t
      → sum ns ≡ length buff
      → length buff < 2 ^ 64
      → length ns < fuel
      → (r : ℤ) × (send os fuel fd buff flags s ≡ some ((r, starts ns), t)) × IsInt (length buff) r
  unfolding send
  send-starts fuel ns s t k e b h = (
    int_of (length buff),
    ap (λ n. send_loop os fuel fd buff flags n s) (sym e)
        ∙ send_loop-starts fuel ns s t k (omega arith) h,
    int_of-IsInt (length buff),
  )
