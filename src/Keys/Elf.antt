-- ===== src/Keys/Elf.antt =====
-- The hash of a string key of util/mcl_hash.c is always an index of the table.
use mcl.Base.{
  ℕ, ◌+◌, ◌-◌, ◌*◌, ◌/◌, ◌%◌, ◌^◌, ◌<◌, ◌≡◌, refl, true, List, [], ◌∷◌, pos, ltb, ◌==◌, arith,
  Bool-cases, inl, inr,
}
use mcl.Keys.{max_hash_size, cal_hash_int, extend, xor4, elf_step, elf_from, cal_hash_str}

xor4-bound : (a b : ℕ) → xor4 a b < 16
unfolding xor4
xor4-bound a b = ground arith

-- Clearing the bits 28 to 31, before and behind a change of the bits 4 to 7.
cleared : (y : ℕ) → (y - y / 268435456 % 16 * 268435456) % 4294967296 < 268435456
cleared y = omega arith

mixed : (y m : ℕ) → m < 16 → (y / 256 * 256 + 16 * m + y % 16) / 268435456 ≡ y / 268435456
mixed y m h = omega arith

cleared_mixed :
    (y m : ℕ)
    → m < 16
    → (y / 256 * 256 + 16 * m + y % 16 - y / 268435456 % 16 * 268435456) % 4294967296 < 268435456
cleared_mixed y m h = rw (mixed y m h) at (cleared (y / 256 * 256 + 16 * m + y % 16))

-- The low 32 bits of the number stay below 2^28.
elf_step-bound : (h c : ℕ) → elf_step h c % 2 ^ 32 < 2 ^ 28
unfolding elf_step
elf_step-bound h c =
    let y = (h * 16 + extend c) % 2 ^ 64 in
    let top = y / 2 ^ 28 % 16 in
    let m = xor4 (y / 16 % 16) top in
    elim (Bool-cases (top == 0)) [
      | inl e ↦ rw e (cleared y)
      | inr e ↦ rw e (cleared_mixed y m (xor4-bound (y / 16 % 16) top))
    ]

elf_from-bound : (h : ℕ) (cs : List ℕ) → h % 2 ^ 32 < 2 ^ 28 → elf_from h cs % 2 ^ 32 < 2 ^ 28
unfolding elf_from
elf_from-bound h [] b = b
elf_from-bound h (c ∷ cs) b = elf_from-bound (elf_step h c) cs (elf_step-bound h c)

-- The hash of a string key, computed by ELFHASH in a `long` of 64 bits, converted to `int` and
-- multiplied, is never negative and below the number of buckets.
pub cal_hash_str-index : (s : List ℕ) → (i : ℕ) × (i < max_hash_size) × (cal_hash_str s ≡ pos i)
unfolding cal_hash_str cal_hash_int
cal_hash_str-index s =
    let w = elf_from 0 s % 2 ^ 32 in
    let b = elf_from-bound 0 s (omega arith) in
    let positive : ltb w (2 ^ 31) ≡ true = ground arith in
    (w * 2654435761 % max_hash_size, omega arith, rw positive refl)
