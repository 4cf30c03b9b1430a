-- ===== src/Keys.antt =====
-- The keys of the hash table of util/mcl_hash.c and their hashes. A string key is the text of its
-- `mcl_string`, none of whose characters is NUL; a character is the `unsigned char` of its bits.
pub mod Elf
pub mod Compare
use mcl.Base.{
  ℕ, zero, suc, ◌+◌, ◌-◌, ◌*◌, ◌/◌, ◌%◌, ◌^◌, Bool, true, false, ◌&&◌, List, [], ◌∷◌, ℤ, pos,
  negsuc, ltb, ◌==◌, if◌then◌else◌,
}

-- `mcl_hash_key`, one constructor for each `mcl_data_type` that a table can have
pub data Key : Type 0 where
  int : ℤ → Key
  str : List ℕ → Key

-- `MCL_HASH_MAX_SIZE`
abbrev pub max_hash_size : ℕ
max_hash_size = 1021

abbrev pub negate : ℕ → ℤ
negate zero = pos 0
negate (suc n) = negsuc n

-- The product is a `long`, so that its remainder has the sign of the key. The result is an
-- `unsigned int`, which each caller stores in an `int`.
unfoldable pub cal_hash_int : ℤ → ℤ
cal_hash_int (pos n) = pos (n * 2654435761 % max_hash_size)
cal_hash_int (negsuc n) = negate (suc n * 2654435761 % max_hash_size)

-- A `char` as a `long`, in 64 bits.
abbrev pub extend : ℕ → ℕ
extend c = if ltb c 128 then c else 2 ^ 64 - 256 + c

-- The exclusive or of two numbers of four bits.
abbrev pub xor_bit : ℕ → ℕ → ℕ
xor_bit a b = (a + b) % 2

unfoldable pub xor4 : ℕ → ℕ → ℕ
xor4 a b =
    xor_bit a b
    + 2 * xor_bit (a / 2) (b / 2)
    + 4 * xor_bit (a / 4) (b / 4)
    + 8 * xor_bit (a / 8) (b / 8)

-- A round of the loop of `cal_hash_str`, on a `long` of 64 bits: `x` is `top * 2 ^ 28`.
unfoldable pub elf_step : ℕ → ℕ → ℕ
unfolding xor4
elf_step hash c =
    let h = (hash * 16 + extend c) % 2 ^ 64 in
    let top = h / 2 ^ 28 % 16 in
    let mixed = h / 256 * 256 + 16 * xor4 (h / 16 % 16) top + h % 16 in
    (if top == 0 then h else mixed) - top * 2 ^ 28

unfoldable pub elf_from : ℕ → List ℕ → ℕ
unfolding elf_step
elf_from hash [] = hash
elf_from hash (c ∷ cs) = elf_from (elf_step hash c) cs

-- The conversion of a `long` of 64 bits to `int`
abbrev pub to_int : ℕ → ℤ
to_int h = if ltb (h % 2 ^ 32) (2 ^ 31) then pos (h % 2 ^ 32) else negsuc (2 ^ 32 - h % 2 ^ 32 - 1)

unfoldable pub cal_hash_str : List ℕ → ℤ
unfolding elf_from
cal_hash_str s = cal_hash_int (to_int (elf_from 0 s))

unfoldable pub calc_hash : Key → ℤ
unfolding cal_hash_str
calc_hash (int n) = cal_hash_int n
calc_hash (str s) = cal_hash_str s

abbrev pub available_hash_value : ℤ → Bool
available_hash_value (pos h) = ltb h max_hash_size
available_hash_value (negsuc n) = false

abbrev pub int_cmp : ℤ → ℤ → Bool
int_cmp (pos m) (pos n) = m == n
int_cmp (pos m) (negsuc n) = false
int_cmp (negsuc m) (pos n) = false
int_cmp (negsuc m) (negsuc n) = m == n

-- Whether `mcl_string_cmp` gives 0 for two texts
abbrev pub same_text : List ℕ → List ℕ → Bool
same_text [] [] = true
same_text [] (d ∷ ds) = false
same_text (c ∷ cs) [] = false
same_text (c ∷ cs) (d ∷ ds) = c == d && same_text cs ds

abbrev pub key_cmp : Key → Key → Bool
key_cmp (int m) (int n) = int_cmp m n
key_cmp (int m) (str t) = false
key_cmp (str s) (int n) = false
key_cmp (str s) (str t) = same_text s t
